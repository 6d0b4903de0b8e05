-- ===== src/Conversation/Manager.antt =====
-- pipelines/conversation.rs: `ConversationManager`. Its `HashMap<Uuid, Conversation>` is an association
-- list without repeated keys, in the order of iteration; a `Uuid` is a number, and the ids that
-- `Uuid::new_v4` draws are an argument, in the order in which they are drawn.
pub mod Keys
use rust_bert.Prelude.{
  ℕ, String, Bool, true, false, Option, none, some, List, [], ◌∷◌, map, ◌==◌, if◌then◌else◌,
  is_some,
}
use rust_bert.Conversation.State.{Conversation, new, new_empty}

abbrev pub Conversations : Type 0
Conversations = List (ℕ × Conversation)

pub record ConversationManager : Type 0 where
  pub conversations : Conversations

-- HashMap: `get`, `contains_key`, `remove`
unfoldable pub lookup : ℕ → Conversations → Option Conversation
lookup k [] = none
lookup k ((j, c) ∷ m) = if j == k then some c else lookup k m

unfoldable pub contains_key : ℕ → Conversations → Bool
contains_key k m = is_some (lookup k m)

unfoldable pub without : ℕ → Conversations → Conversations
without k [] = []
without k ((j, c) ∷ m) = let rest = without k m in if j == k then rest else (j, c) ∷ rest

unfoldable pub new_manager : ConversationManager
new_manager = record { conversations = [] }

unfoldable pub actives : Conversations → Conversations
actives [] = []
actives ((k, c) ∷ m) =
    let rest = actives m in if is_some c.new_user_input then (k, c) ∷ rest else rest

-- The ids and the conversations, as two vectors.
unfoldable pub get_active_conversations : ConversationManager → List ℕ × List Conversation
unfolding actives
get_active_conversations m = (
  map (λ (e : ℕ × Conversation). e.0) (actives m.conversations),
  map (λ (e : ℕ × Conversation). e.1) (actives m.conversations),
)

unfoldable pub get : ConversationManager → ℕ → Option Conversation
unfolding lookup
get m k = lookup k m.conversations

unfoldable pub get_all : ConversationManager → Conversations
get_all m = m.conversations

-- `while self.conversations.contains_key(&uuid) { uuid = Uuid::new_v4(); }`
unfoldable pub fresh_uuid : Conversations → List ℕ → Option ℕ
unfolding contains_key lookup
fresh_uuid m [] = none
fresh_uuid m (k ∷ drawn) = elim (contains_key k m) [ true ↦ fresh_uuid m drawn | false ↦ some k ]

-- `none`: none of the drawn ids is free, and the source goes on drawing.
unfoldable pub add : ConversationManager → Conversation → List ℕ → Option (ConversationManager × ℕ)
unfolding fresh_uuid
add m c drawn = elim (fresh_uuid m.conversations drawn) [
  | none ↦ none
  | some k ↦ some (record { conversations = (k, c) ∷ m.conversations }, k)
]

unfoldable pub create : ConversationManager → String → List ℕ → Option (ConversationManager × ℕ)
unfolding add
create m text drawn = add m (new text) drawn

unfoldable pub create_empty : ConversationManager → List ℕ → Option (ConversationManager × ℕ)
unfolding add
create_empty m drawn = add m new_empty drawn

unfoldable pub remove : ConversationManager → ℕ → ConversationManager × Option Conversation
unfolding lookup without
remove m k = (record { conversations = without k m.conversations }, lookup k m.conversations)

-- The emptied manager, and a copy of what it held.
unfoldable pub clear : ConversationManager → ConversationManager × Conversations
clear m = (record { conversations = [] }, m.conversations)
