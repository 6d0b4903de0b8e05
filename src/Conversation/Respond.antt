-- ===== src/Conversation/Respond.antt =====
-- pipelines/conversation.rs: `ConversationModel` and `generate_responses`. The tokenizer and the
-- language model behind `ConversationOption` are the record `DialogueModel`.
pub mod Loop
pub mod Turns
pub mod Generated
pub mod Total
use mathlib.Core.List.{flatten}
use rust_bert.Prelude.{
  ℕ, String, Option, none, some, List, [], ◌∷◌, ◌++◌, map, ◌==◌, if◌then◌else◌, unwrap_or,
  map_option, is_empty,
}
use rust_bert.Prelude.Int.{ℤ, ◌-ℤ◌}
use rust_bert.Prelude.Outcome.{Outcome, ok, ◌>>=◌, unwrap, slice_from, checked_sub, traverse}
use rust_bert.Conversation.State.{Conversation, mark_processed, get_last_response}
use rust_bert.Conversation.Manager.{
  ConversationManager, Conversations, actives, get_active_conversations,
}
use rust_bert.Conversation.Context.{
  Batch, concat_input_history, clean_padding_indices, encode_prompts,
}

pub record DialogueModel : Type 0 where
  -- `tokenize_list` and `convert_tokens_to_ids` on one text
  pub tokenize : String → List ℕ
  pub decode : List ℕ → String
  pub pad_id : Option ℕ
  pub eos_ids : Option (List ℕ)
  -- `generate_from_ids_and_past` on the rows and their attention mask
  pub generate_from_ids_and_past : List (List ℕ) → List (List ℕ) → List (List ℕ)

pub record ConversationConfig : Type 0 where
  pub max_length : Option ℤ
  pub min_length_for_response : ℤ

pub record ConversationModel : Type 0 where
  pub model : DialogueModel
  pub eos_token_id : ℕ
  pub max_allowed_context_length : Option ℤ

abbrev head? : List ℕ → Option ℕ
head? [] = none
head? (x ∷ _) = some x

-- `*model_ref.get_eos_ids().as_ref().unwrap().first().unwrap()`
unfoldable pub get_eos_id : DialogueModel → Outcome ℕ
get_eos_id model = do ids ← unwrap model.eos_ids; unwrap (head? ids)

-- `new`, once `ConversationOption::new` has returned the model.
unfoldable pub new : ConversationConfig → DialogueModel → Outcome ConversationModel
unfolding get_eos_id
new config model = do
  eos ← get_eos_id model
  ok (record {
    model = model;
    eos_token_id = eos;
    max_allowed_context_length =
        map_option (λ m. m -ℤ config.min_length_for_response) config.max_length;
  })

-- Both methods read the padding token so.
unfoldable pub pad_token : ConversationModel → ℕ
pad_token cm = unwrap_or cm.model.pad_id cm.eos_token_id

-- What the loop does to one conversation.
unfoldable pub answer : Conversation → String → List ℕ → List ℕ → Conversation
answer c text prompt response = mark_processed (record c {
  generated_responses = c.generated_responses ++ text ∷ [];
  history = (c.history ++ prompt ∷ []) ++ response ∷ [];
})

-- A write through the reference that the map handed out.
unfoldable pub store : ℕ → Conversation → Conversations → Conversations
store k c [] = []
store k c ((j, d) ∷ m) = if j == k then (k, c) ∷ m else (j, d) ∷ store k c m

abbrev Responses : Type 0
Responses = List (ℕ × String)

-- The loop over the four zipped sequences: it ends with the shortest.
unfoldable pub respond_all :
    ConversationModel
    → ℕ
    → Conversations
    → List (List ℕ × (ℕ × ℕ))
    → List (List ℕ)
    → Conversations
    → Outcome (Conversations × Responses)
unfolding answer store
respond_all cm n [] generated prompts m = ok (m, [])
respond_all cm n ((k, c) ∷ active) [] prompts m = ok (m, [])
respond_all cm n ((k, c) ∷ active) (g ∷ generated) [] m = ok (m, [])
respond_all cm n ((k, c) ∷ active) ((sequence, (removed, _)) ∷ generated) (prompt ∷ prompts) m = do
  start ← checked_sub n removed
  response ← slice_from sequence start
  let c' = answer c (cm.model.decode response) prompt response
  last ← unwrap (get_last_response c')
  rest ← respond_all cm n active generated prompts (store k c' m)
  ok (rest.0, (k, last) ∷ rest.1)

pub pending_texts : List Conversation → Outcome (List String)
unfolding traverse
pending_texts active = traverse (λ c. unwrap c.new_user_input) active

pub past_ids : List Conversation → List (List ℕ)
past_ids active = map (λ (c : Conversation). flatten c.history) active

unfoldable pub generate_responses :
    ConversationModel → ConversationManager → Outcome (ConversationManager × Responses)
unfolding pending_texts past_ids respond_all pad_token
generate_responses cm manager =
    let active = get_active_conversations manager in
    if is_empty active.0 then ok (manager, []) else do
      texts ← pending_texts active.1
      prompts ← encode_prompts cm.max_allowed_context_length cm.eos_token_id cm.model.tokenize texts
      batch ←
          concat_input_history cm.max_allowed_context_length (pad_token cm) prompts
            (past_ids active.1)
      let output = cm.model.generate_from_ids_and_past batch.rows batch.mask
      generated ← clean_padding_indices (pad_token cm) output
      result ←
          respond_all cm batch.width (actives manager.conversations) generated prompts
            manager.conversations
      ok (record { conversations = result.0 }, result.1)
