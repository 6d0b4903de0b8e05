-- ===== src/Conversation/Respond/Loop.antt =====
-- On the loop of `generate_responses` over the active conversations, and the map that it writes to.
use rust_bert.Prelude.{
  ℕ, String, ◌≡◌, refl, ap, inl, inr, false, Option, none, some, List, [], ◌∷◌, arith, ◌==◌,
  if◌then◌else◌, Bool-cases, is_some, map_option,
}
use rust_bert.Prelude.Outcome.{ok, unwrap, slice_from, checked_sub, >>=-eq-ok}
use rust_bert.Conversation.State.{Conversation, get_last_response}
use rust_bert.Conversation.Manager.{Conversations, actives, lookup, contains_key}
use rust_bert.Conversation.Manager.Keys.{Distinct}
use rust_bert.Conversation.Respond.{ConversationModel, Responses, answer, store, respond_all}

pub lookup-store :
    (k j : ℕ) (c : Conversation) (m : Conversations)
    → lookup j (store k c m) ≡ (if k == j then map_option (λ _. c) (lookup j m) else lookup j m)
unfolding lookup store
lookup-store k j c [] = ground arith
lookup-store k j c ((i, d) ∷ m) = ground (arith, lookup-store k j c m)

-- What is left of an entry among the active ones.
abbrev pub if_pending : Option Conversation → Option Conversation
if_pending none = none
if_pending (some c) = if is_some c.new_user_input then some c else none

pub lookup-actives :
    (m : Conversations) (j : ℕ) → Distinct m → lookup j (actives m) ≡ if_pending (lookup j m)
unfolding lookup actives contains_key
lookup-actives [] j d = refl
lookup-actives ((i, c) ∷ m) j d = ground (arith, lookup-actives m j d.1)

pub contains_key-lookup : (j : ℕ) (m : Conversations) → contains_key j m ≡ is_some (lookup j m)
unfolding contains_key
contains_key-lookup j m = refl

pub actives-Distinct : (m : Conversations) → Distinct m → Distinct (actives m)
unfolding actives
actives-Distinct [] d = tt
actives-Distinct ((i, c) ∷ m) d = elim (Bool-cases (is_some c.new_user_input)) [
  | inl e ↦ rw e (
    ground
        (arith, contains_key-lookup i m, contains_key-lookup i (actives m), lookup-actives m i d.1),
    actives-Distinct m d.1,
  )
  | inr e ↦ rw e (actives-Distinct m d.1)
]

-- The steps of one turn of the loop.
respond_step :
    (cm : ConversationModel) (n k : ℕ) (c : Conversation) (active : Conversations)
    (g : List ℕ × (ℕ × ℕ)) (generated : List (List ℕ × (ℕ × ℕ))) (p : List ℕ)
    (prompts : List (List ℕ)) (m : Conversations) (r : Conversations × Responses)
    → respond_all cm n ((k, c) ∷ active) (g ∷ generated) (p ∷ prompts) m ≡ ok r
    → (text : String) × (response : List ℕ) × (rest : Conversations × Responses) × (respond_all cm n
          active generated prompts
          (store k (answer c text p response) m)
        ≡ ok rest)
      × (rest.0 ≡ r.0)
unfolding respond_all
respond_step cm n k c active (sequence, (removed, _)) generated p prompts m r h =
    let (start, _, h₁) = >>=-eq-ok (checked_sub n removed) _ h in
    let (response, _, h₂) = >>=-eq-ok (slice_from sequence start) _ h₁ in
    let (last, _, h₃) =
      >>=-eq-ok (unwrap (get_last_response (answer c (cm.model.decode response) p response))) _
        h₂ in
    let (rest, e, h₄) = >>=-eq-ok (respond_all cm n active generated prompts _) _ h₃ in
    (cm.model.decode response, response, rest, e, ground arith)

-- A key that is not among the rest of the active ones keeps its conversation.
pub respond_untouched :
    (cm : ConversationModel) (n : ℕ) (active : Conversations) (generated : List (List ℕ × (ℕ × ℕ)))
    (prompts : List (List ℕ)) (m : Conversations) (r : Conversations × Responses) (j : ℕ)
    → respond_all cm n active generated prompts m ≡ ok r
    → contains_key j active ≡ false
    → lookup j r.0 ≡ lookup j m
unfolding respond_all contains_key lookup
respond_untouched cm n [] generated prompts m r j h d = ground arith
respond_untouched cm n ((k, c) ∷ active) [] prompts m r j h d = ground arith
respond_untouched cm n ((k, c) ∷ active) (g ∷ generated) [] m r j h d = ground arith
respond_untouched cm n ((k, c) ∷ active) (g ∷ generated) (p ∷ prompts) m r j h d =
    let (text, response, rest, e, e') = respond_step cm n k c active g generated p prompts m r h in
    ground (
      arith,
      respond_untouched cm n active generated prompts (store k (answer c text p response) m) rest j
          e (ground arith),
      lookup-store k j (answer c text p response) m,
      ap (λ (t : Conversations). lookup j t) e',
    )

-- The active ones stand in the map.
abbrev pub StandIn : Conversations → Conversations → Type 0
StandIn active m = (j : ℕ) (c : Conversation) → lookup j active ≡ some c → lookup j m ≡ some c

pub StandIn-rest :
    (k : ℕ) (c c' : Conversation) (active m : Conversations)
    → contains_key k active ≡ false
    → StandIn ((k, c) ∷ active) m
    → StandIn active (store k c' m)
unfolding lookup contains_key
StandIn-rest k c c' active m d s j e h = ground (arith, lookup-store k j c' m, s j e)
