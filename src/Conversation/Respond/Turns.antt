-- ===== src/Conversation/Respond/Turns.antt =====
-- On `generate_responses`: the turns that the loop completes, conversation by conversation.
use rust_bert.Prelude.{
  ℕ, ◌-◌, String, ◌≡◌, refl, ap, ◌∙◌, true, Option, none, some, List, [], ◌∷◌, ◌++◌, arith, ◌==◌,
  ==_iff, Option-cases, map_option, length, take, drop, last?-append,
}
use rust_bert.Prelude.Outcome.{ok, slice_from, slice_from-ok, checked_sub}
use rust_bert.Conversation.State.{Conversation, get_last_response, mark_processed}
use rust_bert.Conversation.Manager.{Conversations, lookup}
use rust_bert.Conversation.Manager.Keys.{Distinct}
use rust_bert.Conversation.Respond.{ConversationModel, Responses, answer, store, respond_all}
use rust_bert.Conversation.Respond.Generated.{IsResponse, AreCleaned}
use rust_bert.Conversation.Respond.Loop.{lookup-store, respond_untouched, StandIn, StandIn-rest}

-- The tokens of the pending input, as many as the bound leaves room for, and the end of sequence.
abbrev pub IsPrompt : ConversationModel → ℕ → Conversation → String → List ℕ → Type 0
IsPrompt cm b c input prompt =
    (c.new_user_input ≡ some input)
    × (prompt ≡ take (b - 1) (cm.model.tokenize input) ++ cm.eos_token_id ∷ [])

abbrev pub ArePrompts : ConversationModel → ℕ → Conversations → List (List ℕ) → Type 0
ArePrompts cm b [] [] = Unit
ArePrompts cm b ((k, c) ∷ active) (p ∷ prompts) =
    ((input : String) × IsPrompt cm b c input p) × ArePrompts cm b active prompts
ArePrompts cm b _ _ = ⊥

-- The turn of the conversation `c` of the key `k`, from its prompt, its row of the batch, the sequence that was
-- generated from the row, and what is returned for it; `after` is the map afterwards. The pending input is the
-- last of the past ones, the decoded response is the last of the responses and is returned, and the ids of
-- the prompt and of the response end the history.
abbrev pub IsTurn :
    ConversationModel
    → ℕ
    → ℕ
    → (ℕ → Option Conversation)
    → ℕ
    → Conversation
    → List ℕ
    → List ℕ
    → List ℕ
    → ℕ × String
    → Type 0
IsTurn cm b pad after k c prompt row sequence returned =
    (input : String) × (response : List ℕ) × IsPrompt cm b c input prompt
    × IsResponse pad row sequence response
    × (returned ≡ (k, cm.model.decode response))
    × (after k
        ≡ some (record {
          past_user_inputs = c.past_user_inputs ++ input ∷ [];
          generated_responses = c.generated_responses ++ cm.model.decode response ∷ [];
          new_user_input = none;
          history = (c.history ++ prompt ∷ []) ++ response ∷ [];
        }))

abbrev pub AreTurns :
    ConversationModel
    → ℕ
    → ℕ
    → (ℕ → Option Conversation)
    → Conversations
    → List (List ℕ)
    → List (List ℕ)
    → List (List ℕ)
    → Responses
    → Type 0
AreTurns cm b pad after [] [] [] [] [] = Unit
AreTurns cm b pad after ((k, c) ∷ active) (p ∷ prompts) (r ∷ rows) (s ∷ output) (o ∷ out) =
    IsTurn cm b pad after k c p r s o × AreTurns cm b pad after active prompts rows output out
AreTurns cm b pad after _ _ _ _ _ = ⊥

last_answer :
    (c : Conversation) (text : String) (prompt response : List ℕ)
    → get_last_response (answer c text prompt response) ≡ some text
unfolding get_last_response answer mark_processed
last_answer c text prompt response =
    ground (arith, Option-cases c.new_user_input, last?-append c.generated_responses text)

answer_pending :
    (c : Conversation) (input text : String) (prompt response : List ℕ)
    → c.new_user_input ≡ some input
    → answer c text prompt response ≡ record {
      past_user_inputs = c.past_user_inputs ++ input ∷ [];
      generated_responses = c.generated_responses ++ text ∷ [];
      new_user_input = none;
      history = (c.history ++ prompt ∷ []) ++ response ∷ [];
    }
unfolding answer mark_processed
answer_pending c input text prompt response e = ground arith

lookup_stored :
    (k : ℕ) (c c' : Conversation) (active m : Conversations)
    → StandIn ((k, c) ∷ active) m
    → lookup k (store k c' m) ≡ some c'
unfolding lookup
lookup_stored k c c' active m s =
    let same : (k == k) ≡ true = (==_iff k k).1 refl in
    lookup-store k k c' m ∙ rw same (ap (map_option (λ _. c')) (s k c (rw same)))

module _ (cm : ConversationModel) (b n pad : ℕ) where
  -- The loop returns, and completes a turn for each of the active conversations.
  pub respond_turns :
      (active : Conversations) (prompts rows output : List (List ℕ))
      (generated : List (List ℕ × (ℕ × ℕ))) (m : Conversations)
      → Distinct active
      → StandIn active m
      → ArePrompts cm b active prompts
      → AreCleaned n pad rows output generated
      → length active ≡ length rows
      → (r : Conversations × Responses) × (respond_all cm n active generated prompts m ≡ ok r)
        × AreTurns cm b pad (λ j. lookup j r.0) active prompts rows output r.1
  unfolding respond_all
  respond_turns [] [] [] [] [] m d s p g l = ((m, []), refl, tt)
  respond_turns ((k, c) ∷ active) (prompt ∷ prompts) (row ∷ rows) (sequence ∷ output)
        ((kept, (removed, q)) ∷ generated) m d s p g l =
      let response = drop (n - removed) kept in
      let text = cm.model.decode response in
      let c' = answer c text prompt response in
      let (r, run, turns) =
        respond_turns active prompts rows output generated (store k c' m) d.1
          (StandIn-rest k c c' active m d.0 s) p.1 g.1 (omega (arith, l)) in
      let start : checked_sub n removed ≡ ok (n - removed) = ground (arith, g.0.0) in
      let cut : slice_from kept (n - removed) ≡ ok response =
        slice_from-ok kept (n - removed) g.0.1 in
      let after =
        respond_untouched cm n active generated prompts (store k c' m) r k run d.0
        ∙ lookup_stored k c c' active m s
        ∙ ap some (answer_pending c p.0.0 text prompt response p.0.1.0) in
      (
        (r.0, (k, text) ∷ r.1),
        rw start (rw cut (rw (last_answer c text prompt response) (rw run))),
        ((p.0.0, response, p.0.1, g.0.2, refl, after), turns),
      )
  respond_turns [] [] [] [] (x ∷ generated) m d s p g l = elim g [ ]
  respond_turns [] [] [] (x ∷ output) generated m d s p g l = elim g [ ]
  respond_turns [] [] (x ∷ rows) output generated m d s p g l = absurd (omega (arith, l))
  respond_turns [] (x ∷ prompts) rows output generated m d s p g l = elim p [ ]
  respond_turns (a ∷ active) [] rows output generated m d s p g l = elim p [ ]
  respond_turns (a ∷ active) (x ∷ prompts) [] output generated m d s p g l =
      absurd (omega (arith, l))
  respond_turns (a ∷ active) (x ∷ prompts) (y ∷ rows) [] generated m d s p g l = elim g [ ]
  respond_turns (a ∷ active) (x ∷ prompts) (y ∷ rows) (z ∷ output) [] m d s p g l = elim g [ ]
