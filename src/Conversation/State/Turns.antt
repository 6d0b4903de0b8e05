-- ===== src/Conversation/State/Turns.antt =====
-- On the methods of `Conversation`: the turns, that is inputs, responses and the pending input.
use mathlib.Core.List.{append_assoc, append-nil}
use rust_bert.Prelude.{
  ℕ, ◌/◌, ◌≡◌, refl, ◌∙◌, String, Option, none, some, List, [], ◌∷◌, ◌++◌, arith, length,
  length-append, but_last, last?-append, ◌==◌, if◌then◌else◌, Option-cases, inl, inr,
}
use rust_bert.Conversation.State.{
  Conversation, mark_processed, get_last_input, get_last_response, append, append_rounds,
  load_from_history,
}

-- The rounds of a dialogue are a user's text and its answer, by turns.
abbrev pub inputs_of : List String → List String
inputs_of [] = []
inputs_of (x ∷ []) = []
inputs_of (x ∷ y ∷ r) = x ∷ inputs_of r

abbrev pub responses_of : List String → List String
responses_of [] = []
responses_of (x ∷ []) = []
responses_of (x ∷ y ∷ r) = y ∷ responses_of r

abbrev pub pending_of : List String → Option String
pending_of [] = none
pending_of (x ∷ []) = some x
pending_of (x ∷ y ∷ r) = pending_of r

-- Every past input has its response.
abbrev pub IsAnswered : Conversation → Type 0
IsAnswered c = length c.past_user_inputs ≡ length c.generated_responses

abbrev with_turn : Conversation → String → String → List ℕ → List ℕ → Conversation
with_turn c x y i j = record {
  past_user_inputs = c.past_user_inputs ++ x ∷ [];
  generated_responses = c.generated_responses ++ y ∷ [];
  new_user_input = none;
  history = (c.history ++ i ∷ []) ++ j ∷ [];
}

append-idle :
    (c : Conversation) (x : String) (i : List ℕ)
    → c.new_user_input ≡ none
    → append c x i ≡ record c { new_user_input = some x; history = c.history ++ i ∷ [] }
unfolding append
append-idle c x i e = ground arith

append-pending :
    (c : Conversation) (x y : String) (j : List ℕ)
    → c.new_user_input ≡ some x
    → IsAnswered c
    → append c y j ≡ record {
      past_user_inputs = c.past_user_inputs ++ x ∷ [];
      generated_responses = c.generated_responses ++ y ∷ [];
      new_user_input = none;
      history = c.history ++ j ∷ [];
    }
unfolding append
append-pending c x y j e h = ground (arith, length-append c.past_user_inputs (x ∷ []))

append_twice :
    (c : Conversation) (x y : String) (i j : List ℕ)
    → c.new_user_input ≡ none
    → IsAnswered c
    → append (append c x i) y j ≡ with_turn c x y i j
append_twice c x y i j e h = rw (append-idle c x i e) (append-pending _ x y j refl h)

append_rounds_lem :
    (c : Conversation) (texts : List String) (ids : List (List ℕ))
    → c.new_user_input ≡ none
    → IsAnswered c
    → length texts ≡ length ids
    → append_rounds c texts ids ≡ record {
      past_user_inputs = c.past_user_inputs ++ inputs_of texts;
      generated_responses = c.generated_responses ++ responses_of texts;
      new_user_input = pending_of texts;
      history = c.history ++ ids;
    }
unfolding append_rounds
append_rounds_lem c [] [] e h n = simp append-nil (ground arith)
append_rounds_lem c [] (i ∷ ids) e h n = absurd (omega arith)
append_rounds_lem c (x ∷ texts) [] e h n = absurd (omega arith)
append_rounds_lem c (x ∷ []) (i ∷ []) e h n = simp append-nil (append-idle c x i e)
append_rounds_lem c (x ∷ []) (i ∷ j ∷ ids) e h n = absurd (omega arith)
append_rounds_lem c (x ∷ y ∷ texts) (i ∷ []) e h n = absurd (omega arith)
append_rounds_lem c (x ∷ y ∷ texts) (i ∷ j ∷ ids) e h n = rw (append_twice c x y i j e h) (
    append_rounds_lem (with_turn c x y i j) texts ids refl
      (omega (
        arith,
        length-append c.past_user_inputs (x ∷ []),
        length-append c.generated_responses (y ∷ []),
      ))
      (omega arith)
    ∙ simp append_assoc)

-- Loading a dialogue into an idle conversation whose inputs are all answered: the texts are taken by
-- turns as inputs and responses, a last text without an answer is pending, and the history gains
-- the ids of every round, less the last where the number of texts halves to one.
pub load_from_history-turns :
    (c : Conversation) (texts : List String) (ids : List (List ℕ))
    → c.new_user_input ≡ none
    → IsAnswered c
    → length texts ≡ length ids
    → load_from_history c texts ids ≡ record {
      past_user_inputs = c.past_user_inputs ++ inputs_of texts;
      generated_responses = c.generated_responses ++ responses_of texts;
      new_user_input = pending_of texts;
      history = if length texts / 2 == 1 then but_last (c.history ++ ids) else c.history ++ ids;
    }
unfolding load_from_history
load_from_history-turns c texts ids e h n = rw (append_rounds_lem c texts ids e h n) (ground arith)

-- Where every past input is answered, `append` keeps it so, and records the ids.
pub append-IsAnswered :
    (c : Conversation) (text : String) (ids : List ℕ)
    → IsAnswered c
    → IsAnswered (append c text ids) × ((append c text ids).history ≡ c.history ++ ids ∷ [])
unfolding append
append-IsAnswered c text ids h = elim (Option-cases c.new_user_input) [
  | inl e ↦ ground arith
  | inr (x, e) ↦ ground (
    arith,
    length-append c.past_user_inputs (x ∷ []),
    length-append c.generated_responses (text ∷ []),
  )
]

-- Processing moves the pending input to the end of the past ones: it stays the last input.
pub get_last_input-mark_processed :
    (c : Conversation)
    → (get_last_input (mark_processed c) ≡ get_last_input c)
      × ((mark_processed c).new_user_input ≡ none)
      × (get_last_response (mark_processed c) ≡ get_last_response c)
unfolding get_last_input mark_processed get_last_response
get_last_input-mark_processed c = elim (Option-cases c.new_user_input) [
  | inl e ↦ ground arith
  | inr (x, e) ↦ ground (arith, last?-append c.past_user_inputs x)
]
