-- ===== src/Conversation/State.antt =====
-- pipelines/conversation.rs: the struct `Conversation` and its methods.
pub mod Turns
use rust_bert.Prelude.{
  ℕ, suc, ◌/◌, String, Option, none, some, Bool, List, [], ◌∷◌, ◌++◌, leb, ◌==◌, is_some, length,
  last?, but_last, if◌then◌else◌,
}
use rust_bert.Prelude.Outcome.{Outcome, ok, err, value_error}

pub record Conversation : Type 0 where
  pub past_user_inputs : List String
  pub generated_responses : List String
  pub new_user_input : Option String
  pub history : List (List ℕ)

unfoldable pub new : String → Conversation
new text = record {
  past_user_inputs = [];
  generated_responses = [];
  new_user_input = some text;
  history = [];
}

unfoldable pub new_empty : Conversation
new_empty = record {
  past_user_inputs = [];
  generated_responses = [];
  new_user_input = none;
  history = [];
}

-- The new state, and `Ok(())` or the error.
unfoldable pub add_user_input : Conversation → String → Conversation × Outcome (Unit {0})
add_user_input c text =
    if is_some c.new_user_input
    then (c, err (value_error "User input already provided for this conversation"))
    else (record c { new_user_input = some text }, ok tt)

unfoldable pub add_user_input_with_overwrite : Conversation → String → Conversation × Option String
add_user_input_with_overwrite c text = (record c { new_user_input = some text }, c.new_user_input)

unfoldable pub contains_new_input : Conversation → Bool
contains_new_input c = is_some c.new_user_input

unfoldable pub mark_processed : Conversation → Conversation
mark_processed c = elim c.new_user_input [
  | none ↦ c
  | some text ↦ record c {
    past_user_inputs = c.past_user_inputs ++ text ∷ [];
    new_user_input = none;
  }
]

unfoldable pub get_last_input : Conversation → Option String
get_last_input c = elim c.new_user_input [ none ↦ last? c.past_user_inputs | some text ↦ some text ]

unfoldable pub get_last_response : Conversation → Option String
get_last_response c = last? c.generated_responses

-- The branch of `append` after `mark_processed`.
append_marked : Conversation → String → Conversation
unfolding add_user_input
append_marked c text =
    if leb (length c.generated_responses) (length c.past_user_inputs)
    then record c { generated_responses = c.generated_responses ++ text ∷ [] }
    else (add_user_input c text).0

append_text : Conversation → String → Conversation
unfolding mark_processed append_marked add_user_input
append_text c text = elim c.new_user_input [
  | none ↦ (add_user_input c text).0
  | some _ ↦ append_marked (mark_processed c) text
]

unfoldable pub append : Conversation → String → List ℕ → Conversation
unfolding append_text
append c text ids = let c' = append_text c text in record c' { history = c'.history ++ ids ∷ [] }

-- The loop over the zipped rounds.
append_rounds : Conversation → List String → List (List ℕ) → Conversation
unfolding append
append_rounds c [] ids = c
append_rounds c (text ∷ texts) [] = c
append_rounds c (text ∷ texts) (i ∷ ids) = append_rounds (append c text i) texts ids

unfoldable pub load_from_history : Conversation → List String → List (List ℕ) → Conversation
unfolding append_rounds
load_from_history c texts ids =
    let c' = append_rounds c texts ids in
    if length texts / 2 == 1 then record c' { history = but_last c'.history } else c'
