-- ===== src/Conversation/Tests.antt =====
-- Runs of the dialogue pipeline, and its theorems at concrete inputs.
use mathlib.Core.List.{flatten}
use rust_bert.Prelude.{
  ℕ, ◌≤◌, String, ◌≡◌, refl, none, some, List, [], ◌∷◌, ◌++◌, map, arith, ◌==◌, if◌then◌else◌,
}
use rust_bert.Prelude.Int.{pos, as_usize}
use rust_bert.Prelude.Outcome.{ok}
use rust_bert.Conversation.State.{
  Conversation, new_empty, load_from_history, append, mark_processed, get_last_input,
  get_last_response,
}
use rust_bert.Conversation.State.Turns.{
  IsAnswered, load_from_history-turns, append-IsAnswered, get_last_input-mark_processed,
}
use rust_bert.Conversation.Manager.{
  ConversationManager, add, get, lookup, contains_key, get_active_conversations,
}
use rust_bert.Conversation.Manager.Keys.{Distinct, add_total}
use rust_bert.Conversation.Context.{
  Batch, get_truncated_input_index, concat_input_history, clean_sequence, clean_padding_indices,
  encode_prompts,
}
use rust_bert.Conversation.Context.Truncation.{IsStart, get_truncated_input_index_lem}
use rust_bert.Conversation.Context.Rows.{AreRows, concat_input_history_lem}
use rust_bert.Conversation.Context.Padding.{clean_sequence_lem}
use rust_bert.Conversation.Respond.{DialogueModel, ConversationModel, generate_responses}
use rust_bert.Conversation.Respond.{pad_token}
use rust_bert.Conversation.Respond.Generated.{AreExtended}
use rust_bert.Conversation.Respond.Total.{IsRound, generate_responses_lem}

load_from_history-turns_example :
    load_from_history new_empty ("hi" ∷ "hello" ∷ "how?" ∷ []) ((1 ∷ []) ∷ (2 ∷ []) ∷ (3 ∷ []) ∷ [])
    ≡ record {
      past_user_inputs = "hi" ∷ [];
      generated_responses = "hello" ∷ [];
      new_user_input = some "how?";
      history = (1 ∷ []) ∷ (2 ∷ []) ∷ [];
    }
unfolding new_empty
load_from_history-turns_example =
    load_from_history-turns new_empty ("hi" ∷ "hello" ∷ "how?" ∷ [])
      ((1 ∷ []) ∷ (2 ∷ []) ∷ (3 ∷ []) ∷ []) refl refl refl

abbrev waiting : Conversation
waiting = record {
  past_user_inputs = [];
  generated_responses = [];
  new_user_input = some "hi";
  history = [];
}

append-IsAnswered_example :
    IsAnswered (append waiting "hello" (2 ∷ []))
    × ((append waiting "hello" (2 ∷ [])).history ≡ (2 ∷ []) ∷ [])
append-IsAnswered_example = append-IsAnswered waiting "hello" (2 ∷ []) refl

get_last_input-mark_processed_example :
    (get_last_input (mark_processed waiting) ≡ get_last_input waiting)
    × ((mark_processed waiting).new_user_input ≡ none)
    × (get_last_response (mark_processed waiting) ≡ get_last_response waiting)
get_last_input-mark_processed_example = get_last_input-mark_processed waiting

abbrev manager : ConversationManager
manager = record { conversations = (4, waiting) ∷ [] }

manager-Distinct : Distinct manager.conversations
unfolding lookup contains_key
manager-Distinct = (refl, tt)

add_total_example :
    (m' : ConversationManager) × (k : ℕ) × (add manager waiting (4 ∷ 6 ∷ []) ≡ some (m', k))
    × (get manager k ≡ none)
    × ((j : ℕ) → get m' j ≡ (if k == j then some waiting else get manager j))
    × Distinct m'.conversations
add_total_example =
    add_total manager waiting (4 ∷ 6 ∷ []) manager-Distinct (refl, (refl, tt)) (omega arith)

get_truncated_input_index_lem_example :
    (s : ℕ) × (get_truncated_input_index (1 ∷ 0 ∷ 2 ∷ 0 ∷ 3 ∷ 0 ∷ []) 4 0 ≡ ok s)
    × IsStart (1 ∷ 0 ∷ 2 ∷ 0 ∷ 3 ∷ 0 ∷ []) 4 0 s
get_truncated_input_index_lem_example =
    get_truncated_input_index_lem (1 ∷ 0 ∷ 2 ∷ 0 ∷ 3 ∷ 0 ∷ []) 4 0 (omega arith)

concat_input_history_lem_example :
    (batch : Batch) × (concat_input_history
        (some (pos 3))
        0
        ((5 ∷ 0 ∷ []) ∷ (6 ∷ 0 ∷ []) ∷ [])
        ((1 ∷ 2 ∷ []) ∷ [] ∷ [])
      ≡ ok batch)
    × (batch.width ≤ 3)
    × AreRows 3 batch.width 0
        ((5 ∷ 0 ∷ []) ∷ (6 ∷ 0 ∷ []) ∷ [])
        ((1 ∷ 2 ∷ []) ∷ [] ∷ [])
        batch.rows
        batch.mask
unfolding as_usize
concat_input_history_lem_example =
    concat_input_history_lem (pos 3) 0 ((5 ∷ 0 ∷ []) ∷ (6 ∷ 0 ∷ []) ∷ []) ((1 ∷ 2 ∷ []) ∷ [] ∷ [])
      refl (omega arith)

clean_sequence_lem_example :
    clean_sequence 0 (0 ∷ 0 ∷ 7 ∷ 8 ∷ 0 ∷ 0 ∷ []) ≡ ok (7 ∷ 8 ∷ 0 ∷ [], (2, 2))
clean_sequence_lem_example =
    clean_sequence_lem 0 2 2 7 8 (8 ∷ []) (7 ∷ []) (omega arith) (omega arith) refl

-- A model that answers every row with the tokens 7 and 9.
abbrev echo : DialogueModel
echo = record {
  tokenize = λ t. 5 ∷ [];
  decode = λ ids. "fine";
  pad_id = none;
  eos_ids = some (9 ∷ []);
  generate_from_ids_and_past = λ rows mask. map (λ (r : List ℕ). r ++ 7 ∷ 9 ∷ []) rows;
}

abbrev dialogue : ConversationModel
dialogue = record { model = echo; eos_token_id = 9; max_allowed_context_length = some (pos 100) }

abbrev answered : ConversationManager
answered = record {
  conversations =
      (
        4,
        record {
          past_user_inputs = "hi" ∷ [];
          generated_responses = "fine" ∷ [];
          new_user_input = none;
          history = (5 ∷ 9 ∷ []) ∷ (7 ∷ 9 ∷ []) ∷ [];
        },
      )
      ∷ [];
}

round_of_one : generate_responses dialogue manager ≡ ok (answered, (4, "fine") ∷ [])
unfolding generate_responses get_active_conversations encode_prompts concat_input_history
    clean_padding_indices mathlib.Core.List.flatten get_last_response mark_processed
round_of_one = refl

echo-AreExtended :
    (rows : List (List ℕ)) → AreExtended 9 rows (map (λ (r : List ℕ). r ++ 7 ∷ 9 ∷ []) rows)
echo-AreExtended [] = tt
echo-AreExtended (r ∷ rows) =
    ((7, 9 ∷ [], (λ e. absurd (omega (arith, e))), refl), echo-AreExtended rows)

generate_responses_lem_example :
    (manager' : ConversationManager) × (out : List (ℕ × String)) × (generate_responses dialogue
        manager
      ≡ ok (manager', out))
    × IsRound dialogue (pos 100) manager manager' out
    × ((j : ℕ) (c : Conversation)
        → get manager j ≡ some c
        → c.new_user_input ≡ none
        → get manager' j ≡ some c)
unfolding as_usize pad_token
generate_responses_lem_example =
    generate_responses_lem dialogue (pos 100) manager refl (omega arith)
      (λ rows mask. echo-AreExtended rows) manager-Distinct
