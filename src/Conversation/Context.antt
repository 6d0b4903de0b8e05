-- ===== src/Conversation/Context.antt =====
-- pipelines/conversation.rs: what `ConversationModel` sends to the generator and reads back from it:
-- `encode_prompts`, `get_truncated_input_index`, `concat_input_history`, `clean_padding_indices`.
-- A batch of token ids is a list of rows; token ids are numbers.
pub mod Truncation
pub mod Rows
pub mod Padding
use mathlib.Core.List.{reverse}
use rust_bert.Prelude.{
  ℕ, ◌+◌, ◌-◌, String, Bool, not, ◌&&◌, Option, none, some, List, [], ◌∷◌, ◌++◌, map, ltb, ◌==◌,
  if◌then◌else◌, length, take, drop, replicate, is_empty, select, maximum, position, enumerate_from,
}
use rust_bert.Prelude.Int.{ℤ, as_usize}
use rust_bert.Prelude.Outcome.{
  Outcome, ok, panics, ◌>>=◌, unwrap, slice_from, checked_sub, traverse,
}

-- The positions after a padding token that is not the last and stands beyond `start_length -
-- max_length`, which the source compares as `isize`.
is_break : ℕ → ℕ → ℕ → ℕ × ℕ → Bool
is_break start_length max_length pad (i, e) =
    e == pad && not (i == start_length - 1) && ltb start_length (max_length + i)

eos_indices : List ℕ → ℕ → ℕ → List ℕ
unfolding is_break
eos_indices history max_length pad =
    map (λ (e : ℕ × ℕ). e.0 + 1)
      (select (is_break (length history) max_length pad) (enumerate_from 0 history))

abbrev first_or : List ℕ → ℕ → ℕ
first_or [] d = d
first_or (i ∷ _) d = i

unfoldable pub get_truncated_input_index : List ℕ → ℕ → ℕ → Outcome ℕ
unfolding eos_indices
get_truncated_input_index history max_length pad = do
  otherwise ← checked_sub (length history) max_length
  ok (first_or (eos_indices history max_length pad) otherwise)

-- The closure mapped over the concatenated inputs.
unfoldable pub truncate_input : Option ℤ → ℕ → List ℕ → Outcome (List ℕ)
unfolding get_truncated_input_index as_usize
truncate_input none pad input = ok input
truncate_input (some bound) pad input =
    if ltb (as_usize bound) (length input)
    then (do start ← get_truncated_input_index input (as_usize bound) pad; slice_from input start)
    else ok input

unfoldable pub concat_pairs : List (List ℕ) → List (List ℕ) → List (List ℕ)
concat_pairs [] history = []
concat_pairs (i ∷ inputs) [] = []
concat_pairs (i ∷ inputs) (h ∷ history) = (h ++ i) ∷ concat_pairs inputs history

abbrev pub pad_left : ℕ → ℕ → List ℕ → List ℕ
pad_left width pad input = replicate (width - length input) pad ++ input

-- The row of the attention mask: 0 over the padding, 1 over the input.
abbrev pub mask_row : ℕ → List ℕ → List ℕ
mask_row width input = replicate (width - length input) 0 ++ replicate (length input) 1

-- The padded rows, the rows of the mask, and the common width.
pub record Batch : Type 0 where
  pub rows : List (List ℕ)
  pub mask : List (List ℕ)
  pub width : ℕ

pad_batch : List (List ℕ) → ℕ → Outcome Batch
pad_batch inputs pad =
    let width = maximum (map length inputs) in
    if is_empty inputs
    then panics
    else ok (record {
      rows = map (pad_left width pad) inputs;
      mask = map (mask_row width) inputs;
      width = width;
    })

unfoldable pub concat_input_history : Option ℤ → ℕ → List (List ℕ) → List (List ℕ) → Outcome Batch
unfolding truncate_input concat_pairs pad_batch traverse
concat_input_history bound pad inputs history =
    if length inputs == length history
    then (do
      truncated ← traverse (truncate_input bound pad) (concat_pairs inputs history)
      pad_batch truncated pad)
    else panics

-- One sequence of `clean_padding_indices`: the cleaned sequence, and the padding found at its start
-- and at its end. One padding token is left at the end.
unfoldable pub clean_sequence : ℕ → List ℕ → Outcome (List ℕ × (ℕ × ℕ))
clean_sequence pad sequence = do
  index_end ← unwrap (position (λ r. not (r == pad)) (reverse sequence))
  index_start ← unwrap (position (λ r. not (r == pad)) sequence)
  let kept = if ltb 0 index_end then take (length sequence - index_end + 1) sequence else sequence
  ok (drop index_start kept, (index_start, index_end))

unfoldable pub clean_padding_indices : ℕ → List (List ℕ) → Outcome (List (List ℕ × (ℕ × ℕ)))
unfolding clean_sequence traverse
clean_padding_indices pad output = traverse (clean_sequence pad) output

-- `tokens` are the ids of one text; `truncate` keeps at most the given number.
unfoldable pub encode_prompt : Option ℤ → ℕ → List ℕ → Outcome (List ℕ)
unfolding as_usize
encode_prompt none eos tokens = ok (tokens ++ eos ∷ [])
encode_prompt (some bound) eos tokens = do
  keep ← checked_sub (as_usize bound) 1
  ok (take keep tokens ++ eos ∷ [])

unfoldable pub encode_prompts :
    Option ℤ → ℕ → (String → List ℕ) → List String → Outcome (List (List ℕ))
unfolding encode_prompt traverse
encode_prompts bound eos tokenize texts = traverse (λ t. encode_prompt bound eos (tokenize t)) texts
