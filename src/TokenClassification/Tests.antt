-- ===== src/TokenClassification/Tests.antt =====
-- Runs of the token classification, and its theorems at concrete inputs. Scores are numbers.
use mathlib.Core.List.{flatten}
use rust_bert.Prelude.{
  ℕ, ◌+◌, ◌-◌, ◌*◌, ◌/◌, ◌<◌, max, String, ◌≡◌, refl, Bool, true, false, some, List, [], ◌∷◌, arith,
  leb, get_elem?,
}
use rust_bert.Prelude.Outcome.{ok, traverse}
use rust_bert.TokenClassification.Consolidation.{
  Token, Grading, mode, consolidate_sequence, consolidate_tokens,
}
use rust_bert.TokenClassification.Consolidation.Groups.{replaced, consolidate_sequence_lem}
use rust_bert.TokenClassification.Prediction.{InputFeature, Classifier, predict_loop}
use rust_bert.TokenClassification.Prediction.Batches.{predict_loop-AreForeign}
use rust_bert.TokenClassification.Windows.{generate_spans}
use rust_bert.TokenClassification.Windows.Cover.{Chain, inside, generate_spans_lem}

generate_spans_lem_example :
    (l : List (ℕ × ℕ)) × (generate_spans (11 + 1) 8 2 11 ≡ ok (some l))
    × Chain 11 (8 - 2) (8 / 4) 0 l
    × ((p : ℕ) → p < 11 → inside p l ≡ true)
generate_spans_lem_example = generate_spans_lem 8 2 11 (omega arith) (omega arith) (omega arith)

spans_of_eleven : generate_spans 12 8 2 11 ≡ ok (some ((0, 6) ∷ (4, 10) ∷ (8, 11) ∷ []))
unfolding generate_spans
spans_of_eleven = refl

-- All tokens of a sequence are of one word.
abbrev one_word : Grading ℕ (Unit {0})
one_word = record {
  one = 1;
  zero_f = 0;
  mul = λ a b. a * b;
  complement = λ a. 1 - a;
  max2 = λ a b. max a b;
  ord_leb = λ a b. leb a b;
  default_mask = tt;
  entries = λ counts. counts;
  groups = λ tokens. tokens ∷ [];
}

abbrev part_of : String → ℕ → ℕ → Token ℕ (Unit {0})
part_of text label_index begin = record {
  text = text;
  score = 1;
  label = "I-PER";
  label_index = label_index;
  sentence = 0;
  index = begin;
  word_index = 1;
  offset = some (begin, begin + 2);
  mask = tt;
}

abbrev two_parts : List (Token ℕ (Unit {0}))
two_parts = part_of "Am" 3 0 ∷ part_of "y" 3 2 ∷ []

consolidate_sequence_lem_example :
    (parts : List (List (Token ℕ (Unit {0})))) × (traverse (replaced one_word mode) (two_parts ∷ [])
      ≡ ok parts)
    × (consolidate_sequence one_word mode two_parts ≡ ok (flatten parts))
unfolding flatten
consolidate_sequence_lem_example =
    consolidate_sequence_lem one_word mode two_parts (λ counts h. h) refl

consolidate_run :
    consolidate_tokens one_word mode (two_parts ∷ [])
    ≡ ok ((record (part_of "Amy" 3 0) { offset = some (0, 4) } ∷ []) ∷ [])
unfolding consolidate_tokens
consolidate_run = refl

-- A classifier that gives every token the label 1.
abbrev one_label : Classifier ℕ Bool
one_label = record {
  forward = λ ids masks types. record { label_at = λ i p. 1; score_at = λ i p l. 9 };
  is_special = λ m. m;
  is_continuation = λ m. false;
  decode = λ id. "?";
  collect = λ chars. "w";
  label_mapping = λ i. some "O";
  pad_id = some 0;
}

abbrev one_token : ℕ → InputFeature Bool
one_token example_index = record {
  input_ids = 5 ∷ [];
  offsets = some (0, 1) ∷ [];
  mask = false ∷ [];
  token_type_ids = 0 ∷ [];
  reference_feature = true ∷ [];
  example_index = example_index;
}

abbrev one_answer : ℕ → Token ℕ Bool
one_answer sentence = record {
  text = "w";
  score = 9;
  label = "O";
  label_index = 1;
  sentence = sentence;
  index = 0;
  word_index = 1;
  offset = some (0, 1);
  mask = false;
}

-- Two inputs in batches of one: both answers go to the first.
two_batches :
    predict_loop one_label 3 1 false
      ((65 ∷ []) ∷ (66 ∷ []) ∷ [])
      0
      (one_token 0 ∷ one_token 1 ∷ [])
      ([] ∷ [] ∷ [])
    ≡ ok (some ((one_answer 0 ∷ one_answer 0 ∷ []) ∷ [] ∷ []))
unfolding predict_loop
two_batches = refl

predict_loop-AreForeign_example :
    (tokens : List (List (Token ℕ Bool))) × (predict_loop one_label 3 1 false
        ((65 ∷ []) ∷ (66 ∷ []) ∷ [])
        0
        (one_token 0 ∷ one_token 1 ∷ [])
        ([] ∷ [] ∷ [])
      ≡ ok (some tokens))
    × (get_elem? tokens 1 ≡ some [])
predict_loop-AreForeign_example =
    predict_loop-AreForeign one_label false ((65 ∷ []) ∷ (66 ∷ []) ∷ []) 1 3 1 0 1 0
      (one_token 0 ∷ one_token 1 ∷ []) ([] ∷ [] ∷ []) (λ l. ("O", refl)) refl (omega arith)
      (omega arith)
      (
        (refl, refl, refl, refl, omega arith, 65 ∷ [], refl, (omega arith, tt)),
        ((refl, refl, refl, refl, omega arith, 66 ∷ [], refl, (omega arith, tt)), tt),
      )
      refl (refl, tt)
