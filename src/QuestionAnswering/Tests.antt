-- ===== src/QuestionAnswering/Tests.antt =====
-- Runs of question answering, and its theorems at concrete inputs.
use rust_bert.Prelude.{ℕ, ◌+◌, ◌-◌, ◌<◌, ◌≡◌, refl, true, none, some, List, [], ◌∷◌, arith, ◌==◌}
use rust_bert.Prelude.Outcome.{ok}
use rust_bert.QuestionAnswering.Features.{QaFeature, get_mask, context_spans, pad_features}
use rust_bert.QuestionAnswering.Features.Mask.{mask_of, get_mask_lem}
use rust_bert.QuestionAnswering.Features.Padded.{ArePadded, pad_features_lem}
use rust_bert.QuestionAnswering.Features.Spans.{context_spans_lem}
use rust_bert.QuestionAnswering.Answers.{seen, remove_duplicates}
use rust_bert.QuestionAnswering.Answers.Distinct.{IsEquivalence, AllApart, remove_duplicates_lem}
use rust_bert.TokenClassification.Windows.Cover.{Chain, inside}

get_mask_lem_example :
    get_mask 2 (5 ∷ 2 ∷ 6 ∷ 7 ∷ 2 ∷ []) (0 ∷ 0 ∷ 1 ∷ 1 ∷ 1 ∷ [])
    ≡ ok (mask_of 2 (5 ∷ 2 ∷ 6 ∷ 7 ∷ 2 ∷ []) (0 ∷ 0 ∷ 1 ∷ 1 ∷ 1 ∷ []))
get_mask_lem_example = get_mask_lem 2 (5 ∷ 2 ∷ 6 ∷ 7 ∷ 2 ∷ []) (0 ∷ 0 ∷ 1 ∷ 1 ∷ 1 ∷ []) refl

mask_run :
    get_mask 2 (5 ∷ 2 ∷ 6 ∷ 7 ∷ 2 ∷ []) (0 ∷ 0 ∷ 1 ∷ 1 ∷ 1 ∷ []) ≡ ok (1 ∷ 1 ∷ 0 ∷ 0 ∷ 1 ∷ [])
unfolding get_mask
mask_run = refl

abbrev short_feature : QaFeature ℕ
short_feature = record {
  input_ids = 5 ∷ [];
  offsets = some 3 ∷ [];
  token_type_ids = 1 ∷ [];
  p_mask = 0 ∷ [];
  example_index = 0;
}

abbrev long_feature : QaFeature ℕ
long_feature = record {
  input_ids = 5 ∷ 6 ∷ [];
  offsets = some 3 ∷ none ∷ [];
  token_type_ids = 0 ∷ 1 ∷ [];
  p_mask = 1 ∷ 0 ∷ [];
  example_index = 1;
}

pad_features_lem_example :
    (padded : List (QaFeature ℕ)) × (masks : List (List ℕ)) × (pad_features 9
        (short_feature ∷ long_feature ∷ [])
      ≡ ok (padded, masks))
    × ArePadded 9 2 (short_feature ∷ long_feature ∷ []) padded masks
pad_features_lem_example =
    pad_features_lem 9 short_feature (long_feature ∷ [])
      ((refl, refl, refl), ((refl, refl, refl), tt))

context_spans_lem_example :
    (l : List (ℕ × ℕ)) × (context_spans (20 + 1) 12 3 3 2 20 ≡ ok (some l))
    × Chain 20 (12 - 3 - 3) 2 0 l
    × ((p : ℕ) → p < 20 → inside p l ≡ true)
context_spans_lem_example = context_spans_lem 12 3 3 2 20 (omega arith) (omega arith) (omega arith)

-- With a stride of more than half the room the last tokens of the context are in no window.
context_cut_off : context_spans 11 6 1 1 3 10 ≡ ok (some ((0, 4) ∷ (1, 5) ∷ (2, 6) ∷ (3, 7) ∷ []))
unfolding context_spans rust_bert.TokenClassification.Windows.spans_loop
context_cut_off = refl

equality : IsEquivalence (λ a b. a == b)
equality = record {
  reflexive = λ x. ground arith;
  symmetric = λ x y. ground arith;
  transitive = λ x y z h k. ground (arith, h, k);
}

remove_duplicates_lem_example :
    AllApart (λ a b. a == b) equality (remove_duplicates (λ a b. a == b) (4 ∷ 5 ∷ 4 ∷ []))
    × ((x : ℕ)
        → seen (λ a b. a == b) (remove_duplicates (λ a b. a == b) (4 ∷ 5 ∷ 4 ∷ [])) x
          ≡ seen (λ a b. a == b) (4 ∷ 5 ∷ 4 ∷ []) x)
remove_duplicates_lem_example = remove_duplicates_lem (λ a b. a == b) equality (4 ∷ 5 ∷ 4 ∷ [])
