-- ===== src/QuestionAnswering/Features.antt =====
-- pipelines/question_answering.rs: `QaFeature`, the windows of `generate_features`, the mask of `get_mask`
-- and the padding of `pad_features`. A window is its start and end; the tokenizer's special tokens are a
-- count; the offsets of a token are of any type.
pub mod Mask
pub mod Padded
pub mod Spans
use rust_bert.Prelude.{
  ℕ, zero, suc, ◌-◌, min, Option, none, List, [], ◌∷◌, ◌++◌, map, ◌==◌, if◌then◌else◌, unwrap_or,
  length, take, replicate, last?, maximum,
}
use rust_bert.Prelude.Outcome.{Outcome, ok, panics, ◌>>=◌, checked_sub}
use rust_bert.TokenClassification.Windows.{spans_loop}

pub record QaFeature (O : Type 0) : Type 0 where
  pub input_ids : List ℕ
  pub offsets : List (Option O)
  pub token_type_ids : List ℕ
  pub p_mask : List ℕ
  pub example_index : ℕ

-- `Vec::resize`
abbrev pub resize {ℓ} : {A : Type ℓ} → ℕ → A → List A → List A
resize n a xs = take n xs ++ replicate (n - length xs) a

-- `mask[i] = 1`
pub set_one : ℕ → List ℕ → Outcome (List ℕ)
set_one i [] = panics
set_one zero (m ∷ mask) = ok (1 ∷ mask)
set_one (suc i) (m ∷ mask) = do rest ← set_one i mask; ok (m ∷ rest)

pub set_ones : List ℕ → List ℕ → Outcome (List ℕ)
unfolding set_one
set_ones [] mask = ok mask
set_ones (i ∷ indices) mask = do mask' ← set_one i mask; set_ones indices mask'

-- The positions of the separator among the tokens, the first of which has the position `i`.
pub sep_indices : ℕ → ℕ → List ℕ → List ℕ
sep_indices sep i [] = []
sep_indices sep i (t ∷ ids) =
    let rest = sep_indices sep (suc i) ids in if t == sep then i ∷ rest else rest

unfoldable pub get_mask : ℕ → List ℕ → List ℕ → Outcome (List ℕ)
unfolding set_ones sep_indices
get_mask sep_idx token_ids segment_ids =
    set_ones (sep_indices sep_idx 0 token_ids) (map (λ v. 1 - min v 1) segment_ids)

-- The windows of a context of `total` tokens, behind a question of `query` tokens.
unfoldable pub context_spans : ℕ → ℕ → ℕ → ℕ → ℕ → ℕ → Outcome (Option (List (ℕ × ℕ)))
context_spans fuel max_seq_length added query doc_stride total = do
  room ← checked_sub max_seq_length added
  max_context_length ← checked_sub room query
  spans_loop fuel total max_context_length doc_stride 0 0

module _ {O : Type 0} (pad_idx : ℕ) where
  pub pad_feature : ℕ → QaFeature O → QaFeature O
  pad_feature max_len f = record f {
    offsets = resize max_len none f.offsets;
    p_mask = resize max_len 1 f.p_mask;
    input_ids = resize max_len pad_idx f.input_ids;
    token_type_ids = resize max_len (unwrap_or (last? f.token_type_ids) 0) f.token_type_ids;
  }

  pub attention_mask : ℕ → QaFeature O → List ℕ
  attention_mask max_len f = resize max_len 0 (replicate (length f.input_ids) 1)

  -- The padded features, and the attention masks.
  unfoldable pub pad_features : List (QaFeature O) → Outcome (List (QaFeature O) × List (List ℕ))
  unfolding pad_feature attention_mask
  pad_features [] = panics
  pad_features (f ∷ features) =
      let max_len = maximum (map (λ (g : QaFeature O). length g.input_ids) (f ∷ features)) in
      ok (map (pad_feature max_len) (f ∷ features), map (attention_mask max_len) (f ∷ features))
