-- ===== src/TokenClassification/Windows.antt =====
-- pipelines/token_classification.rs: how `generate_features` cuts a long input into overlapping spans, and
-- `get_reference_feature_flag`, which marks the tokens that a span answers for. A span is its start and
-- end; of the tokens' masks it matters only whether they are `Mask::Special`.
pub mod Cover
use mathlib.Core.List.{reverse}
use rust_bert.Prelude.{
  ℕ, zero, suc, ◌+◌, ◌*◌, ◌/◌, min, Bool, true, false, Option, none, some, List, [], ◌∷◌, ltb, leb,
  ◌==◌, if◌then◌else◌, map_option, length, replicate,
}
use rust_bert.Prelude.Outcome.{Outcome, ok, panics, ◌>>=◌, checked_sub}

-- `max_content_length` and `doc_stride`, from `max_length` and the number of special tokens.
pub content_length : ℕ → ℕ → Outcome ℕ
content_length max_length added = checked_sub max_length added

pub stride_of : ℕ → ℕ
stride_of max_length = max_length / 4

-- The `while` loop, with fuel (`none`: it ran out): `count` spans are there, the next begins at `start`.
unfoldable pub spans_loop : ℕ → ℕ → ℕ → ℕ → ℕ → ℕ → Outcome (Option (List (ℕ × ℕ)))
spans_loop zero total content stride count start = ok none
spans_loop (suc fuel) total content stride count start =
    let end_token = min (start + content) total in
    elim (ltb (count * stride) total) [
      | false ↦ ok (some [])
      | true ↦ elim (end_token == total) [
        | true ↦ ok (some ((start, end_token) ∷ []))
        | false ↦ do
          next ← checked_sub end_token stride
          rest ← spans_loop fuel total content stride (suc count) next
          ok (map_option (λ (l : List (ℕ × ℕ)). (start, end_token) ∷ l) rest)
      ]
    ]

-- The spans of an input of `total` tokens.
unfoldable pub generate_spans : ℕ → ℕ → ℕ → ℕ → Outcome (Option (List (ℕ × ℕ)))
unfolding content_length stride_of spans_loop
generate_spans fuel max_length added total = do
  content ← content_length max_length added
  spans_loop fuel total content (stride_of max_length) 0 0

-- `while masks.next().unwrap_or(&Mask::None) == &Mask::Special { counter += 1 }`
pub leading_special : List Bool → ℕ
leading_special [] = 0
leading_special (special ∷ mask) =
    let rest = leading_special mask in if special then suc rest else 0

-- `[..n]` and `[n..]` set to false.
pub clear_prefix : ℕ → List Bool → List Bool
clear_prefix zero flags = flags
clear_prefix (suc n) [] = []
clear_prefix (suc n) (f ∷ flags) = false ∷ clear_prefix n flags

pub clear_from : ℕ → List Bool → List Bool
clear_from n [] = []
clear_from zero (f ∷ flags) = false ∷ clear_from zero flags
clear_from (suc n) (f ∷ flags) = f ∷ clear_from n flags

pub start_cutoff : ℕ → ℕ → List Bool → ℕ
unfolding leading_special
start_cutoff start stride mask = if ltb 0 start then stride / 2 + leading_special mask else 0

pub end_cutoff : ℕ → ℕ → ℕ → List Bool → Outcome ℕ
unfolding leading_special
end_cutoff end total stride mask =
    if ltb end total
    then (do
      n ← checked_sub (length mask) (stride / 2)
      checked_sub n (leading_special (reverse mask)))
    else ok (length mask)

-- A prefix past the end panics.
unfoldable pub get_reference_feature_flag : ℕ → ℕ → ℕ → ℕ → List Bool → Outcome (List Bool)
unfolding start_cutoff end_cutoff clear_prefix clear_from
get_reference_feature_flag start end total stride mask = do
  last ← end_cutoff end total stride mask
  let first = start_cutoff start stride mask
  if leb first (length mask)
      then ok (clear_from last (clear_prefix first (replicate (length mask) true)))
      else panics
