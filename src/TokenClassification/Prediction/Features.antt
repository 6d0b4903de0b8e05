-- ===== src/TokenClassification/Prediction/Features.antt =====
-- On the features of `predict` of the token classification: what padding keeps, and the parts of its loops.
use mathlib.Core.List.{append-nil}
use rust_bert.Prelude.{
  ℕ, zero, suc, ◌+◌, ◌-◌, ◌≤◌, ◌<◌, min, ◌≡◌, refl, ap, inl, inr, Bool, true, false, ◌&&◌, Option,
  none, some, List, [], ◌∷◌, ◌++◌, map, arith, ltb, leb, if◌then◌else◌, Bool-cases, length,
  get_elem?, take, All, maximum,
}
use rust_bert.Prelude.Outcome.{Outcome, ok, ◌>>=◌}
use rust_bert.TokenClassification.Prediction.{
  InputFeature, resize, resize_feature, pad_range, flagged, push_at,
}

-- Where the offset of a token begins in the text.
abbrev pub BeginsIn : List ℕ → Option (ℕ × ℕ) → Type 0
BeginsIn chars none = Unit
BeginsIn chars (some (begin, end)) = begin ≤ min end (length chars)

-- A feature of `size` tokens of one of the inputs.
abbrev pub IsFeature : {M : Type 0} → List (List ℕ) → ℕ → InputFeature M → Type 0
IsFeature inputs size f =
    (length f.input_ids ≡ size)
    × (length f.offsets ≡ size)
    × (length f.mask ≡ size)
    × (length f.reference_feature ≡ size)
    × (f.example_index < length inputs)
    × (chars : List ℕ) × (get_elem? inputs f.example_index ≡ some chars)
    × All (BeginsIn chars) f.offsets

resize_same : {A : Type 0} (n : ℕ) (a : A) (xs : List A) → length xs ≡ n → resize n a xs ≡ xs
unfolding resize
resize_same n a xs e =
    let no_more : n - length xs ≡ 0 = omega (arith, e) in
    rw no_more (rw (append-nil (take n xs)) (rw (← e) (take_all xs)))
  where
    take_all : {A : Type 0} (xs : List A) → take (length xs) xs ≡ xs
    take_all [] = refl
    take_all (x ∷ xs) = ap (◌∷◌ x) (take_all xs)

module _ {M : Type 0} (inputs : List (List ℕ)) (size : ℕ) where
  pub pad_range-IsFeature :
      (start end padding i : ℕ) (features : List (InputFeature M))
      → All (IsFeature inputs size) features
      → All (IsFeature inputs size) (pad_range start end size padding i features)
        × (length (pad_range start end size padding i features) ≡ length features)
  unfolding pad_range resize_feature
  pad_range-IsFeature start end padding i [] h = (tt, refl)
  pad_range-IsFeature start end padding i (f ∷ features) (h, hs) =
      let (rest, same) = pad_range-IsFeature start end padding (suc i) features hs in
      let (ids, offsets, mask, flags, at, chars, found, begins) = h in
      elim (Bool-cases (leb start i && ltb i end)) [
        | inr b ↦ rw b ((h, rest), ap suc same)
        | inl b ↦ rw b (
          (
            (
              rw (resize_same size padding f.input_ids ids) ids,
              rw (resize_same size none f.offsets offsets) offsets,
              mask,
              rw (resize_same size false f.reference_feature flags) flags,
              at,
              chars,
              found,
              rw (resize_same size none f.offsets offsets) begins,
            ),
            rest,
          ),
          ap suc same,
        )
      ]

  pub maximum_same :
      (features : List (InputFeature M))
      → All (IsFeature inputs size) features
      → 0 < length features
      → maximum (map (λ (f : InputFeature M). length f.input_ids) features) ≡ size
  maximum_same [] h p = absurd (omega (arith, p))
  maximum_same (f ∷ []) h p = omega (arith, h.0.0)
  maximum_same (f ∷ g ∷ features) h p =
      omega (arith, h.0.0, maximum_same (g ∷ features) h.1 (omega arith))

  pub rows_same :
      (features : List (InputFeature M))
      → All (IsFeature inputs size) features
      → All (λ row. length row ≡ size) (map (λ (f : InputFeature M). f.input_ids) features)
  rows_same [] h = tt
  rows_same (f ∷ features) h = (h.0.0, rows_same features h.1)

pub flagged_below :
    (i n : ℕ) (flags : List Bool) → i + length flags ≤ n → All (λ p. p < n) (flagged i flags)
unfolding flagged
flagged_below i n [] h = tt
flagged_below i n (flag ∷ flags) h =
    let rest = flagged_below (suc i) n flags (omega (arith, h)) in
    elim (Bool-cases flag) [ inl t ↦ rw t (omega (arith, h), rest) | inr f ↦ rw f rest ]

pub push_at_total :
    {A : Type 0} (i : ℕ) (tokens : List A) (rows : List (List A))
    → i < length rows
    → (rows' : List (List A)) × (push_at i tokens rows ≡ ok rows') × (length rows' ≡ length rows)
unfolding push_at
push_at_total i tokens [] h = absurd (omega (arith, h))
push_at_total zero tokens (row ∷ rows) h = ((row ++ tokens) ∷ rows, refl, refl)
push_at_total (suc i) tokens (row ∷ rows) h =
    let (rows', e, same) = push_at_total i tokens rows (omega (arith, h)) in
    (row ∷ rows', rw e, ap suc same)

-- A position is skipped, or its token is kept before those of the rest.
pub step_total :
    {A : Type 0} (skipped : Bool) (token : Outcome A) (later : Outcome (List A)) {t : A}
    {rest : List A}
    → token ≡ ok t
    → later ≡ ok rest
    → ((if skipped then ok [] else (token >>= (λ a. ok (a ∷ []))))
        >>= (λ kept. later >>= (λ l. ok (kept ++ l))))
      ≡ ok (if skipped then rest else t ∷ rest)
step_total true token later e r = rw r
step_total false token later e r = rw e (rw r)
