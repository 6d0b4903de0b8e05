-- ===== src/QuestionAnswering/Features/Padded.antt =====
-- On `pad_features`: the width of a batch.
use rust_bert.Prelude.{
  ℕ, zero, suc, ◌+◌, ◌-◌, ◌≤◌, ◌≡◌, refl, ap, none, List, [], ◌∷◌, ◌++◌, map, arith, unwrap_or,
  length, take, replicate, last?, length-append, length-replicate, All, maximum,
}
use rust_bert.Prelude.Outcome.{ok}
use rust_bert.QuestionAnswering.Features.{
  QaFeature, resize, pad_feature, attention_mask, pad_features,
}

take-all {ℓ} : {A : Type ℓ} (n : ℕ) (xs : List A) → length xs ≤ n → take n xs ≡ xs
take-all zero [] h = refl
take-all zero (x ∷ xs) h = absurd (omega (arith, h))
take-all (suc n) [] h = refl
take-all (suc n) (x ∷ xs) h = ap (◌∷◌ x) (take-all n xs (omega (arith, h)))

resize-longer {ℓ} :
    {A : Type ℓ} (n k : ℕ) (a : A) (xs : List A)
    → length xs ≡ k
    → k ≤ n
    → resize n a xs ≡ xs ++ replicate (n - k) a
resize-longer n k a xs e h = rw (e, take-all n xs (omega (arith, e, h)))

module _ {O : Type 0} where
  -- The lists of a feature are of one length.
  abbrev pub IsEven : QaFeature O → Type 0
  IsEven f =
      (length f.offsets ≡ length f.input_ids)
      × (length f.p_mask ≡ length f.input_ids)
      × (length f.token_type_ids ≡ length f.input_ids)

  -- `g` is `f` with `k` tokens of padding behind it, which the mask of answers excludes and the attention
  -- does not see.
  abbrev pub IsPadded : ℕ → ℕ → QaFeature O → QaFeature O → List ℕ → Type 0
  IsPadded pad k f g attention =
      (g.input_ids ≡ f.input_ids ++ replicate k pad)
      × (g.offsets ≡ f.offsets ++ replicate k none)
      × (g.p_mask ≡ f.p_mask ++ replicate k 1)
      × (length g.token_type_ids ≡ length f.input_ids + k)
      × (attention ≡ replicate (length f.input_ids) 1 ++ replicate k 0)
      × (g.example_index ≡ f.example_index)

  abbrev pub ArePadded : ℕ → ℕ → List (QaFeature O) → List (QaFeature O) → List (List ℕ) → Type 0
  ArePadded pad width [] [] [] = Unit
  ArePadded pad width (f ∷ fs) (g ∷ gs) (m ∷ ms) =
      (length f.input_ids ≤ width)
      × IsPadded pad (width - length f.input_ids) f g m
      × ArePadded pad width fs gs ms
  ArePadded pad width _ _ _ = ⊥

  pad_one :
      (pad width : ℕ) (f : QaFeature O)
      → IsEven f
      → length f.input_ids ≤ width
      → IsPadded pad
          (width - length f.input_ids)
          f
          (pad_feature pad width f)
          (attention_mask pad width f)
  unfolding pad_feature attention_mask
  pad_one pad width f (o, p, t) h = (
    resize-longer width (length f.input_ids) pad f.input_ids refl h,
    resize-longer width (length f.input_ids) none f.offsets o h,
    resize-longer width (length f.input_ids) 1 f.p_mask p h,
    rw
        (resize-longer width (length f.input_ids) (unwrap_or (last? f.token_type_ids) 0)
          f.token_type_ids t h)
        (omega (
          arith,
          t,
          length-append f.token_type_ids
              (replicate (width - length f.input_ids) (unwrap_or (last? f.token_type_ids) 0)),
          length-replicate (width - length f.input_ids) (unwrap_or (last? f.token_type_ids) 0),
        )),
    resize-longer width (length f.input_ids) 0 (replicate (length f.input_ids) 1)
        (length-replicate (length f.input_ids) 1) h,
    refl,
  )

  pad_rows :
      (pad width : ℕ) (features : List (QaFeature O))
      → All IsEven features
      → maximum (map (λ (g : QaFeature O). length g.input_ids) features) ≤ width
      → ArePadded pad width features
          (map (pad_feature pad width) features)
          (map (attention_mask pad width) features)
  pad_rows pad width [] e h = tt
  pad_rows pad width (f ∷ features) e h = (
    omega (arith, h),
    pad_one pad width f e.0 (omega (arith, h)),
    pad_rows pad width features e.1 (omega (arith, h)),
  )

  -- A batch that is not empty, of features whose lists are of one length each, is padded: every feature
  -- reaches the width of the longest, its own tokens first, and padding is outside of both masks.
  pub pad_features_lem :
      (pad : ℕ) (f : QaFeature O) (features : List (QaFeature O))
      → All IsEven (f ∷ features)
      → (padded : List (QaFeature O)) × (masks : List (List ℕ)) × (pad_features pad (f ∷ features)
          ≡ ok (padded, masks))
        × ArePadded pad
            (maximum (map (λ (g : QaFeature O). length g.input_ids) (f ∷ features)))
            (f ∷ features)
            padded
            masks
  unfolding pad_features
  pad_features_lem pad f features e = (_, _, refl, pad_rows pad _ (f ∷ features) e (omega arith))
