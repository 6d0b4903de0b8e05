-- ===== src/QuestionAnswering/Answers/Distinct.antt =====
-- On `remove_duplicates`, for a test that is an equivalence.
use rust_bert.Prelude.{
  ◌≡◌, refl, inl, inr, Bool, true, false, ◌||◌, List, [], ◌∷◌, ◌++◌, arith, Bool-cases, All,
}
use rust_bert.QuestionAnswering.Answers.{seen, retain_new, remove_duplicates}

pub record IsEquivalence {A : Type 0} (same : A → A → Bool) : Type 0 where
  pub reflexive : (x : A) → same x x ≡ true
  pub symmetric : (x y : A) → same x y ≡ same y x
  pub transitive : (x y z : A) → same x y ≡ true → same y z ≡ true → same x z ≡ true

module _ {A : Type 0} (same : A → A → Bool) (q : IsEquivalence same) where
  -- No element is the same as a later one.
  abbrev pub AllApart : List A → Type 0
  AllApart [] = Unit
  AllApart (x ∷ xs) = (seen same xs x ≡ false) × AllApart xs

  seen-append : (xs : List A) (x y : A) → seen same (xs ++ x ∷ []) y ≡ (seen same xs y || same x y)
  unfolding seen
  seen-append [] x y = ground arith
  seen-append (z ∷ xs) x y = ground (arith, seen-append xs x y)

  seen-none : (ys : List A) (x : A) → All (λ y. same x y ≡ false) ys → seen same ys x ≡ false
  unfolding seen
  seen-none [] x h = refl
  seen-none (y ∷ ys) x h = rw (q.symmetric y x, h.0) (seen-none ys x h.1)

  older :
      (acc : List A) (item : A) (ys : List A)
      → All (λ y. seen same (acc ++ item ∷ []) y ≡ false) ys
      → All (λ y. seen same acc y ≡ false) ys
  older acc item [] h = tt
  older acc item (y ∷ ys) h = (ground (arith, h.0, seen-append acc item y), older acc item ys h.1)

  -- What is kept is new.
  kept_new : (acc items : List A) → All (λ y. seen same acc y ≡ false) (retain_new same acc items)
  unfolding retain_new
  kept_new acc [] = tt
  kept_new acc (item ∷ items) = elim (Bool-cases (seen same acc item)) [
    | inl e ↦ rw e (kept_new acc items)
    | inr e ↦ rw e (
      e,
      older acc item (retain_new same (acc ++ item ∷ []) items) (kept_new (acc ++ item ∷ []) items),
    )
  ]

  other_than :
      (acc : List A) (item : A) (ys : List A)
      → All (λ y. seen same (acc ++ item ∷ []) y ≡ false) ys
      → All (λ y. same item y ≡ false) ys
  other_than acc item [] h = tt
  other_than acc item (y ∷ ys) h =
      (ground (arith, h.0, seen-append acc item y), other_than acc item ys h.1)

  retain_new-AllApart : (acc items : List A) → AllApart (retain_new same acc items)
  unfolding retain_new
  retain_new-AllApart acc [] = tt
  retain_new-AllApart acc (item ∷ items) = elim (Bool-cases (seen same acc item)) [
    | inl e ↦ rw e (retain_new-AllApart acc items)
    | inr e ↦
        let kept = retain_new same (acc ++ item ∷ []) items in
        rw e (
          seen-none kept item (other_than acc item kept (kept_new (acc ++ item ∷ []) items)),
          retain_new-AllApart (acc ++ item ∷ []) items,
        )
  ]

  seen-same :
      (acc : List A) (x y : A) → seen same acc x ≡ true → same x y ≡ true → seen same acc y ≡ true
  unfolding seen
  seen-same [] x y h k = ground arith
  seen-same (z ∷ acc) x y h k = elim (Bool-cases (same z x)) [
    | inl e ↦ rw (q.transitive z x y e k)
    | inr e ↦ ground (arith, seen-same acc x y (rw e at h) k)
  ]

  seen-retain_new :
      (acc items : List A) (x : A)
      → (seen same acc x || seen same (retain_new same acc items) x)
        ≡ (seen same acc x || seen same items x)
  unfolding retain_new seen
  seen-retain_new acc [] x = refl
  seen-retain_new acc (item ∷ items) x = elim (Bool-cases (seen same acc item)) [
    | inl e ↦ elim (Bool-cases (same item x)) [
      | inl s ↦ ground (arith, e, seen-same acc item x e s)
      | inr s ↦ ground (arith, e, s, seen-retain_new acc items x)
    ]
    | inr e ↦ ground (arith, e, seen-append acc item x, seen-retain_new (acc ++ item ∷ []) items x)
  ]

  -- For a test that is an equivalence: no two of the elements that are left are the same, and what was there is there still: every element
  -- has one that is the same among those that are left exactly when it had one before.
  pub remove_duplicates_lem :
      (items : List A)
      → AllApart (remove_duplicates same items)
        × ((x : A) → seen same (remove_duplicates same items) x ≡ seen same items x)
  unfolding remove_duplicates seen
  remove_duplicates_lem items = (retain_new-AllApart [] items, seen-retain_new [] items)
