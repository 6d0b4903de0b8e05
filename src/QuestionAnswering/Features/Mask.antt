-- ===== src/QuestionAnswering/Features/Mask.antt =====
-- On `get_mask`, token by token.
use mathlib.Core.List.{append_assoc}
use rust_bert.Prelude.{
  ℕ, suc, ◌-◌, min, ◌≡◌, refl, inl, inr, List, [], ◌∷◌, ◌++◌, map, arith, ◌==◌, if◌then◌else◌,
  Bool-cases, length, length-append,
}
use rust_bert.Prelude.Outcome.{ok}
use rust_bert.QuestionAnswering.Features.{set_one, set_ones, sep_indices, get_mask}

-- Token by token: 1 on a separator, and otherwise 0 from the second segment on.
abbrev pub mask_of : ℕ → List ℕ → List ℕ → List ℕ
mask_of sep (t ∷ ids) (v ∷ segments) =
    (if t == sep then 1 else 1 - min v 1) ∷ mask_of sep ids segments
mask_of sep ids segments = []

set_one-append :
    (pre : List ℕ) (m : ℕ) (rest : List ℕ)
    → set_one (length pre) (pre ++ m ∷ rest) ≡ ok (pre ++ 1 ∷ rest)
unfolding set_one
set_one-append [] m rest = refl
set_one-append (x ∷ pre) m rest = rw (set_one-append pre m rest)

set_ones_lem :
    (sep : ℕ) (pre ids segments : List ℕ)
    → length ids ≡ length segments
    → set_ones (sep_indices sep (length pre) ids) (pre ++ map (λ v. 1 - min v 1) segments)
      ≡ ok (pre ++ mask_of sep ids segments)
unfolding set_ones sep_indices
set_ones_lem sep pre [] [] h = refl
set_ones_lem sep pre [] (v ∷ segments) h = absurd (omega (arith, h))
set_ones_lem sep pre (t ∷ ids) [] h = absurd (omega (arith, h))
set_ones_lem sep pre (t ∷ ids) (v ∷ segments) h =
    let next : (m : ℕ)
        → set_ones (sep_indices sep (suc (length pre)) ids)
            (pre ++ m ∷ map (λ v. 1 - min v 1) segments)
          ≡ ok (pre ++ m ∷ mask_of sep ids segments) =
      λ m.
        let n : length (pre ++ m ∷ []) ≡ suc (length pre) =
          omega (arith, length-append pre (m ∷ [])) in
        rw (← append_assoc pre (m ∷ []) (mask_of sep ids segments)) (
          rw (n, append_assoc pre (m ∷ []) (map (λ v. 1 - min v 1) segments)) at
            (set_ones_lem sep (pre ++ m ∷ []) ids segments (omega (arith, h)))) in
    elim (Bool-cases (t == sep)) [
      | inl e ↦
          rw e (rw (set_one-append pre (1 - min v 1) (map (λ v. 1 - min v 1) segments)) (next 1))
      | inr e ↦ rw e (next (1 - min v 1))
    ]

-- For as many segment ids as tokens the mask is made, and it is 0 exactly on the tokens of the second
-- segment, or a later one, that are not separators.
pub get_mask_lem :
    (sep : ℕ) (ids segments : List ℕ)
    → length ids ≡ length segments
    → get_mask sep ids segments ≡ ok (mask_of sep ids segments)
unfolding get_mask
get_mask_lem sep ids segments h = set_ones_lem sep [] ids segments h
