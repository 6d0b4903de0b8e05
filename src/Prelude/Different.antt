-- ===== src/Prelude/Different.antt =====
-- Lists of numbers without repetitions, and how long such a list can be below a bound.
use Prim.Native.Nat.{ℕ, zero, suc, ◌≤◌, ◌<◌}
use mathlib.Core.Path.{◌≡◌, refl}
use mathlib.Core.Logic.{inl, inr}
use mathlib.Core.Bool.{false}
use mathlib.Core.List.{List, [], ◌∷◌}
use native.Mathlib.Omega.{arith}
use rust_bert.Prelude.Tests.{◌==◌, if◌then◌else◌, Bool-cases}
use rust_bert.Prelude.Lists.{length, All}
use rust_bert.Prelude.Select.{contains}

abbrev pub AllDifferent : List ℕ → Type 0
AllDifferent [] = Unit
AllDifferent (k ∷ ks) = (contains ks k ≡ false) × AllDifferent ks

unfoldable pub without : ℕ → List ℕ → List ℕ
without k [] = []
without k (x ∷ xs) = let rest = without k xs in if x == k then rest else x ∷ rest

pub without_absent : (k : ℕ) (xs : List ℕ) → contains xs k ≡ false → without k xs ≡ xs
unfolding without
without_absent k [] h = refl
without_absent k (x ∷ xs) h = ground (arith, without_absent k xs)

length-without : (k : ℕ) (xs : List ℕ) → AllDifferent xs → length xs ≤ suc (length (without k xs))
unfolding without
length-without k [] h = omega arith
length-without k (x ∷ xs) h = ground (arith, without_absent k xs, length-without k xs h.1)

pub contains-without :
    (k x : ℕ) (xs : List ℕ) → contains xs x ≡ false → contains (without k xs) x ≡ false
unfolding without
contains-without k x [] h = refl
contains-without k x (y ∷ xs) h = ground (arith, contains-without k x xs)

pub without-AllDifferent : (k : ℕ) (xs : List ℕ) → AllDifferent xs → AllDifferent (without k xs)
unfolding without
without-AllDifferent k [] h = tt
without-AllDifferent k (x ∷ xs) h = elim (Bool-cases (x == k)) [
  | inl e ↦ rw e (without-AllDifferent k xs h.1)
  | inr e ↦ rw e (contains-without k x xs h.0, without-AllDifferent k xs h.1)
]

without-All : (k : ℕ) (xs : List ℕ) → All (λ x. x < suc k) xs → All (λ x. x < k) (without k xs)
unfolding without
without-All k [] h = tt
without-All k (x ∷ xs) h = elim (Bool-cases (x == k)) [
  | inl e ↦ rw e (without-All k xs h.1)
  | inr e ↦ rw e (ground (arith, h.0), without-All k xs h.1)
]

-- Different numbers below `n` are at most `n`.
pub length-le_of_AllDifferent :
    (n : ℕ) (xs : List ℕ) → AllDifferent xs → All (λ x. x < n) xs → length xs ≤ n
length-le_of_AllDifferent n [] d b = omega arith
length-le_of_AllDifferent zero (x ∷ xs) d b = absurd (omega (arith, b.0))
length-le_of_AllDifferent (suc n) (x ∷ xs) d b = omega (
  arith,
  length-without n (x ∷ xs) d,
  length-le_of_AllDifferent n (without n (x ∷ xs)) (without-AllDifferent n (x ∷ xs) d)
      (without-All n (x ∷ xs) b),
)
