-- ===== src/Prelude/Outcome.antt =====
-- common/error.rs, and how a call ends: with a value, with a `RustBertError`, or in a panic (an
-- `unwrap` of `None`, an index or a slice out of range, an underflow of an unsigned difference).
use rust_bert.Prelude.{List, [], ◌∷◌}
use mathlib.Core.Path.{◌≡◌, refl}
use mathlib.Core.Option.{Option, none, some}
use Prim.Native.String.{String}
use Prim.Native.Nat.{ℕ, ◌-◌, ◌≤◌}
use native.Mathlib.Omega.{arith}
use rust_bert.Prelude.Tests.{leb, if◌then◌else◌}
use rust_bert.Prelude.Lists.{length, drop}

pub data RustBertError : Type 0 where
  file_download_error : String → RustBertError
  io_error : String → RustBertError
  tch_error : String → RustBertError
  tokenizer_error : String → RustBertError
  invalid_configuration_error : String → RustBertError
  value_error : String → RustBertError
  ort_error : String → RustBertError
  nd_array_error : String → RustBertError
  unsupported_error : RustBertError

pub data Outcome {ℓ} (A : Type ℓ) : Type ℓ where
  ok : A → Outcome A
  err : RustBertError → Outcome A
  panics : Outcome A

module _ {ℓ κ} {A : Type ℓ} {B : Type κ} where
  -- Neither an error nor a panic runs what follows.
  infixl 5 ◌>>=◌
  abbrev pub ◌>>=◌ : Outcome A → (A → Outcome B) → Outcome B
  panics >>= next = panics
  err why >>= next = err why
  ok value >>= next = next value

  -- A chain that succeeds is a first step that does, and the rest on its value.
  pub >>=-eq-ok :
      (step : Outcome A) (next : A → Outcome B) {last : B}
      → step >>= next ≡ ok last
      → (value : A) × (step ≡ ok value) × (next value ≡ ok last)
  >>=-eq-ok panics next e = ground arith
  >>=-eq-ok (err why) next e = ground arith
  >>=-eq-ok (ok value) next e = (value, refl, e)

module _ {ℓ} {A : Type ℓ} where
  -- `Option::unwrap`
  abbrev pub unwrap : Option A → Outcome A
  unwrap none = panics
  unwrap (some a) = ok a

  -- `&s[start..]`
  abbrev pub slice_from : List A → ℕ → Outcome (List A)
  slice_from xs start = if leb start (length xs) then ok (drop start xs) else panics

  pub slice_from-ok : (xs : List A) (n : ℕ) → n ≤ length xs → slice_from xs n ≡ ok (drop n xs)
  slice_from-ok xs n h = ground arith

-- `a - b` on `usize`
abbrev pub checked_sub : ℕ → ℕ → Outcome ℕ
checked_sub a b = if leb b a then ok (a - b) else panics

module _ {ℓ κ} {A : Type ℓ} {B : Type κ} where
  -- A loop over a list that stops at the first failure.
  unfoldable pub traverse : (A → Outcome B) → List A → Outcome (List B)
  traverse f [] = ok []
  traverse f (x ∷ xs) = do y ← f x; ys ← traverse f xs; ok (y ∷ ys)

  pub length-traverse :
      (f : A → Outcome B) (xs : List A) (ys : List B)
      → traverse f xs ≡ ok ys
      → length ys ≡ length xs
  unfolding traverse
  length-traverse f [] ys h = ground arith
  length-traverse f (x ∷ xs) ys h =
      let (y, _, h') = >>=-eq-ok (f x) _ h in
      let (zs, t, e) = >>=-eq-ok (traverse f xs) _ h' in ground (arith, length-traverse f xs zs t)

module _ {ℓ κ ι} {A : Type ℓ} {B : Type κ} {C : Type ι} where
  pub >>=_assoc :
      (step : Outcome A) (next : A → Outcome B) (last : B → Outcome C)
      → (step >>= (λ a. next a >>= last)) ≡ ((step >>= next) >>= last)
  >>=_assoc panics next last = refl
  >>=_assoc (err why) next last = refl
  >>=_assoc (ok value) next last = refl

module _ {ℓ κ} {A : Type ℓ} {B : Type κ} where
  pub >>=_ext :
      (step : Outcome A) (next next' : A → Outcome B)
      → ((a : A) → next a ≡ next' a)
      → (step >>= next) ≡ (step >>= next')
  >>=_ext panics next next' e = refl
  >>=_ext (err why) next next' e = refl
  >>=_ext (ok value) next next' e = e value
