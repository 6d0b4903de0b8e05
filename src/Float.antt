-- ===== src/Float.antt =====
-- The `f64` operations that the generation and the pipelines call, as an interface: the type of the
-- values, the comparisons of IEEE 754, the total order of `ordered_float::OrderedFloat`, and arithmetic.
use mathlib.Core.Path.{◌≡◌}
use mathlib.Core.Bool.{Bool, true, not}
use mathlib.Core.Logic.{◌⊎◌}
use Prim.Native.Nat.{ℕ}

pub record Floats (F : Type 0) : Type 0 where
  pub zero_f : F
  -- `1e9f64`
  pub large : F
  pub sub : F → F → F
  -- `sum / (length as f64).powf(penalty)`
  pub normalise : F → ℕ → F → F
  -- `a > b` and `a >= b` on `f64`
  pub gtb : F → F → Bool
  pub geb : F → F → Bool
  -- `a <= b` on `OrderedFloat`
  pub ord_leb : F → F → Bool

-- The order is total, and where no value is NaN the comparisons of `f64` agree with it.
pub record IsOrdered {F : Type 0} (fl : Floats F) : Type 0 where
  pub total : (a b : F) → (fl.ord_leb a b ≡ true) ⊎ (fl.ord_leb b a ≡ true)
  pub transitive :
      (a b c : F) → fl.ord_leb a b ≡ true → fl.ord_leb b c ≡ true → fl.ord_leb a c ≡ true
  pub gtb_not : (a b : F) → fl.gtb a b ≡ not (fl.ord_leb a b)
  pub geb_ord : (a b : F) → fl.geb a b ≡ fl.ord_leb b a
