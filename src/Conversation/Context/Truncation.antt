-- ===== src/Conversation/Context/Truncation.antt =====
-- On `get_truncated_input_index`: where a context over the limit is cut.
use rust_bert.Prelude.{
  ℕ, zero, suc, ◌+◌, ◌-◌, ◌≤◌, ◌<◌, ◌≡◌, refl, ◌≢◌, ◌⊎◌, inl, inr, Bool, true, false, some, List,
  [], ◌∷◌, map, arith, ltb, Bool-cases, length, get_elem?, drop, length-drop, select,
  enumerate_from,
}
use native.Mathlib.Nat.{zero-add}
use mathlib.Core.Option.{some-injective}
use rust_bert.Prelude.Int.{ℤ, as_usize}
use rust_bert.Prelude.Outcome.{ok, slice_from-ok}
use rust_bert.Conversation.Context.{
  is_break, eos_indices, get_truncated_input_index, truncate_input, first_or,
}

-- The first element that the scan selects stands at its own index, and none before it is selected.
found_break :
    (p : ℕ × ℕ → Bool) (k : ℕ) (xs : List ℕ) (i e : ℕ) (r : List (ℕ × ℕ))
    → select p (enumerate_from k xs) ≡ (i, e) ∷ r
    → (p (i, e) ≡ true)
      × (j : ℕ) × (i ≡ k + j)
      × (j < length xs)
      × (get_elem? xs j ≡ some e)
      × ((l d : ℕ) → l < j → get_elem? xs l ≡ some d → p (k + l, d) ≡ false)
found_break p k [] i e r h = ground arith
found_break p k (x ∷ xs) i e r h = elim (Bool-cases (p (k, x))) [
  | inl b ↦ (
    ground arith,
    0,
    ground arith,
    omega arith,
    ground arith,
    λ l d below at. absurd (omega (arith, below)),
  )
  | inr b ↦
      let rest = found_break p (suc k) xs i e r (ground arith) in
      (
        rest.0,
        suc rest.1,
        omega (arith, rest.2),
        omega (arith, rest.3),
        rest.4,
        passed p k x xs b rest.1 rest.5,
      )
]
  where
    passed :
        (p : ℕ × ℕ → Bool) (k x : ℕ) (xs : List ℕ)
        → p (k, x) ≡ false
        → (j : ℕ) → ((l d : ℕ) → l < j → get_elem? xs l ≡ some d → p (suc k + l, d) ≡ false)
        → (l d : ℕ) → l < suc j
        → get_elem? (x ∷ xs) l ≡ some d
        → p (k + l, d) ≡ false
    passed p k x xs b j h zero d below at =
        let same : x ≡ d = some-injective x d at in
        let here : k + 0 ≡ k = omega arith in rw (here, ← same) b
    passed p k x xs b j h (suc l) d below at =
        let next : k + suc l ≡ suc k + l = omega arith in rw next (h l d (omega (arith, below)) at)

none_found :
    (p : ℕ × ℕ → Bool) (k : ℕ) (xs : List ℕ)
    → select p (enumerate_from k xs) ≡ []
    → (l d : ℕ) → get_elem? xs l ≡ some d
    → p (k + l, d) ≡ false
none_found p k [] h l d at = ground arith
none_found p k (x ∷ xs) h zero d at =
    let same : x ≡ d = some-injective x d at in
    let here : k + 0 ≡ k = omega arith in
    rw (here, ← same) (elim (Bool-cases (p (k, x))) [ inl t ↦ ground arith | inr f ↦ f ])
none_found p k (x ∷ xs) h (suc l) d at =
    let next : k + suc l ≡ suc k + l = omega arith in
    rw next (
      none_found p (suc k) xs
        (elim (Bool-cases (p (k, x))) [ inl t ↦ ground arith | inr f ↦ ground arith ]) l d at)

-- A padding token at `i` that is not the last, behind which fewer than `m - 1` tokens are left.
abbrev pub BreaksAt : List ℕ → ℕ → ℕ → ℕ → Type 0
BreaksAt history m pad i =
    (get_elem? history i ≡ some pad) × (suc i < length history) × (length history < m + i)

is_break_parts :
    (n m pad i e : ℕ) → is_break n m pad (i, e) ≡ true → (e ≡ pad) × (i ≢ n - 1) × (n < m + i)
unfolding is_break
is_break_parts n m pad i e h = ground arith

not_break : (n m pad i : ℕ) → is_break n m pad (i, pad) ≡ false → suc i < n → n < m + i → ⊥
unfolding is_break
not_break n m pad i h k l = ground (arith, h, k, l)

-- `s` is right behind the first such token, or there is none and exactly `m` tokens are left from `s` on.
abbrev pub IsStart : List ℕ → ℕ → ℕ → ℕ → Type 0
IsStart history m pad s =
    ((i : ℕ) × (s ≡ suc i)
      × BreaksAt history m pad i
      × ((j : ℕ) → j < i → ¬ BreaksAt history m pad j))
    ⊎ ((s ≡ length history - m) × ((j : ℕ) → ¬ BreaksAt history m pad j))

eos_indices-IsStart :
    (history : List ℕ) (m pad : ℕ)
    → IsStart history m pad (first_or (eos_indices history m pad) (length history - m))
unfolding eos_indices
eos_indices-IsStart history m pad =
    go (select (is_break (length history) m pad) (enumerate_from 0 history)) refl
  where
    go :
        (l : List (ℕ × ℕ))
        → select (is_break (length history) m pad) (enumerate_from 0 history) ≡ l
        → IsStart history m pad (first_or (map (λ (e : ℕ × ℕ). e.0 + 1) l) (length history - m))
    go [] h = inr (
      refl,
      λ j (at, inside, near).
          not_break (length history) m pad j
            (rw (zero-add j) at (none_found (is_break (length history) m pad) 0 history h j pad at))
            inside near,
    )
    go ((i, e) ∷ r) h =
        let (t, j, at, below, found, before) =
          found_break (is_break (length history) m pad) 0 history i e r h in
        let (is_pad, not_last, near) = is_break_parts (length history) m pad i e t in
        let same : i ≡ j = omega (arith, at) in
        inl (
          i,
          omega arith,
          (rw same (rw (← is_pad) found), omega (arith, below, not_last, same), near),
          λ l earlier (at_l, inside, near_l).
              not_break (length history) m pad l
                (rw (zero-add l) at (before l pad (omega (arith, earlier, same)) at_l)) inside
                near_l,
        )

-- Of a history over the limit the start index is found. It stands right behind the first padding token that is
-- not the last token and behind which fewer than `max_length - 1` tokens are left; where there is no such
-- token, it is the one from which on exactly `max_length` tokens are left.
pub get_truncated_input_index_lem :
    (history : List ℕ) (m pad : ℕ)
    → m < length history
    → (s : ℕ) × (get_truncated_input_index history m pad ≡ ok s) × IsStart history m pad s
unfolding get_truncated_input_index
get_truncated_input_index_lem history m pad h = (
  first_or (eos_indices history m pad) (length history - m),
  ground arith,
  eos_indices-IsStart history m pad,
)

-- Where a context begins to be kept: within the bound at its start, and else at the truncation index.
abbrev pub KeptFrom : ℕ → ℕ → List ℕ → ℕ → Type 0
KeptFrom b pad x s = ((length x ≤ b) × (s ≡ 0)) ⊎ ((b < length x) × IsStart x b pad s)

-- `y` is `x` from there on, within the bound.
abbrev pub IsCut : ℕ → ℕ → List ℕ → List ℕ → Type 0
IsCut b pad x y = (s : ℕ) × (s ≤ length x) × (y ≡ drop s x) × (length y ≤ b) × KeptFrom b pad x s

pub truncate_input-IsCut :
    (bound : ℤ) (pad : ℕ) (x : List ℕ)
    → (y : List ℕ) × (truncate_input (some bound) pad x ≡ ok y) × IsCut (as_usize bound) pad x y
unfolding truncate_input
truncate_input-IsCut bound pad x = elim (Bool-cases (ltb (as_usize bound) (length x))) [
  | inr fits ↦ (x, rw fits, (0, ground arith, refl, ground arith, inl (ground arith, refl)))
  | inl over ↦
      let (s, found, cases) = get_truncated_input_index_lem x (as_usize bound) pad (ground arith) in
      (
        drop s x,
        rw over (rw found (slice_from-ok x s (start_le x (as_usize bound) pad s cases))),
        (
          s,
          start_le x (as_usize bound) pad s cases,
          refl,
          rest_le x (as_usize bound) pad s cases,
          inr (ground arith, cases),
        ),
      )
]
  where
    start_le : (x : List ℕ) (m pad s : ℕ) → IsStart x m pad s → s ≤ length x
    start_le x m pad s (inl b) = omega (arith, b.1, b.2.1)
    start_le x m pad s (inr e) = omega (arith, e.0)

    rest_le : (x : List ℕ) (m pad s : ℕ) → IsStart x m pad s → length (drop s x) ≤ m
    rest_le x m pad s (inl b) = omega (arith, length-drop s x, b.1, b.2.2)
    rest_le x m pad s (inr e) = omega (arith, length-drop s x, e.0)
