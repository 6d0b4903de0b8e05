-- ===== src/TokenClassification/Windows/Cover.antt =====
-- On the spans of `generate_features`: their overlap and the tokens inside.
use rust_bert.Prelude.{
  ℕ, zero, suc, ◌+◌, ◌-◌, ◌*◌, ◌/◌, ◌≤◌, ◌<◌, min, ◌≡◌, refl, inl, inr, Bool, true, false, ◌&&◌,
  ◌||◌, some, List, [], ◌∷◌, arith, ltb, leb, ◌==◌, Bool-cases,
}
use rust_bert.Prelude.Outcome.{ok, checked_sub}
use rust_bert.TokenClassification.Windows.{spans_loop, generate_spans}

-- The spans from `s` on: each but the last is full and the next begins a stride before its end; the last
-- one ends with the input.
abbrev pub Chain : ℕ → ℕ → ℕ → ℕ → List (ℕ × ℕ) → Type 0
Chain total content stride s [] = ⊥
Chain total content stride s ((a, b) ∷ []) = (a ≡ s) × (b ≡ total) × (b ≤ a + content)
Chain total content stride s ((a, b) ∷ next ∷ rest) =
    (a ≡ s)
    × (b ≡ a + content)
    × (b < total)
    × Chain total content stride (b - stride) (next ∷ rest)

Chain-cons :
    (total content stride a b : ℕ) (l : List (ℕ × ℕ))
    → b ≡ a + content
    → b < total
    → Chain total content stride (b - stride) l
    → Chain total content stride a ((a, b) ∷ l)
Chain-cons total content stride a b [] e h c = elim c [ ]
Chain-cons total content stride a b (next ∷ rest) e h c = (refl, e, h, c)

loop_step :
    (fuel total content stride count start : ℕ) {l : List (ℕ × ℕ)}
    → count * stride < total
    → start + content < total
    → stride ≤ content
    → spans_loop fuel total content stride (suc count) (start + content - stride) ≡ ok (some l)
    → spans_loop (suc fuel) total content stride count start
      ≡ ok (some ((start, start + content) ∷ l))
unfolding spans_loop
loop_step fuel total content stride count start h k w e =
    let size : min (start + content) total ≡ start + content = omega arith in
    let t : ltb (count * stride) total ≡ true = ground arith in
    let u : (min (start + content) total == total) ≡ false = ground (arith, size) in
    let v : leb stride (start + content) ≡ true = ground arith in
    rw (spans_loop, t, u, size, checked_sub, v, e)

loop_end :
    (fuel total content stride count start : ℕ)
    → count * stride < total
    → total ≤ start + content
    → spans_loop (suc fuel) total content stride count start ≡ ok (some ((start, total) ∷ []))
unfolding spans_loop
loop_end fuel total content stride count start h k =
    let size : min (start + content) total ≡ total = omega arith in
    let t : ltb (count * stride) total ≡ true = ground arith in
    let u : (min (start + content) total == total) ≡ true = ground (arith, size) in
    rw (spans_loop, t, u, size)

-- A stride of at most half the content: the test on the number of spans does not stop the loop early.
pub spans_loop-Chain :
    (fuel total content stride count start : ℕ)
    → 0 < stride
    → stride + stride ≤ content
    → count * stride ≤ start
    → start < total
    → total < fuel + start
    → (l : List (ℕ × ℕ)) × (spans_loop fuel total content stride count start ≡ ok (some l))
      × Chain total content stride start l
spans_loop-Chain zero total content stride count start p w h k f = absurd (omega arith)
spans_loop-Chain (suc fuel) total content stride count start p w h k f =
    elim (Bool-cases (leb total (start + content))) [
      | inl e ↦ (
        (start, total) ∷ [],
        loop_end fuel total content stride count start (omega arith) (ground arith),
        (refl, refl, ground arith),
      )
      | inr e ↦
          let below : start + content < total = ground arith in
          let (l, run, c) =
            spans_loop-Chain fuel total content stride (suc count) (start + content - stride) p w
              (grind arith) (omega arith) (omega arith) in
          (
            (start, start + content) ∷ l,
            loop_step fuel total content stride count start (omega arith) below (omega arith) run,
            Chain-cons total content stride start (start + content) l refl below c,
          )
    ]

-- `p` lies in one of the spans.
abbrev pub inside : ℕ → List (ℕ × ℕ) → Bool
inside p [] = false
inside p ((a, b) ∷ l) = (leb a p && ltb p b) || inside p l

pub Chain-inside :
    (total content stride s p : ℕ) (l : List (ℕ × ℕ))
    → Chain total content stride s l
    → s ≤ p
    → p < total
    → inside p l ≡ true
Chain-inside total content stride s p [] c h k = elim c [ ]
Chain-inside total content stride s p ((a, b) ∷ []) c h k = ground (arith, c.0, c.1)
Chain-inside total content stride s p ((a, b) ∷ next ∷ rest) c h k = elim (Bool-cases (ltb p b)) [
  | inl e ↦ ground (arith, c.0)
  | inr e ↦
      let later =
        Chain-inside total content stride (b - stride) p (next ∷ rest) c.3 (ground arith) k in
      ground (arith, later)
]

-- An input that is not empty, where the special tokens leave at least half of `max_length` for the
-- content: the loop ends within as many rounds as there are tokens, and one more; its spans form a
-- chain from the first token to the last, and every token lies in one of them.
pub generate_spans_lem :
    (max_length added total : ℕ)
    → 4 ≤ max_length
    → added + added ≤ max_length
    → 0 < total
    → (l : List (ℕ × ℕ)) × (generate_spans (total + 1) max_length added total ≡ ok (some l))
      × Chain total (max_length - added) (max_length / 4) 0 l
      × ((p : ℕ) → p < total → inside p l ≡ true)
unfolding generate_spans
generate_spans_lem max_length added total h k t =
    let (l, run, c) =
      spans_loop-Chain (total + 1) total (max_length - added) (max_length / 4) 0 0 (omega arith)
        (omega arith) (omega arith) t (omega arith) in
    let fits : leb added max_length ≡ true = ground arith in
    (l, rw fits run, c, λ p b. Chain-inside total _ (max_length / 4) 0 p l c (omega arith) b)
