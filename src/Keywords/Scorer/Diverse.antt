-- ===== src/Keywords/Scorer/Diverse.antt =====
-- On the keywords that `maximal_margin_relevance_score` chooses: they are different words of the document.
use mathlib.Core.Bool.{false≢true}
use rust_bert.Prelude.{
  ℕ, zero, suc, ◌+◌, ◌≤◌, ◌<◌, ◌≡◌, refl, sym, ap, ◌∙◌, inl, inr, true, false, ◌||◌, some, List, [],
  ◌∷◌, ◌++◌, arith, ltb, ◌==◌, ==_iff, Bool-cases, length, get_elem?, take, drop, length-append,
  All, All-append, get_elem?-All, All-unit, position, contains, AllDifferent, without,
  without_absent, without-AllDifferent,
}
use rust_bert.Prelude.Outcome.{ok}
use rust_bert.Keywords.Scorer.{
  Tensors, Similarities, argmax_of, remove_at, target_similarity, margins, choose,
}

-- The place of an element is found, and without it all others are left.
found_at :
    (x : ℕ) (cs : List ℕ)
    → AllDifferent cs
    → contains cs x ≡ true
    → (i : ℕ) × (position (λ y. y == x) cs ≡ some i)
      × (take i cs ++ drop (i + 1) cs ≡ without x cs)
      × (i < length cs)
      × (length cs ≡ suc (length (without x cs)))
unfolding without
found_at x [] d h = absurd (false≢true h)
found_at x (c ∷ cs) d h = elim (Bool-cases (c == x)) [
  | inl e ↦
      let same : c ≡ x = (==_iff c x).0 e in
      let absent : contains cs x ≡ false = rw same at d.0 in
      (
        0,
        rw e,
        rw e (sym (without_absent x cs absent)),
        omega arith,
        rw e (ap (λ l. suc (length l)) (sym (without_absent x cs absent))),
      )
  | inr e ↦
      let inside : contains cs x ≡ true = rw e at h in
      let (i, at_i, rest, room, size) = found_at x cs d.1 inside in
      let next : suc i + 1 ≡ suc (i + 1) = omega arith in
      (suc i, rw (e, at_i), rw (e, next) (ap (◌∷◌ c) rest), omega (arith, room), rw e (ap suc size))
]

contains-get_elem? : (cs : List ℕ) (i x : ℕ) → get_elem? cs i ≡ some x → contains cs x ≡ true
contains-get_elem? [] i x e = ground arith
contains-get_elem? (c ∷ cs) zero x e = ground (arith, e)
contains-get_elem? (c ∷ cs) (suc i) x e = ground (arith, contains-get_elem? cs i x e)

contains-append : (ks : List ℕ) (x y : ℕ) → contains (ks ++ x ∷ []) y ≡ contains ks y || (x == y)
contains-append [] x y = elim (Bool-cases (x == y)) [ inl e ↦ rw e | inr e ↦ rw e ]
contains-append (k ∷ ks) x y = ground (arith, contains-append ks x y)

append-AllDifferent :
    (ks : List ℕ) (x : ℕ) → AllDifferent ks → contains ks x ≡ false → AllDifferent (ks ++ x ∷ [])
append-AllDifferent [] x d h = (refl, tt)
append-AllDifferent (k ∷ ks) x d h = (
  ground (arith, contains-append ks x k, d.0, h),
  append-AllDifferent ks x d.1 (ground (arith, h)),
)

-- Keywords and the candidates that are left, below `n`: all different.
abbrev pub Apart : ℕ → List ℕ → List ℕ → Type 0
Apart n keywords candidates =
    AllDifferent keywords
    × AllDifferent candidates
    × All (λ c. (c < n) × (contains keywords c ≡ false)) candidates
    × All (λ k. k < n) keywords
    × (0 < length keywords)

pub left_apart :
    (n x : ℕ) (keywords candidates : List ℕ)
    → All (λ c. (c < n) × (contains keywords c ≡ false)) candidates
    → All (λ c. (c < n) × (contains (keywords ++ x ∷ []) c ≡ false)) (without x candidates)
unfolding without
left_apart n x keywords [] a = tt
left_apart n x keywords (c ∷ candidates) a = elim (Bool-cases (c == x)) [
  | inl e ↦ rw e (left_apart n x keywords candidates a.1)
  | inr e ↦ rw e (
    (a.0.0, ground (arith, contains-append keywords x c, a.0.1, e)),
    left_apart n x keywords candidates a.1,
  )
]

-- `argmax` of a row that is not empty is one of its places.
abbrev pub FindsArgmax : {F : Type 0} → Tensors F → Type 0
FindsArgmax {F} t = (xs : List F) → 0 < length xs → t.argmax xs < length xs

pub argmax_of_lem :
    {F : Type 0} (t : Tensors F) (xs : List F)
    → FindsArgmax t
    → 0 < length xs
    → (i : ℕ) × (argmax_of t xs ≡ ok i) × (i < length xs)
unfolding argmax_of
argmax_of_lem t [] law p = absurd (omega (arith, p))
argmax_of_lem t (x ∷ xs) law p = (t.argmax (x ∷ xs), refl, law (x ∷ xs) p)

pub remove_at_lem :
    (i : ℕ) (xs : List ℕ) → i < length xs → remove_at i xs ≡ ok (take i xs ++ drop (i + 1) xs)
unfolding remove_at
remove_at_lem i xs h = let inside : ltb i (length xs) ≡ true = ground (arith, h) in rw inside

module _ {F : Type 0} (t : Tensors F) (s : Similarities F) where
  target_total :
      (keywords : List ℕ) (c : ℕ)
      → 0 < length keywords
      → (target : F) × (target_similarity t s keywords c ≡ ok target)
  unfolding target_similarity
  target_total [] c p = absurd (omega (arith, p))
  target_total (k ∷ []) c p = (s.word_word c k, refl)
  target_total (k ∷ l ∷ keywords) c p =
      let (best, run) = target_total (l ∷ keywords) c (omega arith) in
      (t.max2 (s.word_word c k) best, rw run)

  margins_total :
      (diversity : F) (keywords candidates : List ℕ)
      → 0 < length keywords
      → All (λ c. (c < length s.word_document) × (contains keywords c ≡ false)) candidates
      → (ms : List F) × (margins t s diversity keywords candidates ≡ ok ms)
        × (length ms ≡ length candidates)
  unfolding margins
  margins_total diversity keywords [] p a = ([], refl, refl)
  margins_total diversity keywords (c ∷ candidates) p a =
      let (similarity, at_c, _) =
        get_elem?-All (λ x. Unit {0}) c s.word_document a.0.0 (All-unit s.word_document) in
      let (target, run) = target_total keywords c p in
      let (ms, rest, size) = margins_total diversity keywords candidates p a.1 in
      (t.margin diversity similarity target ∷ ms, rw (at_c, run, rest), ap suc size)

  pub choose_lem :
      (diversity : F) (turns : ℕ) (keywords candidates : List ℕ)
      → FindsArgmax t
      → Apart (length s.word_document) keywords candidates
      → turns ≤ length candidates
      → (result : List ℕ) × (choose t s diversity turns keywords candidates ≡ ok result)
        × (length result ≡ length keywords + turns)
        × AllDifferent result
        × All (λ k. k < length s.word_document) result
  unfolding choose
  choose_lem diversity zero keywords candidates law (d, _, _, below, _) h =
      (keywords, refl, omega arith, d, below)
  choose_lem diversity (suc turns) keywords candidates law (d, d', a, below, some_word) h =
      let n = length s.word_document in
      let (ms, margined, size) = margins_total diversity keywords candidates some_word a in
      let (best, chosen, room) = argmax_of_lem t ms law (omega (arith, size, h)) in
      let (x, at_best, (x_below, new)) =
        get_elem?-All (λ c. (c < n) × (contains keywords c ≡ false)) best candidates
          (omega (arith, room, size)) a in
      let (i, at_i, left, i_room, left_size) =
        found_at x candidates d' (contains-get_elem? candidates best x at_best) in
      let removed = remove_at_lem i candidates i_room ∙ ap ok left in
      let grown = length-append keywords (x ∷ []) in
      let (result, run, count, different, inside) =
        choose_lem diversity turns (keywords ++ x ∷ []) (without x candidates) law
          (
            append-AllDifferent keywords x d new,
            without-AllDifferent x candidates d',
            left_apart n x keywords candidates a,
            All-append (λ k. k < n) keywords (x ∷ []) below (x_below, tt),
            omega (arith, grown),
          )
          (omega (arith, h, left_size)) in
      (
        result,
        rw margined (rw chosen (rw at_best (rw at_i (rw removed run)))),
        omega (arith, count, grown),
        different,
        inside,
      )
