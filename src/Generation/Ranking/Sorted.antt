-- ===== src/Generation/Ranking/Sorted.antt =====
-- On the ranking of the hypotheses: what is popped is the best.
use mathlib.Core.List.{reverse, reverse-cons, Perm, reverse-reverse, reverse_perm}
use rust_bert.Prelude.{
  ℕ, zero, suc, ◌+◌, ◌≤◌, ◌≡◌, refl, inl, inr, List, [], ◌∷◌, ◌++◌, arith, Bool-cases, length, take,
  drop, take-append-drop, length-take, last?-append, but_last-append, All, All-append, All-take,
  All-drop, length-reverse,
}
use rust_bert.Prelude.Outcome.{ok}
use mathlib.Core.List.Perm
use rust_bert.Float.{Floats, IsOrdered}
use rust_bert.Generation.Beam.{Hypothesis}
use rust_bert.Generation.Beam.Worst.{Le, Under, Over, not_le}
use rust_bert.Generation.Ranking.{insert_by_score, sort_by_score, pop_best}

module _ {F : Type 0} where
  pub All-reverse :
      (P : Hypothesis F → Type 0) (l : List (Hypothesis F)) → All P l → All P (reverse l)
  All-reverse P [] h = tt
  All-reverse P (x ∷ l) h =
      rw (reverse-cons x l) (All-append P (reverse l) (x ∷ []) (All-reverse P l h.1) (h.0, tt))

module _ {F : Type 0} (fl : Floats F) where
  length-insert_by_score :
      (h : Hypothesis F) (l : List (Hypothesis F)) → length (insert_by_score fl h l) ≡ length l + 1
  unfolding insert_by_score
  length-insert_by_score h [] = omega arith
  length-insert_by_score h (g ∷ l) = ground (arith, length-insert_by_score h l)

  length-sort_by_score : (l : List (Hypothesis F)) → length (sort_by_score fl l) ≡ length l
  unfolding sort_by_score
  length-sort_by_score [] = refl
  length-sort_by_score (h ∷ l) =
      omega (arith, length-insert_by_score h (sort_by_score fl l), length-sort_by_score l)

  pub pop_best-reverse :
      (n : ℕ) (l : List (Hypothesis F)) → n ≤ length l → pop_best fl n (reverse l) ≡ ok (take n l)
  unfolding pop_best
  pop_best-reverse zero l h = refl
  pop_best-reverse (suc n) [] h = absurd (omega (arith, h))
  pop_best-reverse (suc n) (x ∷ l) h =
      rw (reverse-cons x l, last?-append (reverse l) x, but_last-append (reverse l) x)
        (rw (pop_best-reverse n l (omega (arith, h))))

  insert_by_score-All :
      (P : Hypothesis F → Type 0) (h : Hypothesis F) (l : List (Hypothesis F))
      → P h
      → All P l
      → All P (insert_by_score fl h l)
  unfolding insert_by_score
  insert_by_score-All P h [] p a = (p, tt)
  insert_by_score-All P h (g ∷ l) p a = elim (Bool-cases (fl.ord_leb h.score g.score)) [
    | inl e ↦ rw e (p, a)
    | inr e ↦ rw e (a.0, insert_by_score-All P h l p a.1)
  ]

  sort_by_score-All :
      (P : Hypothesis F → Type 0) (l : List (Hypothesis F)) → All P l → All P (sort_by_score fl l)
  unfolding sort_by_score
  sort_by_score-All P [] a = tt
  sort_by_score-All P (h ∷ l) a =
      insert_by_score-All P h (sort_by_score fl l) a.0 (sort_by_score-All P l a.1)

  -- Of as many hypotheses as are asked for, or more, that many are popped.
  pub pop_best_total :
      (P : Hypothesis F → Type 0) (n : ℕ) (beams : List (Hypothesis F))
      → n ≤ length beams
      → All P beams
      → (best : List (Hypothesis F)) × (pop_best fl n (sort_by_score fl beams) ≡ ok best)
        × (length best ≡ n)
        × All P best
  pop_best_total P n beams h a =
      let sorted = sort_by_score fl beams in
      let r = reverse sorted in
      let size : length r ≡ length beams =
        omega (arith, length-reverse sorted, length-sort_by_score beams) in
      (
        take n r,
        rw (reverse-reverse sorted) at (pop_best-reverse n r (omega (arith, size, h))),
        omega (arith, length-take n r, size, h),
        All-take P n r (All-reverse P sorted (sort_by_score-All P beams a)),
      )

module _ {F : Type 0} (fl : Floats F) (o : IsOrdered fl) where
  -- From the least score to the greatest, and the other way.
  abbrev IsAscending : List (Hypothesis F) → Type 0
  IsAscending [] = Unit
  IsAscending (h ∷ l) = Under fl o h.score l × IsAscending l

  abbrev pub IsDescending : List (Hypothesis F) → Type 0
  IsDescending [] = Unit
  IsDescending (h ∷ l) = Over fl o h.score l × IsDescending l

  insert_by_score-perm :
      (h : Hypothesis F) (l : List (Hypothesis F)) → Perm (insert_by_score fl h l) (h ∷ l)
  unfolding insert_by_score
  insert_by_score-perm h [] = Perm.refl (h ∷ [])
  insert_by_score-perm h (g ∷ l) = elim (Bool-cases (fl.ord_leb h.score g.score)) [
    | inl e ↦ rw e (Perm.refl (h ∷ g ∷ l))
    | inr e ↦ rw e (Perm.trans (Perm.cons g (insert_by_score-perm h l)) (Perm.swap h g l))
  ]

  sort_by_score-perm : (l : List (Hypothesis F)) → Perm (sort_by_score fl l) l
  unfolding sort_by_score
  sort_by_score-perm [] = Perm.refl []
  sort_by_score-perm (h ∷ l) =
      Perm.trans (insert_by_score-perm h (sort_by_score fl l)) (Perm.cons h (sort_by_score-perm l))

  Under-trans : (a c : F) (l : List (Hypothesis F)) → Le fl o a c → Under fl o c l → Under fl o a l
  Under-trans a c [] h u = tt
  Under-trans a c (x ∷ l) h u = (o.transitive a c x.score h u.0, Under-trans a c l h u.1)

  insert_by_score-Under :
      (c : F) (h : Hypothesis F) (l : List (Hypothesis F))
      → Le fl o c h.score
      → Under fl o c l
      → Under fl o c (insert_by_score fl h l)
  unfolding insert_by_score
  insert_by_score-Under c h [] k u = (k, tt)
  insert_by_score-Under c h (g ∷ l) k u = elim (Bool-cases (fl.ord_leb h.score g.score)) [
    | inl e ↦ rw e (k, u)
    | inr e ↦ rw e (u.0, insert_by_score-Under c h l k u.1)
  ]

  insert_by_score-IsAscending :
      (h : Hypothesis F) (l : List (Hypothesis F))
      → IsAscending l
      → IsAscending (insert_by_score fl h l)
  unfolding insert_by_score
  insert_by_score-IsAscending h [] a = (tt, tt)
  insert_by_score-IsAscending h (g ∷ l) a = elim (Bool-cases (fl.ord_leb h.score g.score)) [
    | inl e ↦ rw e ((e, Under-trans h.score g.score l e a.0), a)
    | inr e ↦ rw e (
      insert_by_score-Under g.score h l (not_le fl o h.score g.score e) a.0,
      insert_by_score-IsAscending h l a.1,
    )
  ]

  sort_by_score-IsAscending : (l : List (Hypothesis F)) → IsAscending (sort_by_score fl l)
  unfolding sort_by_score
  sort_by_score-IsAscending [] = tt
  sort_by_score-IsAscending (h ∷ l) =
      insert_by_score-IsAscending h (sort_by_score fl l) (sort_by_score-IsAscending l)

  IsDescending-append :
      (l : List (Hypothesis F)) (x : Hypothesis F)
      → IsDescending l
      → Under fl o x.score l
      → IsDescending (l ++ x ∷ [])
  IsDescending-append [] x d u = (tt, tt)
  IsDescending-append (h ∷ l) x d u = (
    All-append (λ g. Le fl o g.score h.score) l (x ∷ []) d.0 (u.0, tt),
    IsDescending-append l x d.1 u.1,
  )

  reverse-IsDescending : (l : List (Hypothesis F)) → IsAscending l → IsDescending (reverse l)
  reverse-IsDescending [] a = tt
  reverse-IsDescending (x ∷ l) a = rw (reverse-cons x l) (
      IsDescending-append (reverse l) x (reverse-IsDescending l a.1)
        (All-reverse (λ g. Le fl o x.score g.score) l a.0))

  take-IsDescending :
      (n : ℕ) (l : List (Hypothesis F))
      → IsDescending l
      → IsDescending (take n l) × All (λ h. Over fl o h.score (drop n l)) (take n l)
  take-IsDescending zero l d = (tt, tt)
  take-IsDescending (suc n) [] d = (tt, tt)
  take-IsDescending (suc n) (x ∷ l) d =
      let (later, best) = take-IsDescending n l d.1 in
      (
        (All-take (λ g. Le fl o g.score x.score) n l d.0, later),
        (All-drop (λ g. Le fl o g.score x.score) n l d.0, best),
      )

  -- `best` are the best of the beams, in descending order, and the other beams are at most as good.
  abbrev pub AreBestOf : List (Hypothesis F) → List (Hypothesis F) → Type 0
  AreBestOf best beams =
      (rest : List (Hypothesis F)) × Perm (best ++ rest) beams
      × IsDescending best
      × All (λ h. Over fl o h.score rest) best

  -- With totally ordered scores: of as many hypotheses as are asked for, or more, the best are popped.
  pub pop_best_lem :
      (n : ℕ) (beams : List (Hypothesis F))
      → n ≤ length beams
      → (best : List (Hypothesis F)) × (pop_best fl n (sort_by_score fl beams) ≡ ok best)
        × (length best ≡ n)
        × AreBestOf best beams
  pop_best_lem n beams h =
      let sorted = sort_by_score fl beams in
      let r = reverse sorted in
      let size : length r ≡ length beams =
        omega (arith, length-reverse sorted, length-sort_by_score fl beams) in
      let (down, over) =
        take-IsDescending n r (reverse-IsDescending sorted (sort_by_score-IsAscending beams)) in
      (
        take n r,
        rw (reverse-reverse sorted) at (pop_best-reverse fl n r (omega (arith, size))),
        omega (arith, length-take n r, size),
        (
          drop n r,
          rw (take-append-drop n r) (Perm.trans (reverse_perm sorted) (sort_by_score-perm beams)),
          down,
          over,
        ),
      )
