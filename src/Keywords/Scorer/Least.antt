-- ===== src/Keywords/Scorer/Least.antt =====
-- On the combination of words that `max_sum_score` chooses.
use mathlib.Core.Bool.{false≢true}
use rust_bert.Prelude.{
  ℕ, suc, ◌≡◌, refl, sym, ap, ◌∙◌, ◌⊎◌, inl, inr, true, false, not, none, some, List, [], ◌∷◌,
  Bool-cases, get_elem?, All,
}
use rust_bert.Float.{Floats, IsOrdered}
use rust_bert.Generation.Beam.Worst.{Le, le_refl, not_le}
use rust_bert.Keywords.Scorer.{Tensors, Similarities, best_combination}

module _ {F : Type 0} (t : Tensors F) (s : Similarities F) (fl : Floats F) (o : IsOrdered fl) where
  abbrev pub IsBelow : F → List (List ℕ) → Type 0
  IsBelow score = All (λ c. fl.ord_leb score (s.sum_of c) ≡ true)

  -- The score that is kept is the sum of its combination and at most the sums of all of them.
  abbrev pub IsLeast : List (List ℕ) → F × List ℕ → Type 0
  IsLeast combinations (score, c) = (score ≡ s.sum_of c) × IsBelow score combinations

  IsBelow-of_le :
      (a b : F) (cs : List (List ℕ)) → fl.ord_leb a b ≡ true → IsBelow b cs → IsBelow a cs
  IsBelow-of_le a b [] h k = tt
  IsBelow-of_le a b (c ∷ cs) h k = (o.transitive a b (s.sum_of c) h k.0, IsBelow-of_le a b cs h k.1)

  gtb_le : (a b : F) → fl.gtb a b ≡ true → Le fl o b a
  gtb_le a b g = elim (Bool-cases (fl.ord_leb a b)) [
    | inl k ↦ absurd (false≢true (sym (ap not k) ∙ sym (o.gtb_not a b) ∙ g))
    | inr k ↦ not_le fl o a b k
  ]

  not_gtb_le : (a b : F) → fl.gtb a b ≡ false → Le fl o a b
  not_gtb_le a b g = elim (Bool-cases (fl.ord_leb a b)) [
    | inl k ↦ k
    | inr k ↦ absurd (false≢true (sym g ∙ o.gtb_not a b ∙ ap not k))
  ]

  -- What was the best before, or one of the list.
  abbrev IsOneOf : List ℕ → List (List ℕ) → List ℕ → Type 0
  IsOneOf b cs c = (c ≡ b) ⊎ ((i : ℕ) × (get_elem? cs i ≡ some c))

  best_from :
      (cs : List (List ℕ)) (score : F) (b : List ℕ)
      → score ≡ s.sum_of b
      → (best : F × List ℕ) × (best_combination t s fl (some (score, b)) cs ≡ some best)
        × IsLeast cs best
        × Le fl o best.0 score
        × IsOneOf b cs best.1
  unfolding best_combination
  best_from [] score b e = ((score, b), refl, (e, tt), le_refl fl o score, inl refl)
  best_from (c ∷ cs) score b e = elim (Bool-cases (fl.gtb score (s.sum_of c))) [
    | inl g ↦
        let (best, run, least, le, from) = best_from cs (s.sum_of c) c refl in
        (
          best,
          rw g run,
          (least.0, (le, least.1)),
          o.transitive best.0 (s.sum_of c) score le (gtb_le score (s.sum_of c) g),
          inr (elim from [ inl same ↦ (0, ap some (sym same)) | inr (i, at_i) ↦ (suc i, at_i) ]),
        )
    | inr g ↦
        let (best, run, least, le, from) = best_from cs score b e in
        (
          best,
          rw g run,
          (
            least.0,
            (o.transitive best.0 score (s.sum_of c) le (not_gtb_le score (s.sum_of c) g), least.1),
          ),
          le,
          elim from [ inl same ↦ inl same | inr (i, at_i) ↦ inr (suc i, at_i) ],
        )
  ]

  -- With totally ordered sums: of one combination or more, one is found, it is one of them, and the
  -- similarities between its words sum up to at most those of every other.
  pub best_combination_lem :
      (c : List ℕ) (cs : List (List ℕ))
      → (best : F × List ℕ) × (best_combination t s fl none (c ∷ cs) ≡ some best)
        × IsLeast (c ∷ cs) best
        × ((i : ℕ) × (get_elem? (c ∷ cs) i ≡ some best.1))
  unfolding best_combination
  best_combination_lem c cs =
      let (best, run, least, le, from) = best_from cs (s.sum_of c) c refl in
      (
        best,
        run,
        (least.0, (le, least.1)),
        elim from [ inl same ↦ (0, ap some (sym same)) | inr (i, at_i) ↦ (suc i, at_i) ],
      )
