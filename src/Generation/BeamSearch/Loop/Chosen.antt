-- ===== src/Generation/BeamSearch/Loop/Chosen.antt =====
-- On the beams that a round of `generate_beam_search` goes on with, over all the inputs.
use mathlib.Core.List.{flatten}
use rust_bert.Prelude.{
  ℕ, suc, ◌+◌, ◌*◌, ◌≤◌, ◌<◌, ◌≡◌, refl, ap, Option, List, [], ◌∷◌, map, arith, length,
  length-append, All, All-append, AllDifferent,
}
use rust_bert.Prelude.Outcome.{ok, traverse}
use rust_bert.Float.{Floats}
use rust_bert.Generation.Candidates.{
  Candidate, candidate_of, candidate_rows, masked_select, max_score,
}
use rust_bert.Generation.Candidates.Count.{
  flat_indices, IsNext, masked_select_lem, candidates-IsNext,
}
use rust_bert.Generation.BeamSearch.{best_score}
use rust_bert.Generation.BeamSearch.Loop.Inputs.{AreBelow}

module _ {F : Type 0} where
  -- For each input, twice as many candidates as beams, each at its own place below `n * v`.
  abbrev pub AreCandidates : ℕ → ℕ → List (List (F × ℕ)) → Type 0
  AreCandidates v n = All (λ row.
      (length row ≡ n + n)
      × AllDifferent (flat_indices row)
      × All (λ f. f < n * v) (flat_indices row))

  below_of_next :
      (P : Candidate F → Type 0) (v n i k : ℕ) (row : List (Candidate F))
      → i * n + n ≤ k
      → All (λ c. IsNext v n i c × P c) row
      → AreBelow k row
  below_of_next P v n i k [] h a = tt
  below_of_next P v n i k (c ∷ row) h a =
      (omega (arith, h, a.0.0.2), below_of_next P v n i k row h a.1)

module _ {F : Type 0} (eos : Option ℕ) (v n : ℕ) (some_token : 0 < v) where
  abbrev chosen : ℕ → List (List (F × ℕ)) → List (Candidate F)
  chosen i rows = flatten (map (masked_select eos n 0) (candidate_rows v n i rows))

  -- As many beams go on as there are, and each extends a row of its input.
  pub chosen_lem :
      (i k : ℕ) (rows : List (List (F × ℕ)))
      → i * n + length rows * n ≤ k
      → AreCandidates v n rows
      → (length (flatten (map (masked_select eos n 0) (candidate_rows v n i rows)))
          ≡ length rows * n)
        × AreBelow k (flatten (map (masked_select eos n 0) (candidate_rows v n i rows)))
  unfolding candidate_rows flatten
  chosen_lem i k [] h a = (omega arith, tt)
  chosen_lem i k (row ∷ rows) h ((size, different, inside), a) =
      let next = masked_select eos n 0 (map (candidate_of v n i) row) in
      let (_, count, good) = masked_select_lem v n i eos row some_token size different inside in
      let (total, below) = chosen_lem (suc i) k rows (omega (arith, h)) a in
      (
        omega (arith, length-append next (chosen (suc i) rows), count, total),
        All-append (λ c. c.beam < k) next _ (below_of_next _ v n i k next (omega (arith, h)) good)
            below,
      )

  candidates_below :
      (i k : ℕ) (row : List (F × ℕ))
      → i * n + n ≤ k
      → All (λ f. f < n * v) (flat_indices row)
      → AreBelow k (map (candidate_of v n i) row)
  candidates_below i k row h inside =
      go (map (candidate_of v n i) row) (candidates-IsNext v n i row some_token inside)
    where
      go : (cs : List (Candidate F)) → All (IsNext v n i) cs → AreBelow k cs
      go [] a = tt
      go (c ∷ cs) a = (omega (arith, h, a.0.2), go cs a.1)

  pub candidate_rows_below :
      (i k : ℕ) (rows : List (List (F × ℕ)))
      → i * n + length rows * n ≤ k
      → AreCandidates v n rows
      → (length (candidate_rows {F = F} v n i rows) ≡ length rows)
        × All (AreBelow k) (candidate_rows v n i rows)
  unfolding candidate_rows
  candidate_rows_below i k [] h a = (refl, tt)
  candidate_rows_below i k (row ∷ rows) h ((size, different, inside), a) =
      let (same, below) = candidate_rows_below (suc i) k rows (omega (arith, h)) a in
      (ap suc same, (candidates_below i k row (omega (arith, h)) inside, below))

  -- The greatest score of each input: none has no candidate.
  pub best_scores_lem :
      (fl : Floats F) (i : ℕ) (rows : List (List (F × ℕ)))
      → 0 < n
      → AreCandidates v n rows
      → (scores : List F) × (traverse (best_score fl) (candidate_rows v n i rows) ≡ ok scores)
        × (length scores ≡ length rows)
  unfolding candidate_rows traverse best_score
  best_scores_lem fl i [] p a = ([], refl, refl)
  best_scores_lem fl i ([] ∷ rows) p ((size, _, _), a) = absurd (omega (arith, p, size))
  best_scores_lem fl i ((c ∷ row) ∷ rows) p ((size, _, _), a) =
      let (scores, run, same) = best_scores_lem fl (suc i) rows p a in
      (
        max_score fl (candidate_of v n i c).score (map (candidate_of v n i) row) ∷ scores,
        rw run,
        ap suc same,
      )
