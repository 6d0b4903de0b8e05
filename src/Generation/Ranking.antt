-- ===== src/Generation/Ranking.antt =====
-- pipelines/generation_utils.rs: at the end of `generate_beam_search`, the hypotheses of each input are
-- sorted by their scores and the best are popped. `sort_by_key` is stable.
pub mod Sorted
use rust_bert.Prelude.{ℕ, zero, suc, List, [], ◌∷◌, ◌++◌, if◌then◌else◌, last?, but_last}
use rust_bert.Prelude.Outcome.{Outcome, ok, ◌>>=◌, unwrap}
use rust_bert.Float.{Floats}
use rust_bert.Generation.Beam.{Hypothesis, BeamHypotheses}

module _ {F : Type 0} (fl : Floats F) where
  pub insert_by_score : Hypothesis F → List (Hypothesis F) → List (Hypothesis F)
  insert_by_score h [] = h ∷ []
  insert_by_score h (g ∷ beams) =
      if fl.ord_leb h.score g.score then h ∷ g ∷ beams else g ∷ insert_by_score h beams

  pub sort_by_score : List (Hypothesis F) → List (Hypothesis F)
  unfolding insert_by_score
  sort_by_score [] = []
  sort_by_score (h ∷ beams) = insert_by_score h (sort_by_score beams)

  -- `pop().unwrap()`, `n` times.
  pub pop_best : ℕ → List (Hypothesis F) → Outcome (List (Hypothesis F))
  pop_best zero beams = ok []
  pop_best (suc n) beams = do
    best ← unwrap (last? beams)
    others ← pop_best n (but_last beams)
    ok (best ∷ others)

  -- The loop over the inputs, `n` being the number of sequences to return for each.
  unfoldable pub best_hypotheses : ℕ → List (BeamHypotheses F) → Outcome (List (Hypothesis F))
  unfolding sort_by_score pop_best
  best_hypotheses n [] = ok []
  best_hypotheses n (b ∷ hypotheses) = do
    best ← pop_best n (sort_by_score b.beams)
    others ← best_hypotheses n hypotheses
    ok (best ++ others)
