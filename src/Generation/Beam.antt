-- ===== src/Generation/Beam.antt =====
-- pipelines/generation_utils.rs: `BeamHypotheses`, the best hypotheses of one input.
pub mod Worst
pub mod Best
use rust_bert.Prelude.{
  ℕ, Bool, true, false, ◌||◌, Option, List, [], ◌∷◌, ◌++◌, ltb, if◌then◌else◌, map_option, length,
}
use rust_bert.Prelude.Int.{ℤ, pos, ◌-ℤ◌}
use rust_bert.Prelude.Outcome.{Outcome, ok, panics, ◌>>=◌}
use rust_bert.Float.{Floats}

pub record Hypothesis (F : Type 0) : Type 0 where
  pub score : F
  pub ids : List ℕ
  pub token_scores : Option (List F)

pub record BeamHypotheses (F : Type 0) : Type 0 where
  pub max_length : Option ℤ
  pub length_penalty : F
  pub early_stopping : Bool
  pub num_beams : ℕ
  pub beams : List (Hypothesis F)
  pub worst_score : F

module _ {F : Type 0} (fl : Floats F) where
  unfoldable pub new : ℕ → Option ℤ → F → Bool → BeamHypotheses F
  new num_beams max_length length_penalty early_stopping = record {
    max_length = map_option (λ m. m -ℤ pos 1) max_length;
    length_penalty = length_penalty;
    early_stopping = early_stopping;
    num_beams = num_beams;
    beams = [];
    worst_score = fl.large;
  }

  -- `diff` of the accumulated scores, with a zero in front: `token_scores` is a tensor that has one dimension after
  -- `squeeze_dim(0)`.
  unfoldable pub differences : F → List F → List F
  differences last [] = []
  differences last (s ∷ rest) = fl.sub s last ∷ differences s rest

  -- `min_by_key` on the scores: the first of the least, from a first candidate on.
  unfoldable pub least_of : F → List (Hypothesis F) → F
  least_of least [] = least
  least_of least (h ∷ rest) = least_of (if fl.ord_leb least h.score then least else h.score) rest

  unfoldable pub least_score : List (Hypothesis F) → Outcome F
  unfolding least_of
  least_score [] = panics
  least_score (h ∷ rest) = ok (least_of h.score rest)

  -- `remove` at the position of the first least score: `h` is the candidate, which stands before `rest`.
  unfoldable pub without_least : Hypothesis F → List (Hypothesis F) → List (Hypothesis F)
  without_least h [] = []
  without_least h (g ∷ rest) =
      if fl.ord_leb h.score (least_of g.score rest) then g ∷ rest else h ∷ without_least g rest

  unfoldable pub remove_worst : List (Hypothesis F) → Outcome (List (Hypothesis F))
  unfolding without_least least_of
  remove_worst [] = panics
  remove_worst (h ∷ rest) = ok (without_least h rest)

  -- The beams after the push.
  unfoldable pub shrink : ℕ → List (Hypothesis F) → Outcome (List (Hypothesis F))
  unfolding remove_worst
  shrink num_beams beams = if ltb num_beams (length beams) then remove_worst beams else ok beams

  unfoldable pub scored : BeamHypotheses F → List ℕ → F → Option (List F) → Hypothesis F
  unfolding differences
  scored b hypothesis sum_log_probabilities token_scores = record {
    score = fl.normalise sum_log_probabilities (length hypothesis) b.length_penalty;
    ids = hypothesis;
    token_scores = map_option (differences fl.zero_f) token_scores;
  }

  unfoldable pub push : BeamHypotheses F → Hypothesis F → Outcome (BeamHypotheses F)
  unfolding shrink least_score
  push b h =
      if ltb (length b.beams) b.num_beams || fl.gtb h.score b.worst_score
      then (do
        beams ← shrink b.num_beams (b.beams ++ h ∷ [])
        worst ← least_score beams
        ok (record b { beams = beams; worst_score = worst }))
      else ok b

  unfoldable pub add : BeamHypotheses F → List ℕ → F → Option (List F) → Outcome (BeamHypotheses F)
  unfolding scored push
  add b hypothesis sum_log_probabilities token_scores =
      push b (scored b hypothesis sum_log_probabilities token_scores)

  unfoldable pub is_done : BeamHypotheses F → F → ℕ → Bool
  is_done b best_sum_log_probabilities current_length =
      if ltb (length b.beams) b.num_beams
      then false
      else if b.early_stopping
      then true
      else fl.geb b.worst_score
          (fl.normalise best_sum_log_probabilities current_length b.length_penalty)
