-- ===== src/Generation/BeamSearch.antt =====
-- pipelines/generation_utils.rs: `generate_beam_search` with one beam group (`num_beam_groups` is `None` or
-- `Some(1)`, so that there is no diversity penalty). The language model, its cache, the best candidates and
-- the functions of the trait on the scores are the record `BeamDecoder`.
pub mod Loop
pub mod Kept
pub mod Unsaved
mod Tests
use rust_bert.Prelude.{
  ℕ, suc, ◌+◌, Bool, true, ◌&&◌, ◌||◌, Option, none, some, List, [], ◌∷◌, ◌++◌, ltb, leb,
  if◌then◌else◌, length, get_elem?, take, drop, replicate, position,
}
use rust_bert.Prelude.Outcome.{Outcome, ok, panics, ◌>>=◌, unwrap, traverse}
use rust_bert.Float.{Floats}
use rust_bert.Generation.Beam.{Hypothesis, BeamHypotheses, new, add, is_done}
use rust_bert.Generation.BadWords.{Scores, ban_step}
use rust_bert.Generation.Greedy.{Options, forbid_eos, ban_ngrams, at_max_length}
use rust_bert.Generation.Candidates.{
  Candidate, first_eos, is_eos, candidate_rows, masked_select, max_score,
}
use rust_bert.Generation.Ranking.{best_hypotheses}
use rust_bert.Generation.Decoded.{Cells, decode_hypotheses}

pub record BeamOptions (F : Type 0) : Type 0 where
  pub common : Options
  pub num_beams : ℕ
  pub num_return_sequences : ℕ
  pub do_sample : Bool
  pub length_penalty : F
  pub early_stopping : Bool
  pub output_scores : Bool

pub record BeamDecoder (S C F : Type 0) : Type 0 where
  -- `prepare_inputs_for_generation`, `forward_t` and the scores of the last position
  pub forward : List (List ℕ) → List (List ℕ) → C → S × C
  -- `enforce_repetition_penalty`, the identity for a penalty of at most 1
  pub repetition : List (List ℕ) → S → S
  -- the division by a temperature above 1
  pub temperature : S → S
  pub prepare_scores : ℕ → S → S
  pub log_softmax : S → S
  -- `apply_prefix_allowed_tokens_function`, the identity without such a function
  pub allowed : List (List ℕ) → S → S
  -- for each input, from the scores of its beams, the best of the sums and their flat indices
  pub best_candidates : List F → S → C → List (List (F × ℕ)) × C
  -- `reorder_cache`, of the encoder's outputs too
  pub reorder_cache : List ℕ → C → C
  pub vocab_size : ℕ

-- The variables that the loop changes; `saved` is `saved_beam_scores`.
pub record Search (C F : Type 0) : Type 0 where
  pub rows : List (List ℕ)
  pub attention : List (List ℕ)
  pub beam_scores : List F
  pub hypotheses : List (BeamHypotheses F)
  pub done : List Bool
  pub saved : Option (List (List F))
  pub past : C
  pub current_length : ℕ

-- Whether the loop goes on from the state or breaks with it.
pub data Round (C F : Type 0) : Type 0 where
  go_on : Search C F → Round C F
  stop : Search C F → Round C F

-- `Tensor::stack` of the saved scores, at one row: the list of none of them panics.
pub scores_of_beam : {F : Type 0} → Option (List (List F)) → ℕ → Outcome (Option (List F))
unfolding traverse
scores_of_beam none beam = ok none
scores_of_beam (some []) beam = panics
scores_of_beam (some (step ∷ steps)) beam = do
  column ← traverse (λ scores. unwrap (get_elem? scores beam)) (step ∷ steps)
  ok (some column)

-- `narrow(0, start, n).fill_(v)`: out of range it panics.
pub fill_range : {A : Type 0} → ℕ → ℕ → A → List A → Outcome (List A)
fill_range start n v xs =
    if leb (start + n) (length xs)
    then ok (take start xs ++ replicate n v ++ drop (start + n) xs)
    else panics

pub all_true : List Bool → Bool
all_true [] = true
all_true (d ∷ done) = d && all_true done

module _ {F : Type 0} (fl : Floats F) where
  -- `next_scores.max_dim(1)`, on one row.
  pub best_score : List (Candidate F) → Outcome F
  unfolding max_score
  best_score [] = panics
  best_score (c ∷ row) = ok (max_score fl c.score row)

  -- What the beams of a done input go on with.
  pub closed_beam : ℕ → Candidate F
  closed_beam pad = record { score = fl.zero_f; token = pad; beam = 0 }

  -- `add` with the scores of one beam that `get` reads from the saved ones: those of one step are a tensor without
  -- a dimension after `squeeze_dim(0)`, on which `diff` panics where the hypothesis is kept.
  pub add_saved : BeamHypotheses F → List ℕ → F → Option (List F) → Outcome (BeamHypotheses F)
  add_saved b ids sum (some (step ∷ [])) =
      if ltb (length b.beams) b.num_beams
        || fl.gtb (fl.normalise sum (length ids) b.length_penalty) b.worst_score
      then panics
      else ok b
  add_saved b ids sum token_scores = add fl b ids sum token_scores

module _ {C F : Type 0} (fl : Floats F) where
  -- One position of `eos_pos`, of an input that is not done: the hypothesis without the token is added,
  -- unless the position is beyond the number of beams.
  pub offer :
      Search C F → ℕ → Option ℕ → ℕ → Candidate F → BeamHypotheses F → Outcome (BeamHypotheses F)
  unfolding is_eos scores_of_beam add_saved
  offer s num_beams eos position c b =
      if is_eos eos c && ltb position num_beams
      then (do
        ids ← unwrap (get_elem? s.rows c.beam)
        token_scores ← scores_of_beam s.saved c.beam
        add_saved fl b ids c.score token_scores)
      else ok b

  -- The positions of one input, from one on.
  pub offer_row :
      Search C F
      → ℕ
      → Option ℕ
      → ℕ
      → List (Candidate F)
      → BeamHypotheses F
      → Outcome (BeamHypotheses F)
  unfolding offer
  offer_row s num_beams eos position [] b = ok b
  offer_row s num_beams eos position (c ∷ row) b = do
    b' ← offer s num_beams eos position c b
    offer_row s num_beams eos (suc position) row b'

  -- The loop over `eos_pos`.
  pub offer_rows :
      Search C F
      → ℕ
      → Option ℕ
      → List (List (Candidate F))
      → List Bool
      → List (BeamHypotheses F)
      → Outcome (List (BeamHypotheses F))
  unfolding offer_row
  offer_rows s num_beams eos (row ∷ rows) (d ∷ done) (b ∷ hypotheses) = do
    b' ← if d then ok b else offer_row s num_beams eos 0 row b
    hypotheses' ← offer_rows s num_beams eos rows done hypotheses
    ok (b' ∷ hypotheses')
  offer_rows s num_beams eos [] done hypotheses = ok []
  offer_rows s num_beams eos (row ∷ rows) [] hypotheses = ok []
  offer_rows s num_beams eos (row ∷ rows) (d ∷ done) [] = ok []
