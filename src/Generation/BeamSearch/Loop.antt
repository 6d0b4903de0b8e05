-- ===== src/Generation/BeamSearch/Loop.antt =====
-- pipelines/generation_utils.rs: the loop of `generate_beam_search`, and what follows it.
pub mod Inputs
pub mod Chosen
pub mod Rounds
pub mod Ends
pub mod Finish
pub mod Returned
use mathlib.Core.List.{flatten}
use rust_bert.Prelude.{
  ℕ, zero, suc, ◌+◌, ◌*◌, Bool, true, false, Option, none, some, List, [], ◌∷◌, ◌++◌, map,
  if◌then◌else◌, map_option, get_elem?, replicate,
}
use rust_bert.Prelude.Int.{pos}
use rust_bert.Prelude.Outcome.{Outcome, ok, ◌>>=◌, unwrap, traverse}
use rust_bert.Float.{Floats}
use rust_bert.Generation.Beam.{Hypothesis, BeamHypotheses, new, add, is_done}
use rust_bert.Generation.BadWords.{Scores, ban_step}
use rust_bert.Generation.Greedy.{Options, forbid_eos, ban_ngrams, at_max_length}
use rust_bert.Generation.Candidates.{Candidate, first_eos, candidate_rows, masked_select}
use rust_bert.Generation.Ranking.{best_hypotheses}
use rust_bert.Generation.Decoded.{Cells, decode_hypotheses}
use rust_bert.Generation.BeamSearch.{
  BeamOptions, BeamDecoder, Search, Round, go_on, stop, scores_of_beam, fill_range, all_true,
  best_score, offer_rows, closed_beam,
}

pub record Generated (F : Type 0) : Type 0 where
  pub indices : List Cells
  pub scores : Option (List F)
  pub token_scores : Option (List (List F))

module _ {F : Type 0} (fl : Floats F) (opt : BeamOptions F) where
  -- The loop that sets `done`, from an input on: the beams of a done input are overwritten.
  pub close_inputs :
      ℕ
      → ℕ
      → List F
      → List Bool
      → List (BeamHypotheses F)
      → List (Candidate F)
      → Outcome (List Bool × List (Candidate F))
  unfolding fill_range closed_beam is_done
  close_inputs current_length batch_index (best ∷ scores) (true ∷ done) (b ∷ hypotheses) next = do
    pad ← unwrap opt.common.pad_token_id
    next' ← fill_range (batch_index * opt.num_beams) opt.num_beams (closed_beam fl pad) next
    (done', closed) ← close_inputs current_length (suc batch_index) scores done hypotheses next'
    ok (true ∷ done', closed)
  close_inputs current_length batch_index (best ∷ scores) (false ∷ done) (b ∷ hypotheses) next = do
    (done', closed) ← close_inputs current_length (suc batch_index) scores done hypotheses next
    ok (is_done fl b best current_length ∷ done', closed)
  close_inputs current_length batch_index [] done hypotheses next = ok ([], next)
  close_inputs current_length batch_index (best ∷ scores) [] hypotheses next = ok ([], next)
  close_inputs current_length batch_index (best ∷ scores) (d ∷ done) [] next = ok ([], next)

  -- The row of `input_ids` that a beam goes on with.
  pub extend_row : List (List ℕ) → Candidate F → Outcome (List ℕ)
  extend_row rows c = do ids ← unwrap (get_elem? rows c.beam); ok (ids ++ c.token ∷ [])

  module _ {S C : Type 0} (scores : Scores S F) (model : BeamDecoder S C F) where
    -- The scores of the next token, in the order in which the source changes them.
    unfoldable pub beam_process : ℕ → List (List ℕ) → S → Outcome S
    unfolding forbid_eos ban_ngrams
    beam_process current_length ids s = do
      let logits = model.prepare_scores current_length (model.temperature (model.repetition ids s))
      let prepared = forbid_eos scores opt.common current_length (model.log_softmax logits)
      words ← ban_step scores opt.common.bad_word_ids ids prepared
      ngrams ← ban_ngrams scores opt.common current_length ids words
      ok (model.allowed ids ngrams)

    -- The end of the body, from the scores that are saved on: `next` are the beams.
    pub next_round : Search C F → List (Candidate F) → Outcome (Round C F)
    unfolding all_true extend_row traverse at_max_length
    next_round s next = if all_true s.done then ok (stop s) else (do
      rows ← traverse (extend_row s.rows) next
      let n = s.current_length + 1
      let s' = record s { rows = rows; current_length = n }
      ok (
          if at_max_length opt.common n
          then stop s'
          else go_on (record s' {
            past = model.reorder_cache (map (λ (c : Candidate F). c.beam) next) s.past;
            attention =
                if opt.common.is_encoder_decoder
                then s.attention
                else map (λ a. a ++ 1 ∷ []) s.attention;
          })))

    -- The body of the loop.
    unfoldable pub round : Search C F → Outcome (Round C F)
    unfolding beam_process first_eos flatten candidate_rows masked_select best_score offer_rows
        close_inputs next_round
    round s = do
      let output = model.forward s.rows s.attention s.past
      prepared ← beam_process s.current_length s.rows output.0
      let found = model.best_candidates s.beam_scores prepared output.1
      eos ← first_eos opt.common.eos_token_ids
      let rows = candidate_rows model.vocab_size opt.num_beams 0 found.0
      max_scores ← traverse (best_score fl) rows
      hypotheses ← offer_rows fl s opt.num_beams eos rows s.done s.hypotheses
      (done, next) ←
          close_inputs s.current_length 0 max_scores s.done hypotheses
            (flatten (map (masked_select eos opt.num_beams 0) rows))
      let beam_scores = map (λ (c : Candidate F). c.score) next
      next_round
          (record s {
            beam_scores = beam_scores;
            hypotheses = hypotheses;
            done = done;
            saved = map_option (λ steps. steps ++ beam_scores ∷ []) s.saved;
            past = found.1;
          })
          next

    -- `loop`, with fuel; `none`: the fuel ran out.
    unfoldable pub search_loop : ℕ → Search C F → Outcome (Option (Search C F))
    unfolding round
    search_loop zero s = ok none
    search_loop (suc fuel) s = do
      r ← round s
      elim r [ stop s' ↦ ok (some s') | go_on s' ↦ search_loop fuel s' ]

  module _ {C : Type 0} where
    -- The last beams of an input that is not done, from the row `beam` on.
    pub add_beams : Search C F → ℕ → ℕ → BeamHypotheses F → Outcome (BeamHypotheses F)
    unfolding scores_of_beam
    add_beams s zero beam b = ok b
    add_beams s (suc left) beam b = do
      token_scores ← scores_of_beam s.saved beam
      score ← unwrap (get_elem? s.beam_scores beam)
      ids ← unwrap (get_elem? s.rows beam)
      b' ← add fl b ids score token_scores
      add_beams s left (suc beam) b'

    -- The loop over the inputs, from one on.
    pub finish :
        Search C F → ℕ → List Bool → List (BeamHypotheses F) → Outcome (List (BeamHypotheses F))
    unfolding add_beams
    finish s batch_index (d ∷ done) (b ∷ hypotheses) = do
      b' ← if d then ok b else add_beams s opt.num_beams (batch_index * opt.num_beams) b
      hypotheses' ← finish s (suc batch_index) done hypotheses
      ok (b' ∷ hypotheses')
    finish s batch_index [] hypotheses = ok []
    finish s batch_index (d ∷ done) [] = ok []

  -- `output_num_return_sequences_per_batch`
  unfoldable pub sequences_per_input : ℕ
  sequences_per_input = if opt.do_sample then 1 else opt.num_return_sequences

  -- What is returned for the hypotheses.
  pub output_of : List (BeamHypotheses F) → Outcome (Generated F)
  unfolding sequences_per_input best_hypotheses decode_hypotheses traverse
  output_of hypotheses = do
    best ← best_hypotheses fl sequences_per_input hypotheses
    token_scores ←
        if opt.output_scores
        then (do
          steps ← traverse (λ (h : Hypothesis F). unwrap h.token_scores) best
          ok (some steps))
        else ok none
    indices ← decode_hypotheses opt.common (map (λ (h : Hypothesis F). h.ids) best)
    ok (record {
      indices = indices;
      scores = if opt.output_scores then some (map (λ (h : Hypothesis F). h.score) best) else none;
      token_scores = token_scores;
    })

  -- The scores of the beams of one input at first.
  pub initial_scores : ℕ → List F
  initial_scores zero = []
  initial_scores (suc n) = fl.zero_f ∷ replicate n (fl.sub fl.zero_f fl.large)

  unfoldable pub initial_search :
      {C : Type 0} → List (List ℕ) → ℕ → ℕ → List (List ℕ) → C → Search C F
  unfolding initial_scores new flatten
  initial_search input_ids cur_len batch_size attention_mask cache = record {
    rows = input_ids;
    attention = attention_mask;
    beam_scores = flatten (replicate batch_size (initial_scores opt.num_beams));
    hypotheses = replicate batch_size (
        new fl opt.num_beams (map_option pos opt.common.max_length) opt.length_penalty
          opt.early_stopping);
    done = replicate batch_size false;
    saved = if opt.output_scores then some [] else none;
    past = cache;
    current_length = cur_len;
  }

  unfoldable pub generate_beam_search :
      {S C : Type 0}
      → Scores S F
      → BeamDecoder S C F
      → ℕ
      → List (List ℕ)
      → ℕ
      → ℕ
      → List (List ℕ)
      → C
      → Outcome (Option (Generated F))
  unfolding search_loop finish output_of initial_search
  generate_beam_search scores model fuel input_ids cur_len batch_size attention_mask cache = do
    ended ←
        search_loop scores model fuel
          (initial_search input_ids cur_len batch_size attention_mask cache)
    elim ended [
      | none ↦ ok none
      | some s ↦ do
        hypotheses ← finish s 0 s.done s.hypotheses
        output ← output_of hypotheses
        ok (some output)
    ]
