-- ===== src/Generation/BeamSearch/Loop/Ends.antt =====
-- On the loop of `generate_beam_search`: it ends, and no round panics.
use mathlib.Core.List.{flatten}
use rust_bert.Prelude.{
  ℕ, zero, suc, ◌+◌, ◌*◌, ◌≤◌, ◌<◌, ◌≡◌, refl, ap, ◌∙◌, Bool, Option, some, List, [], ◌∷◌, ◌++◌,
  map, arith, map_option, length, All, length-map,
}
use rust_bert.Prelude.Outcome.{ok, traverse}
use rust_bert.Float.{Floats}
use rust_bert.Generation.BadWords.{Scores}
use rust_bert.Generation.Greedy.Ends.{BansRun}
use rust_bert.Generation.Candidates.{Candidate, first_eos, candidate_rows, masked_select}
use rust_bert.Generation.Beam.{BeamHypotheses}
use rust_bert.Generation.BeamSearch.{
  best_score, offer_rows, BeamOptions, BeamDecoder, Search, Round, go_on, stop,
}
use rust_bert.Generation.BeamSearch.Loop.{round, search_loop, close_inputs}
use rust_bert.Generation.BeamSearch.Loop.Inputs.{
  AreKept, AreBelow, offer_rows_lem, close_inputs_lem,
}
use rust_bert.Generation.BeamSearch.Loop.Chosen.{
  AreCandidates, chosen_lem, candidate_rows_below, best_scores_lem,
}
use rust_bert.Generation.BeamSearch.Loop.Rounds.{
  IsSearch, AfterRound, extend_rows_lem, beam_process_total, next_round_lem, round_run,
}

-- What `topk` and the draw without replacement give: for each input twice as many candidates as beams, at
-- different places of its part of the scores.
abbrev pub FindsCandidates : {S C F : Type 0} → ℕ → ℕ → BeamDecoder S C F → Type 0
FindsCandidates {S} {C} {F} n batch model =
    (beam_scores : List F) (p : S) (c : C)
    → length beam_scores ≡ batch * n
    → (length (model.best_candidates beam_scores p c).0 ≡ batch)
      × AreCandidates model.vocab_size n (model.best_candidates beam_scores p c).0

-- The options of a search with the limit `m`: padding, an end of sequence and a maximal length are given, and
-- there is a beam.
abbrev pub AreBounded : {F : Type 0} → ℕ → ℕ → List ℕ → ℕ → BeamOptions F → Type 0
AreBounded m eos others pad opt =
    (0 < opt.num_beams)
    × (opt.common.max_length ≡ some m)
    × (opt.common.pad_token_id ≡ some pad)
    × (opt.common.eos_token_ids ≡ some (eos ∷ others))

pub first_of_some :
    (ids : Option (List ℕ)) (eos : ℕ) (others : List ℕ)
    → ids ≡ some (eos ∷ others)
    → first_eos ids ≡ ok (some eos)
unfolding first_eos
first_of_some ids eos others e = rw e

pub some_rows : (k a b : ℕ) → k ≡ a * b → 0 < a → 0 < b → 0 < k
some_rows k a b e p q = grind (arith, e, p, q)

room_for : (k a b n : ℕ) → k ≡ b * n → a ≡ b → 0 * n + a * n ≤ k
room_for k a b n e f = rw f (omega (arith, e))

rows_within :
    (k k' : ℕ) (rows : List (List ℕ))
    → k ≡ k'
    → All (λ ids. length ids ≡ k) rows
    → All (λ ids. length ids ≤ k') rows
rows_within k k' [] e a = tt
rows_within k k' (r ∷ rows) e a = (omega (arith, e, a.0), rows_within k k' rows e a.1)

module _ {S C F : Type 0} (fl : Floats F) (opt : BeamOptions F) (scores : Scores S F)
    (model : BeamDecoder S C F) (batch m eos : ℕ) (others : List ℕ) (pad : ℕ)
    (bounded : AreBounded m eos others pad opt) (some_input : 0 < batch)
    (some_token : 0 < model.vocab_size) (bans : BansRun scores opt.common)
    (finds : FindsCandidates opt.num_beams batch model) where
  -- The loops over the inputs, on candidates that were found: what they leave.
  abbrev Closing : Search C F → List (List (F × ℕ)) → Type 0
  Closing s found =
      let rows = candidate_rows model.vocab_size opt.num_beams 0 found in
      (tops : List F) × (bs : List (BeamHypotheses F)) × (ds : List Bool) × (next : List
        (Candidate F))
      × (traverse (best_score fl) rows ≡ ok tops)
      × (offer_rows fl s opt.num_beams (some eos) rows s.done s.hypotheses ≡ ok bs)
      × (close_inputs fl opt s.current_length 0 tops s.done bs
            (flatten (map (masked_select (some eos) opt.num_beams 0) rows))
          ≡ ok (ds, next))
      × AreKept opt.num_beams s.current_length bs ds
      × (length ds ≡ batch)
      × (length next ≡ batch * opt.num_beams)
      × AreBelow (length s.rows) next

  closing_lem :
      (s : Search C F) (found : List (List (F × ℕ)))
      → IsSearch opt.num_beams batch s
      → length found ≡ batch
      → AreCandidates model.vocab_size opt.num_beams found
      → Closing s found
  closing_lem s found v count law =
      let (some_beam, _, padded, _) = bounded in
      let n = opt.num_beams in
      let v' = model.vocab_size in
      let k = length s.rows in
      let room = room_for k (length found) batch n v.rows_size count in
      let rows = candidate_rows v' n 0 found in
      let (tops, best, tops_size) =
        best_scores_lem (some eos) v' n some_token fl 0 found some_beam law in
      let (same, below) = candidate_rows_below (some eos) v' n some_token 0 k found room law in
      let (size, next_below) = chosen_lem (some eos) v' n some_token 0 k found room law in
      let (bs, offered, kept) =
        offer_rows_lem fl s n s.current_length some_beam v.unsaved
          (rows_within s.current_length s.current_length s.rows refl v.rows_length) (some eos) rows
          s.done s.hypotheses (omega (arith, same, count, v.inputs)) below v.kept in
      let chosen = flatten (map (masked_select (some eos) n 0) rows) in
      let (ds, next, closed, kept', ds_size, next_size, next_below') =
        close_inputs_lem fl opt n s.current_length pad k refl padded
          (some_rows k batch n v.rows_size some_input some_beam) s.current_length 0 tops s.done bs
          chosen (omega (arith, tops_size, count, v.inputs)) kept
          (room_for (length chosen) (length s.done) (length found) n size
            (omega (arith, v.inputs, count)))
          next_below in
      (
        tops,
        bs,
        ds,
        next,
        best,
        offered,
        closed,
        kept',
        ds_size ∙ v.inputs,
        next_size ∙ size ∙ ap (λ a. a * n) count,
        next_below',
      )

  pub round_lem :
      (s : Search C F)
      → IsSearch opt.num_beams batch s
      → s.current_length < m
      → (r : Round C F) × (round fl opt scores model s ≡ ok r)
        × AfterRound opt.num_beams batch s.current_length m r
  round_lem s v h =
      let (some_beam, limit, _, listed) = bounded in
      let first = first_of_some opt.common.eos_token_ids eos others listed in
      let output = model.forward s.rows s.attention s.past in
      let (p, processed) =
        beam_process_total fl opt scores model s.current_length s.rows output.0 bans
          v.rows_length in
      let answer = model.best_candidates s.beam_scores p output.1 in
      let (count, law) = finds s.beam_scores p output.1 v.scores_size in
      let (tops, bs, ds, next, best, offered, closed, kept, inputs, whole, below) =
        closing_lem s answer.0 v count law in
      let beam_scores = map (λ (c : Candidate F). c.score) next in
      let s' : Search C F = record s {
        beam_scores = beam_scores;
        hypotheses = bs;
        done = ds;
        saved = map_option (λ steps. steps ++ beam_scores ∷ []) s.saved;
        past = answer.1;
      } in
      let searching : IsSearch opt.num_beams batch s' = record {
        rows_size = v.rows_size;
        rows_length = v.rows_length;
        scores_size = length-map (λ (c : Candidate F). c.score) next ∙ whole;
        kept = kept;
        inputs = inputs;
        unsaved = rw v.unsaved refl;
      } in
      let (rows', extended, rows_size, longer) =
        extend_rows_lem fl opt s.current_length s.rows next v.rows_length below in
      let (r, run, after) =
        next_round_lem fl opt scores model opt.num_beams batch m s' rows' next limit h searching
          extended (rows_size ∙ whole) longer in
      (r, round_run fl opt scores model s processed first best offered closed ∙ run, after)

  loop_run :
      (fuel : ℕ) (s : Search C F) {r : Round C F}
      → round fl opt scores model s ≡ ok r
      → search_loop fl opt scores model (suc fuel) s
        ≡ elim r [ stop s' ↦ ok (some s') | go_on s' ↦ search_loop fl opt scores model fuel s' ]
  unfolding search_loop
  loop_run fuel s e = rw e

  -- With padding, an end of sequence and a maximal length, a beam, an input and a token of the vocabulary, bad
  -- words that do not make the step panic and candidates as `topk` gives them, from a well-formed state below
  -- the maximal length: fuel for the tokens that are left ends the loop, no round panics, the rows are as
  -- many as the beams of all the inputs, of one length, within the limit, and each input has at most as
  -- many hypotheses as beams, and as many if it is done.
  pub search_loop-IsSearch :
      (fuel : ℕ) (s : Search C F)
      → IsSearch opt.num_beams batch s
      → s.current_length < m
      → m ≤ fuel + s.current_length
      → (s' : Search C F) × (search_loop fl opt scores model fuel s ≡ ok (some s'))
        × IsSearch opt.num_beams batch s'
        × (s'.current_length ≤ m)
  search_loop-IsSearch zero s v h f = absurd (omega (arith, h, f))
  search_loop-IsSearch (suc fuel) s v h f =
      let (r, run, after) = round_lem s v h in
      (elim r
          as (λ r.
            round fl opt scores model s ≡ ok r
            → AfterRound opt.num_beams batch s.current_length m r
            → (s' : Search C F) × (search_loop fl opt scores model (suc fuel) s ≡ ok (some s'))
              × IsSearch opt.num_beams batch s'
              × (s'.current_length ≤ m)) [
                | stop s' ↦ λ run after. (s', loop_run fuel s run, after.0, after.1)
                | go_on s' ↦ λ run after.
                    let (s'', rest, v'', within) =
                      search_loop-IsSearch fuel s' after.0 (omega (arith, after.1, after.2))
                        (omega (arith, f, after.1)) in
                    (s'', loop_run fuel s run ∙ rest, v'', within)
              ])
        run after
