-- ===== src/Generation/BeamSearch/Loop/Returned.antt =====
-- On `generate_beam_search` as a whole: what it returns.
use mathlib.Core.Bool.{false≢true}
use mathlib.Core.List.{flatten}
use rust_bert.Prelude.{
  ℕ, zero, suc, ◌+◌, ◌*◌, ◌≤◌, ◌<◌, ◌≡◌, refl, ap, ◌∙◌, false, none, some, List, [], ◌∷◌, ◌++◌, map,
  arith, unwrap_or, map_option, length, replicate, length-append, length-replicate, All, All-append,
  length-map,
}
use rust_bert.Prelude.Int.{pos}
use rust_bert.Prelude.Outcome.{ok}
use rust_bert.Float.{Floats}
use rust_bert.Generation.Beam.{Hypothesis, BeamHypotheses, new}
use rust_bert.Generation.BadWords.{Scores}
use rust_bert.Generation.Greedy.Ends.{BansRun}
use rust_bert.Generation.Ranking.{best_hypotheses}
use rust_bert.Generation.Ranking.Sorted.{pop_best_total}
use rust_bert.Generation.Decoded.{Cells, decode_hypotheses}
use rust_bert.Generation.Decoded.Filled.{finished_rows, eos_token_lem, decode_hypotheses_lem}
use rust_bert.Generation.BeamSearch.{BeamOptions, BeamDecoder, Search}
use rust_bert.Generation.BeamSearch.Loop.{
  search_loop, finish, sequences_per_input, output_of, initial_scores, initial_search,
  generate_beam_search,
}
use rust_bert.Generation.BeamSearch.Kept.{AreWithin}
use rust_bert.Generation.BeamSearch.Loop.Inputs.{AreKept}
use rust_bert.Generation.BeamSearch.Loop.Rounds.{IsSearch}
use rust_bert.Generation.BeamSearch.Loop.Ends.{
  AreBounded, FindsCandidates, search_loop-IsSearch, some_rows,
}
use rust_bert.Generation.BeamSearch.Loop.Finish.{IsFull, finish_lem}

map_lengths :
    {F : Type 0} (l m : ℕ) (hs : List (Hypothesis F))
    → l ≤ m
    → AreWithin l hs
    → All (λ n. n ≤ m) (map length (map (λ (h : Hypothesis F). h.ids) hs))
map_lengths l m [] e w = tt
map_lengths l m (h ∷ hs) e w = (omega (arith, e, w.0), map_lengths l m hs e w.1)

module _ {F : Type 0} (fl : Floats F) where
  best_hypotheses_lem :
      (n l r : ℕ) (bs : List (BeamHypotheses F))
      → r ≤ n
      → All (IsFull n l) bs
      → (best : List (Hypothesis F)) × (best_hypotheses fl r bs ≡ ok best)
        × (length best ≡ length bs * r)
        × AreWithin l best
  unfolding best_hypotheses
  best_hypotheses_lem n l r [] h a = ([], refl, omega arith, tt)
  best_hypotheses_lem n l r (b ∷ bs) h (full, a) =
      let (best, run, size, within) =
        pop_best_total fl (λ h. length h.ids ≤ l) r b.beams (omega (arith, h, full.1)) full.0.2 in
      let (others, run', size', within') = best_hypotheses_lem n l r bs h a in
      (
        best ++ others,
        rw (run, run'),
        omega (arith, length-append best others, size, size'),
        All-append (λ h. length h.ids ≤ l) best others within within',
      )

module _ {F : Type 0} (fl : Floats F) (opt : BeamOptions F) where
  start_kept :
      (l batch : ℕ)
      → AreKept opt.num_beams l
          (replicate batch (
            new fl opt.num_beams
              (map_option pos opt.common.max_length)
              opt.length_penalty
              opt.early_stopping))
          (replicate batch false)
  unfolding new
  start_kept l zero = tt
  start_kept l (suc batch) =
      ((refl, omega arith, tt), λ e. absurd (false≢true e), start_kept l batch)

  length-initial_scores : (n : ℕ) → length (initial_scores fl opt n) ≡ n
  unfolding initial_scores
  length-initial_scores zero = refl
  length-initial_scores (suc n) = ap suc (length-replicate n _)

  length-start_scores :
      (batch n : ℕ) → length (flatten (replicate batch (initial_scores fl opt n))) ≡ batch * n
  unfolding flatten
  length-start_scores zero n = omega arith
  length-start_scores (suc batch) n = omega (
    arith,
    length-append (initial_scores fl opt n) (flatten (replicate batch (initial_scores fl opt n))),
    length-initial_scores n,
    length-start_scores batch n,
  )

  initial_length :
      {C : Type 0} (input_ids attention_mask : List (List ℕ)) (cur_len batch : ℕ) (cache : C)
      → (initial_search fl opt input_ids cur_len batch attention_mask cache).current_length
        ≡ cur_len
  unfolding initial_search
  initial_length input_ids attention_mask cur_len batch cache = refl

  pub initial_search-IsSearch :
      {C : Type 0} (input_ids attention_mask : List (List ℕ)) (cur_len batch : ℕ) (cache : C)
      → length input_ids ≡ batch * opt.num_beams
      → All (λ ids. length ids ≡ cur_len) input_ids
      → opt.output_scores ≡ false
      → IsSearch opt.num_beams batch
          (initial_search fl opt input_ids cur_len batch attention_mask cache)
  unfolding initial_search
  initial_search-IsSearch input_ids attention_mask cur_len batch cache size same plain = record {
    rows_size = size;
    rows_length = same;
    scores_size = length-start_scores batch opt.num_beams;
    kept = start_kept cur_len batch;
    inputs = length-replicate batch false;
    unsaved = rw plain refl;
  }

module _ {S C F : Type 0} (fl : Floats F) (opt : BeamOptions F) (scores : Scores S F)
    (model : BeamDecoder S C F) (batch m eos : ℕ) (others : List ℕ) (pad : ℕ)
    (bounded : AreBounded m eos others pad opt) (some_input : 0 < batch)
    (some_token : 0 < model.vocab_size) (bans : BansRun scores opt.common)
    (finds : FindsCandidates opt.num_beams batch model) where
  returned_run :
      (fuel cur_len : ℕ) (input_ids attention_mask : List (List ℕ)) (cache : C) {s : Search C F}
      {bs : List (BeamHypotheses F)} {best : List (Hypothesis F)} {cells : List Cells}
      → opt.output_scores ≡ false
      → search_loop fl opt scores model fuel
          (initial_search fl opt input_ids cur_len batch attention_mask cache)
        ≡ ok (some s)
      → finish fl opt s 0 s.done s.hypotheses ≡ ok bs
      → best_hypotheses fl (sequences_per_input fl opt) bs ≡ ok best
      → decode_hypotheses opt.common (map (λ (h : Hypothesis F). h.ids) best) ≡ ok cells
      → generate_beam_search fl opt scores model fuel input_ids cur_len batch attention_mask cache
        ≡ ok (some (record { indices = cells; scores = none; token_scores = none }))
  unfolding generate_beam_search output_of
  returned_run fuel cur_len input_ids attention_mask cache plain a b c d =
      rw a (rw b (rw c (rw plain (rw d))))

  decode_best :
      (best : List (List ℕ))
      → 0 < length best
      → All (λ n. n ≤ m) (map length best)
      → decode_hypotheses opt.common best ≡ ok (finished_rows m eos pad best)
  decode_best [] some_row h = absurd (omega (arith, some_row))
  decode_best (ids ∷ best) some_row h =
      let (_, limit, padded, listed) = bounded in
      let filler : unwrap_or opt.common.pad_token_id eos ≡ pad = rw padded in
      decode_hypotheses_lem opt.common eos m (eos_token_lem opt.common eos others listed) limit ids
        best h
      ∙ ap (λ p. ok (finished_rows m eos p (ids ∷ best))) filler

  -- A beam search over at least one input, with padding, an end of sequence and a maximal length, a beam and
  -- a vocabulary that is not empty, bad words that do not make the step panic and candidates as `topk` gives
  -- them, that begins below the maximal length and without scores asked for: fuel for the tokens that are
  -- left is enough, and nothing panics. For at least one sequence to return of each input and at most as
  -- many as beams, that many times the inputs are returned, none longer than the maximal length, and the
  -- matrix holds them as rows of one width, each ended where it is shorter than the width and padded.
  pub generate_beam_search-returns :
      (fuel cur_len : ℕ) (input_ids attention_mask : List (List ℕ)) (cache : C)
      → length input_ids ≡ batch * opt.num_beams
      → All (λ ids. length ids ≡ cur_len) input_ids
      → opt.output_scores ≡ false
      → cur_len < m
      → m ≤ fuel + cur_len
      → 0 < sequences_per_input fl opt
      → sequences_per_input fl opt ≤ opt.num_beams
      → (best : List (List ℕ)) × (generate_beam_search fl opt scores model fuel input_ids cur_len
            batch attention_mask cache
          ≡ ok (
              some (record {
                indices = finished_rows m eos pad best;
                scores = none;
                token_scores = none;
              })))
        × (length best ≡ batch * sequences_per_input fl opt)
        × All (λ n. n ≤ m) (map length best)
  generate_beam_search-returns fuel cur_len input_ids attention_mask cache size same plain below
        enough one few =
      let r = sequences_per_input fl opt in
      let start = initial_search fl opt input_ids cur_len batch attention_mask cache in
      let v =
        initial_search-IsSearch fl opt input_ids attention_mask cur_len batch cache size same
          plain in
      let at_start = initial_length fl opt input_ids attention_mask cur_len batch cache in
      let (s, ran, v', within) =
        search_loop-IsSearch fl opt scores model batch m eos others pad bounded some_input
          some_token bans finds fuel start v (omega (arith, at_start, below))
          (omega (arith, at_start, enough)) in
      let (bs, ended, inputs, full) =
        finish_lem fl opt s batch v' 0 s.done s.hypotheses (room v'.inputs) bounded.0 v'.kept in
      let (best, ranked, count, short) =
        best_hypotheses_lem fl opt.num_beams s.current_length r bs few full in
      let ids = map (λ (h : Hypothesis F). h.ids) best in
      let lengths = map_lengths s.current_length m best within short in
      let total : length ids ≡ batch * r =
        length-map (λ (h : Hypothesis F). h.ids) best
        ∙ count
        ∙ ap (λ k. k * r) (inputs ∙ v'.inputs) in
      let decoded = decode_best ids (some_rows (length ids) batch r total some_input one) lengths in
      (
        ids,
        returned_run fuel cur_len input_ids attention_mask cache plain ran ended ranked decoded,
        total,
        lengths,
      )
    where
      room : {n : ℕ} → n ≡ batch → 0 * opt.num_beams + n * opt.num_beams ≤ batch * opt.num_beams
      room e = rw e (omega arith)
