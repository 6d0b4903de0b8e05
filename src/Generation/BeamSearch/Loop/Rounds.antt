-- ===== src/Generation/BeamSearch/Loop/Rounds.antt =====
-- On a round of `generate_beam_search` and its loop.
use mathlib.Core.List.{flatten}
use rust_bert.Prelude.{
  ℕ, suc, ◌+◌, ◌*◌, ◌≤◌, ◌<◌, ◌≡◌, refl, ap, inl, inr, Bool, Option, none, some, List, [], ◌∷◌,
  ◌++◌, map, arith, leb, if◌then◌else◌, Bool-cases, map_option, length, length-append, All,
  get_elem?-All,
}
use rust_bert.Prelude.Outcome.{ok, traverse}
use rust_bert.Float.{Floats}
use rust_bert.Generation.Beam.{BeamHypotheses}
use rust_bert.Generation.BadWords.{Scores}
use rust_bert.Generation.Greedy.{at_max_length, forbid_eos}
use rust_bert.Generation.Greedy.Ends.{BansRun, ban_ngrams_total}
use rust_bert.Generation.Candidates.{Candidate, first_eos, candidate_rows, masked_select}
use rust_bert.Generation.BeamSearch.{
  BeamOptions, BeamDecoder, Search, Round, go_on, stop, all_true, best_score, offer_rows,
}
use rust_bert.Generation.BeamSearch.Loop.{close_inputs, extend_row, beam_process, next_round, round}
use rust_bert.Generation.BeamSearch.Kept.{IsKept-longer}
use rust_bert.Generation.BeamSearch.Loop.Inputs.{AreKept, AreBelow}

module _ {C F : Type 0} where
  -- A state of the search over `batch` inputs with `n` beams each: the rows are all of the current length,
  -- and the hypotheses at most as long. No scores are saved.
  pub record IsSearch (n batch : ℕ) (s : Search C F) : Type 0 where
    pub rows_size : length s.rows ≡ batch * n
    pub rows_length : All (λ (ids : List ℕ). length ids ≡ s.current_length) s.rows
    pub scores_size : length s.beam_scores ≡ batch * n
    pub kept : AreKept n s.current_length s.hypotheses s.done
    pub inputs : length s.done ≡ batch
    pub unsaved : s.saved ≡ none

  -- After a round from the length `current`: the loop goes on with rows one longer, below the limit `m`, or
  -- ends with rows within it.
  abbrev pub AfterRound : ℕ → ℕ → ℕ → ℕ → Round C F → Type 0
  AfterRound n batch current m (stop s) = IsSearch n batch s × (s.current_length ≤ m)
  AfterRound n batch current m (go_on s) =
      IsSearch n batch s × (s.current_length ≡ current + 1) × (current + 1 < m)

module _ {F : Type 0} where
  AreKept-longer :
      (n l m : ℕ) (bs : List (BeamHypotheses F)) (ds : List Bool)
      → l ≤ m
      → AreKept n l bs ds
      → AreKept n m bs ds
  AreKept-longer n l m [] [] h k = tt
  AreKept-longer n l m [] (d ∷ ds) h k = k
  AreKept-longer n l m (b ∷ bs) [] h k = k
  AreKept-longer n l m (b ∷ bs) (d ∷ ds) h k =
      (IsKept-longer n l m b h k.0, k.1, AreKept-longer n l m bs ds h k.2)

  pub extend_rows_lem :
      (fl : Floats F) (opt : BeamOptions F) (current : ℕ) (rows : List (List ℕ))
      (next : List (Candidate F))
      → All (λ ids. length ids ≡ current) rows
      → AreBelow (length rows) next
      → (rows' : List (List ℕ)) × (traverse (extend_row fl opt rows) next ≡ ok rows')
        × (length rows' ≡ length next)
        × All (λ ids. length ids ≡ current + 1) rows'
  unfolding traverse extend_row
  extend_rows_lem fl opt current rows [] same below = ([], refl, refl, tt)
  extend_rows_lem fl opt current rows (c ∷ next) same below =
      let (ids, found, size) =
        get_elem?-All (λ ids. length ids ≡ current) c.beam rows below.0 same in
      let (rows', run, count, good) = extend_rows_lem fl opt current rows next same below.1 in
      (
        (ids ++ c.token ∷ []) ∷ rows',
        rw (found, run),
        ap suc count,
        (omega (arith, length-append ids (c.token ∷ []), size), good),
      )

module _ {S C F : Type 0} (fl : Floats F) (opt : BeamOptions F) (scores : Scores S F)
    (model : BeamDecoder S C F) where
  pub beam_process_total :
      (n : ℕ) (ids : List (List ℕ)) (s : S)
      → BansRun scores opt.common
      → All (λ (i : List ℕ). length i ≡ n) ids
      → (s' : S) × (beam_process fl opt scores model n ids s ≡ ok s')
  unfolding beam_process
  beam_process_total n ids s bans h =
      let logits = model.prepare_scores n (model.temperature (model.repetition ids s)) in
      let (w, e) = bans ids (forbid_eos scores opt.common n (model.log_softmax logits)) in
      let (g, f) = ban_ngrams_total scores opt.common n ids w h in
      (model.allowed ids g, rw e (rw f))

  pub next_round_lem :
      (n batch m : ℕ) (s : Search C F) (rows : List (List ℕ)) (next : List (Candidate F))
      → opt.common.max_length ≡ some m
      → s.current_length < m
      → IsSearch n batch s
      → traverse (extend_row fl opt s.rows) next ≡ ok rows
      → length rows ≡ batch * n
      → All (λ ids. length ids ≡ s.current_length + 1) rows
      → (r : Round C F) × (next_round fl opt scores model s next ≡ ok r)
        × AfterRound n batch s.current_length m r
  unfolding next_round at_max_length
  next_round_lem n batch m s rows next limit h v run size same =
      let longer =
        AreKept-longer n s.current_length (s.current_length + 1) s.hypotheses s.done (omega arith)
          v.kept in
      elim (Bool-cases (all_true s.done)) [
        | inl e ↦ (stop s, rw e, (v, omega (arith, h)))
        | inr e ↦ elim (Bool-cases (leb m (s.current_length + 1))) [
          | inl t ↦ (
            stop (record s { rows = rows; current_length = s.current_length + 1 }),
            rw e (rw (run, limit) (rw t)),
            (
              record {
                rows_size = size;
                rows_length = same;
                scores_size = v.scores_size;
                kept = longer;
                inputs = v.inputs;
                unsaved = v.unsaved;
              },
              omega (arith, h),
            ),
          )
          | inr t ↦ (
            go_on (record s {
              rows = rows;
              current_length = s.current_length + 1;
              past = model.reorder_cache (map (λ (c : Candidate F). c.beam) next) s.past;
              attention =
                  if opt.common.is_encoder_decoder
                  then s.attention
                  else map (λ a. a ++ 1 ∷ []) s.attention;
            }),
            rw e (rw (run, limit) (rw t)),
            (
              record {
                rows_size = size;
                rows_length = same;
                scores_size = v.scores_size;
                kept = longer;
                inputs = v.inputs;
                unsaved = v.unsaved;
              },
              refl,
              ground (arith, t),
            ),
          )
        ]
      ]

  pub round_run :
      (s : Search C F) {p : S} {eos : Option ℕ} {tops : List F} {bs : List (BeamHypotheses F)}
      {ds : List Bool} {next : List (Candidate F)}
      → let output = model.forward s.rows s.attention s.past in
        let found = model.best_candidates s.beam_scores p output.1 in
        let rows = candidate_rows model.vocab_size opt.num_beams 0 found.0 in
        let beam_scores = map (λ (c : Candidate F). c.score) next in
        beam_process fl opt scores model s.current_length s.rows output.0 ≡ ok p
        → first_eos opt.common.eos_token_ids ≡ ok eos
        → traverse (best_score fl) rows ≡ ok tops
        → offer_rows fl s opt.num_beams eos rows s.done s.hypotheses ≡ ok bs
        → close_inputs fl opt s.current_length 0 tops s.done bs
            (flatten (map (masked_select eos opt.num_beams 0) rows))
          ≡ ok (ds, next)
        → round fl opt scores model s
          ≡ next_round fl opt scores model
              (record s {
                beam_scores = beam_scores;
                hypotheses = bs;
                done = ds;
                saved = map_option (λ steps. steps ++ beam_scores ∷ []) s.saved;
                past = found.1;
              })
              next
  unfolding round
  round_run s a b c d e = rw a (rw b (rw c (rw d (rw e))))
