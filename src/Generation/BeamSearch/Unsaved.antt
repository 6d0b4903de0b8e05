-- ===== src/Generation/BeamSearch/Unsaved.antt =====
-- On the scores that `generate_beam_search` saves for the hypotheses.
use rust_bert.Prelude.{
  ℕ, zero, suc, ◌+◌, ◌<◌, ◌≡◌, refl, ◌⊎◌, inl, inr, Bool, true, false, Option, some, List, [], ◌∷◌,
  arith, ltb, Bool-cases, Option-cases, map_option, get_elem?, replicate, position,
}
use rust_bert.Prelude.Int.{pos}
use rust_bert.Prelude.Outcome.{ok, panics, traverse}
use mathlib.Core.Option.{some-injective}
use rust_bert.Float.{Floats}
use rust_bert.Generation.BadWords.{Scores}
use rust_bert.Generation.Beam.{new}
use rust_bert.Generation.Candidates.{first_eos, candidate_rows, max_score}
use rust_bert.Generation.BeamSearch.{offer_rows, best_score, BeamOptions, BeamDecoder}
use rust_bert.Generation.BeamSearch.Loop.{
  round, search_loop, beam_process, initial_search, generate_beam_search,
}
use rust_bert.Generation.BeamSearch.Loop.Ends.{first_of_some}
use rust_bert.Generation.Beam.{BeamHypotheses}
use rust_bert.Generation.Candidates.{Candidate, is_eos}
use rust_bert.Generation.BeamSearch.{Search, scores_of_beam, offer, offer_row}

module _ {C F : Type 0} (fl : Floats F) (s : Search C F) (n : ℕ) (eos : Option ℕ)
    (nothing : s.saved ≡ some []) where
  offer-panics :
      (i : ℕ) (c : Candidate F) (b : BeamHypotheses F)
      → is_eos eos c ≡ true
      → i < n
      → offer fl s n eos i c b ≡ panics
  unfolding offer scores_of_beam
  offer-panics i c b e h =
      let early : ltb i n ≡ true = ground (arith, h) in
      rw (e, early)
        (elim (Option-cases (get_elem? s.rows c.beam)) [
          | inl absent ↦ rw absent
          | inr (ids, found) ↦ rw (found, nothing)
        ])

  offer_skips :
      (i : ℕ) (c : Candidate F) (b : BeamHypotheses F)
      → is_eos eos c ≡ false
      → offer fl s n eos i c b ≡ ok b
  unfolding offer
  offer_skips i c b e = rw e

  offer_late :
      (i : ℕ) (c : Candidate F) (b : BeamHypotheses F)
      → ltb i n ≡ false
      → offer fl s n eos i c b ≡ ok b
  unfolding offer
  offer_late i c b e = elim (Bool-cases (is_eos eos c)) [ inl t ↦ rw (t, e) | inr f ↦ rw f ]

  offer_row_from :
      (i j : ℕ) (row : List (Candidate F)) (b : BeamHypotheses F)
      → position (is_eos eos) row ≡ some j
      → i + j < n
      → offer_row fl s n eos i row b ≡ panics
  unfolding offer_row
  offer_row_from i j [] b e h = ground arith
  offer_row_from i j (c ∷ row) b e h = elim (Bool-cases (is_eos eos c)) [
    | inl t ↦ rw (offer-panics i c b t (omega (arith, h)))
    | inr f ↦ elim (Option-cases (position (is_eos eos) row)) [
      | inl none_left ↦ ground (arith, f, none_left, e)
      | inr (k, at_k) ↦
          let next : j ≡ suc k = ground (arith, f, at_k, e) in
          rw (offer_skips i c b f) (offer_row_from (suc i) k row b at_k (omega (arith, h, next)))
    ]
  ]

  offer_cases :
      (i : ℕ) (c : Candidate F) (b : BeamHypotheses F)
      → (offer fl s n eos i c b ≡ ok b) ⊎ (offer fl s n eos i c b ≡ panics)
  offer_cases i c b = elim (Bool-cases (is_eos eos c)) [
    | inr f ↦ inl (offer_skips i c b f)
    | inl t ↦ elim (Bool-cases (ltb i n)) [
      | inl h ↦ inr (offer-panics i c b t (ground (arith, h)))
      | inr h ↦ inl (offer_late i c b h)
    ]
  ]

  offer_row_cases :
      (i : ℕ) (row : List (Candidate F)) (b : BeamHypotheses F)
      → (offer_row fl s n eos i row b ≡ ok b) ⊎ (offer_row fl s n eos i row b ≡ panics)
  unfolding offer_row
  offer_row_cases i [] b = inl refl
  offer_row_cases i (c ∷ row) b = elim (offer_cases i c b) [
    | inr p ↦ inr (rw p)
    | inl e ↦ rw e (offer_row_cases (suc i) row b)
  ]

  -- One of the inputs that are not done has the end of sequence among its first candidates.
  offer_rows-panics :
      (i j : ℕ) (rows : List (List (Candidate F))) (row : List (Candidate F)) (done : List Bool)
      (bs : List (BeamHypotheses F)) (b : BeamHypotheses F)
      → get_elem? rows i ≡ some row
      → get_elem? done i ≡ some false
      → get_elem? bs i ≡ some b
      → position (is_eos eos) row ≡ some j
      → j < n
      → offer_rows fl s n eos rows done bs ≡ panics
  unfolding offer_rows
  offer_rows-panics i j [] row done bs b r d h e k = ground arith
  offer_rows-panics i j (x ∷ rows) row [] bs b r d h e k = ground arith
  offer_rows-panics i j (x ∷ rows) row (y ∷ done) [] b r d h e k = ground arith
  offer_rows-panics zero j (x ∷ rows) row (y ∷ done) (z ∷ bs) b r d h e k =
      let same : x ≡ row = some-injective x row r in
      let open_input : y ≡ false = some-injective y false d in
      rw open_input (rw (offer_row_from 0 j x z (rw same e) (omega (arith, k))))
  offer_rows-panics (suc i) j (x ∷ rows) row (true ∷ done) (z ∷ bs) b r d h e k =
      rw (offer_rows-panics i j rows row done bs b r d h e k)
  offer_rows-panics (suc i) j (x ∷ rows) row (false ∷ done) (z ∷ bs) b r d h e k =
      elim (offer_row_cases 0 x z) [
        | inr p ↦ rw p
        | inl f ↦ rw f (rw (offer_rows-panics i j rows row done bs b r d h e k))
      ]

best_scores_cases :
    {F : Type 0} (fl : Floats F) (rows : List (List (Candidate F)))
    → (traverse (best_score fl) rows ≡ panics)
      ⊎ ((tops : List F) × (traverse (best_score fl) rows ≡ ok tops))
unfolding traverse best_score
best_scores_cases fl [] = inr ([], refl)
best_scores_cases fl ([] ∷ rows) = inl refl
best_scores_cases fl ((c ∷ row) ∷ rows) = elim (best_scores_cases fl rows) [
  | inl p ↦ inl (rw p)
  | inr (tops, e) ↦ inr (max_score fl c.score row ∷ tops, rw e)
]

get_elem?-replicate : {A : Type 0} (n i : ℕ) (a : A) → i < n → get_elem? (replicate n a) i ≡ some a
get_elem?-replicate zero i a h = absurd (omega (arith, h))
get_elem?-replicate (suc n) zero a h = refl
get_elem?-replicate (suc n) (suc i) a h = get_elem?-replicate n i a (omega (arith, h))

module _ {S C F : Type 0} (fl : Floats F) (opt : BeamOptions F) (scores : Scores S F)
    (model : BeamDecoder S C F) where
  -- The candidates of the inputs in a round, for the scores `p` of the next token.
  abbrev pub candidates : Search C F → S → List (List (Candidate F))
  candidates s p =
      candidate_rows model.vocab_size opt.num_beams 0
        (model.best_candidates s.beam_scores p (model.forward s.rows s.attention s.past).1).0

  round-panics :
      (s : Search C F) (p : S) (eos : Option ℕ) (i j : ℕ) (row : List (Candidate F))
      (b : BeamHypotheses F)
      → s.saved ≡ some []
      → first_eos opt.common.eos_token_ids ≡ ok eos
      → beam_process fl opt scores model s.current_length s.rows
          (model.forward s.rows s.attention s.past).0
        ≡ ok p
      → get_elem? (candidates s p) i ≡ some row
      → get_elem? s.done i ≡ some false
      → get_elem? s.hypotheses i ≡ some b
      → position (is_eos eos) row ≡ some j
      → j < opt.num_beams
      → round fl opt scores model s ≡ panics
  unfolding round
  round-panics s p eos i j row b nothing first processed r d h e k =
      elim (best_scores_cases fl (candidates s p)) [
        | inl f ↦ rw processed (rw first (rw f))
        | inr (tops, f) ↦ rw processed (
            rw first (
              rw f (
                rw (
                  offer_rows-panics fl s opt.num_beams eos nothing i j (candidates s p) row s.done
                    s.hypotheses b r d h e k))))
      ]

  -- Where scores are asked for and an end of sequence is given, the search panics if its first round makes the scores
  -- of the next token and, of the candidates found from them for some input of the batch, one of the first
  -- `num_beams` is the end of sequence: no scores were saved yet.
  pub generate_beam_search-panics :
      (fuel cur_len batch_size i j eos : ℕ) (others : List ℕ) (input_ids mask : List (List ℕ))
      (cache : C) (p : S) (row : List (Candidate F))
      → opt.output_scores ≡ true
      → opt.common.eos_token_ids ≡ some (eos ∷ others)
      → beam_process fl opt scores model cur_len input_ids (model.forward input_ids mask cache).0
        ≡ ok p
      → i < batch_size
      → get_elem? (candidates (initial_search fl opt input_ids cur_len batch_size mask cache) p) i
        ≡ some row
      → position (is_eos (some eos)) row ≡ some j
      → j < opt.num_beams
      → generate_beam_search fl opt scores model (suc fuel) input_ids cur_len batch_size mask cache
        ≡ panics
  unfolding generate_beam_search search_loop initial_search
  generate_beam_search-panics fuel cur_len batch_size i j eos others input_ids mask cache p row
        asked listed processed inside found e k =
      rw (
        round-panics (initial_search fl opt input_ids cur_len batch_size mask cache) p (some eos) i
          j row
          (new fl opt.num_beams (map_option pos opt.common.max_length) opt.length_penalty
            opt.early_stopping)
          (rw asked) (first_of_some opt.common.eos_token_ids eos others listed) processed found
          (get_elem?-replicate batch_size i false inside)
          (get_elem?-replicate batch_size i _ inside) e k)
