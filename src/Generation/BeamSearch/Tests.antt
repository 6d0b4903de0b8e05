-- ===== src/Generation/BeamSearch/Tests.antt =====
-- Runs of the beam search, and its theorems at concrete inputs. Scores are numbers.
use rust_bert.Prelude.{
  ℕ, ◌*◌, ◌/◌, ◌≤◌, ◌≡◌, refl, true, false, not, none, some, List, [], ◌∷◌, map, arith, length,
  take, All,
}
use rust_bert.Prelude.Outcome.{ok, panics}
use rust_bert.Generation.Tests.{plain, plain-IsOrdered, table}
use rust_bert.Generation.Beam.{Hypothesis, add}
use rust_bert.Generation.Greedy.{Options}
use rust_bert.Generation.BadWords.{ban_step}
use rust_bert.Generation.Candidates.{is_eos, candidate_of, masked_select}
use rust_bert.Generation.Candidates.Count.{IsNext, without_eos, masked_select_lem}
use rust_bert.Generation.Repetition.{Penalty, enforce_repetition_penalty}
use rust_bert.Generation.Repetition.Scaled.{ArePenalised, enforce_repetition_penalty_lem}
use rust_bert.Generation.Ranking.{pop_best, sort_by_score}
use rust_bert.Generation.Ranking.Sorted.{AreBestOf, pop_best_lem}
use rust_bert.Generation.Decoded.{decode_hypotheses}
use rust_bert.Generation.Decoded.Filled.{finished_rows, decode_hypotheses_lem, eos_token_lem}
use rust_bert.Generation.Decoded.Unwritten.{decode_hypotheses-none}
use rust_bert.Generation.BeamSearch.{BeamOptions, BeamDecoder, Search}
use rust_bert.Generation.BeamSearch.Unsaved.{generate_beam_search-panics}
use rust_bert.Generation.BeamSearch.Loop.{
  sequences_per_input, generate_beam_search, search_loop, initial_search, beam_process,
}
use rust_bert.Generation.BeamSearch.Loop.Rounds.{IsSearch}
use rust_bert.Generation.BeamSearch.Loop.Ends.{search_loop-IsSearch, FindsCandidates}
use rust_bert.Generation.BeamSearch.Loop.Returned.{
  generate_beam_search-returns, initial_search-IsSearch,
}

-- Two beams, a vocabulary of three tokens, of which 2 is the end of sequence.
abbrev beam_options : BeamOptions ℕ
beam_options = record {
  common = record {
    min_length = 0;
    max_length = some 4;
    no_repeat_ngram_size = 0;
    pad_token_id = some 0;
    eos_token_ids = some (2 ∷ []);
    bad_word_ids = none;
    is_encoder_decoder = false;
  };
  num_beams = 2;
  num_return_sequences = 2;
  do_sample = false;
  length_penalty = 1;
  early_stopping = false;
  output_scores = false;
}

abbrev found : List (ℕ × ℕ)
found = (9, 2) ∷ (8, 1) ∷ (7, 4) ∷ (6, 0) ∷ []

abbrev constant : BeamDecoder (ℕ → ℕ → ℕ) (Unit {0}) ℕ
constant = record {
  forward = λ ids mask c. (λ r t. 5, c);
  repetition = λ ids s. s;
  temperature = λ s. s;
  prepare_scores = λ n s. s;
  log_softmax = λ s. s;
  allowed = λ ids s. s;
  best_candidates = λ scores p c. (found ∷ [], c);
  reorder_cache = λ beams c. c;
  vocab_size = 3;
}

abbrev two_rows : List (List ℕ)
two_rows = (1 ∷ []) ∷ (1 ∷ []) ∷ []

constant_finds : FindsCandidates 2 1 constant
constant_finds scores p c e = (
  refl,
  (
    (
      refl,
      (refl, (refl, (refl, (refl, tt)))),
      (omega arith, (omega arith, (omega arith, (omega arith, tt)))),
    ),
    tt,
  ),
)

generate_beam_search-returns_example :
    (best : List (List ℕ)) × (generate_beam_search plain beam_options table constant 3 two_rows 1 1
        two_rows tt
      ≡ ok (
          some (record { indices = finished_rows 4 2 0 best; scores = none; token_scores = none })))
    × (length best ≡ 2)
    × All (λ n. n ≤ 4) (map length best)
unfolding ban_step sequences_per_input
generate_beam_search-returns_example =
    generate_beam_search-returns plain beam_options table constant 1 4 2 [] 0
      (omega arith, refl, refl, refl) (omega arith) (omega arith) (λ ids s. (s, refl))
      constant_finds 3 1 two_rows two_rows tt refl (refl, (refl, tt)) refl (omega arith)
      (omega arith) (omega arith) (omega arith)

start-IsSearch : IsSearch 2 1 (initial_search plain beam_options two_rows 1 1 two_rows tt)
start-IsSearch =
    initial_search-IsSearch plain beam_options two_rows two_rows 1 1 tt refl (refl, (refl, tt)) refl

search_loop-IsSearch_example :
    (s' : Search (Unit {0}) ℕ) × (search_loop plain beam_options table constant 3
        (initial_search plain beam_options two_rows 1 1 two_rows tt)
      ≡ ok (some s'))
    × IsSearch 2 1 s'
    × (s'.current_length ≤ 4)
unfolding ban_step initial_search
search_loop-IsSearch_example =
    search_loop-IsSearch plain beam_options table constant 1 4 2 [] 0
      (omega arith, refl, refl, refl) (omega arith) (omega arith) (λ ids s. (s, refl))
      constant_finds 3 (initial_search plain beam_options two_rows 1 1 two_rows tt) start-IsSearch
      (omega arith) (omega arith)

-- The row of a hypothesis is ended where there is room.
search_run :
    generate_beam_search plain beam_options table constant 3 two_rows 1 1 two_rows tt
    ≡ ok (
        some (record {
          indices = (some 1 ∷ some 1 ∷ some 2 ∷ []) ∷ (some 1 ∷ some 2 ∷ some 0 ∷ []) ∷ [];
          scores = none;
          token_scores = none;
        }))
unfolding generate_beam_search ban_step add
search_run = refl

masked_select_lem_example :
    (masked_select (some 2) 2 0 (map (candidate_of 3 2 0) found)
      ≡ take 2 (without_eos (some 2) (map (candidate_of 3 2 0) found)))
    × (length (masked_select (some 2) 2 0 (map (candidate_of 3 2 0) found)) ≡ 2)
    × All
        (λ c. IsNext 3 2 0 c × (not (is_eos (some 2) c) ≡ true))
        (masked_select (some 2) 2 0 (map (candidate_of 3 2 0) found))
masked_select_lem_example =
    masked_select_lem 3 2 0 (some 2) found (omega arith) refl (refl, (refl, (refl, (refl, tt))))
      (omega arith, (omega arith, (omega arith, (omega arith, tt))))

abbrev three : List (Hypothesis ℕ)
three =
    record { score = 3; ids = 1 ∷ []; token_scores = none }
    ∷ record { score = 8; ids = 2 ∷ []; token_scores = none }
    ∷ record { score = 5; ids = 3 ∷ []; token_scores = none }
    ∷ []

pop_best_lem_example :
    (best : List (Hypothesis ℕ)) × (pop_best plain 2 (sort_by_score plain three) ≡ ok best)
    × (length best ≡ 2)
    × AreBestOf plain plain-IsOrdered best three
pop_best_lem_example = pop_best_lem plain plain-IsOrdered 2 three (omega arith)

decode_hypotheses_lem_example :
    decode_hypotheses beam_options.common ((1 ∷ []) ∷ (1 ∷ 3 ∷ 4 ∷ []) ∷ [])
    ≡ ok (finished_rows 4 2 0 ((1 ∷ []) ∷ (1 ∷ 3 ∷ 4 ∷ []) ∷ []))
decode_hypotheses_lem_example =
    decode_hypotheses_lem beam_options.common 2 4 (eos_token_lem beam_options.common 2 [] refl) refl
      (1 ∷ []) ((1 ∷ 3 ∷ 4 ∷ []) ∷ []) (omega arith, (omega arith, tt))

abbrev unlimited : Options
unlimited = record beam_options.common { max_length = none }

decode_hypotheses-none_example :
    decode_hypotheses unlimited ((1 ∷ 2 ∷ []) ∷ []) ≡ ok ((some 1 ∷ some 2 ∷ none ∷ []) ∷ [])
decode_hypotheses-none_example = decode_hypotheses-none unlimited refl 2 (1 ∷ 2 ∷ []) [] (refl, tt)

abbrev saving : BeamOptions ℕ
saving = record beam_options { output_scores = true }

generate_beam_search-panics_example :
    generate_beam_search plain saving table constant 1 two_rows 1 1 two_rows tt ≡ panics
unfolding ban_step initial_search beam_process rust_bert.Generation.Candidates.candidate_rows is_eos
generate_beam_search-panics_example =
    generate_beam_search-panics plain saving table constant 0 1 1 0 0 2 [] two_rows two_rows tt
      (λ r t. 5) (map (candidate_of 3 2 0) found) refl refl refl (omega arith) refl refl
      (omega arith)

-- Numbers instead of logits: an update halves.
abbrev halving : Penalty ℕ
halving = record { is_negative = λ v. false; times = λ v. v * 2; divided = λ v. v / 2 }

enforce_repetition_penalty_lem_example :
    (logits : List (List ℕ)) × (enforce_repetition_penalty halving 1 1
        ((0 ∷ 0 ∷ []) ∷ (1 ∷ []) ∷ [])
        ((8 ∷ 8 ∷ []) ∷ (8 ∷ 8 ∷ []) ∷ [])
      ≡ ok logits)
    × ArePenalised halving 1
        ((0 ∷ 0 ∷ []) ∷ (1 ∷ []) ∷ [])
        ((8 ∷ 8 ∷ []) ∷ (8 ∷ 8 ∷ []) ∷ [])
        logits
enforce_repetition_penalty_lem_example =
    enforce_repetition_penalty_lem halving 1 1 ((0 ∷ 0 ∷ []) ∷ (1 ∷ []) ∷ [])
      ((8 ∷ 8 ∷ []) ∷ (8 ∷ 8 ∷ []) ∷ []) (omega arith) (omega arith)
      ((omega arith, (omega arith, tt)), ((omega arith, tt), tt))

-- For two beams of one input the call of the beam search leaves out the second row.
one_row_penalised :
    enforce_repetition_penalty halving 1 1
      ((0 ∷ 0 ∷ []) ∷ (1 ∷ []) ∷ [])
      ((8 ∷ 8 ∷ []) ∷ (8 ∷ 8 ∷ []) ∷ [])
    ≡ ok ((2 ∷ 8 ∷ []) ∷ (8 ∷ 8 ∷ []) ∷ [])
unfolding enforce_repetition_penalty
one_row_penalised = refl
