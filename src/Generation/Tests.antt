-- ===== src/Generation/Tests.antt =====
-- Runs of the generation code, and its theorems at concrete inputs. Scores are numbers.
use rust_bert.Prelude.{
  ℕ, ◌-◌, ◌≡◌, refl, ◌↔◌, ◌⊎◌, inl, true, false, not, ◌||◌, none, some, List, [], ◌∷◌, ◌++◌, arith,
  ltb, leb, if◌then◌else◌, get_elem?, contains,
}
use rust_bert.Prelude.Outcome.{ok, panics}
use rust_bert.Float.{Floats, IsOrdered}
use rust_bert.Generation.Beam.{BeamHypotheses, new, scored, add, is_done}
use rust_bert.Generation.Beam.Best.{IsBest, add-IsBest, new-IsBest, is_done-add}
use rust_bert.Generation.Ngrams.{get_banned_tokens}
use rust_bert.Generation.Ngrams.Repeats.{RowsRepeat, get_banned_tokens_lem}
use rust_bert.Generation.BadWords.{Scores, tokens_match, split_words, ban_step, last_tokens}
use rust_bert.Generation.BadWords.Match.{tokens_match_iff}
use rust_bert.Generation.BadWords.Ban.{
  completes_word, ban_step-singles, ban_step_lem, ban_step-long_word,
}
use rust_bert.Generation.Greedy.{Options, Decoder, State, generate_loop}
use rust_bert.Generation.Greedy.Ends.{Broken, generate_loop-Broken}

-- Natural numbers for floats: a score is the sum, whatever the length.
abbrev pub plain : Floats ℕ
plain = record {
  zero_f = 0;
  large = 1000;
  sub = λ a b. a - b;
  normalise = λ sum n penalty. sum;
  gtb = λ a b. ltb b a;
  geb = λ a b. leb b a;
  ord_leb = λ a b. leb a b;
}

plain_total : (a b : ℕ) → (leb a b ≡ true) ⊎ (leb b a ≡ true)
plain_total a b = ground arith

plain_transitive : (a b c : ℕ) → leb a b ≡ true → leb b c ≡ true → leb a c ≡ true
plain_transitive a b c h k = ground arith

plain_gtb : (a b : ℕ) → ltb b a ≡ not (leb a b)
plain_gtb a b = ground arith

pub plain-IsOrdered : IsOrdered plain
plain-IsOrdered = record {
  total = plain_total;
  transitive = plain_transitive;
  gtb_not = plain_gtb;
  geb_ord = λ a b. refl;
}

abbrev two_beams : BeamHypotheses ℕ
two_beams = record {
  max_length = none;
  length_penalty = 1;
  early_stopping = false;
  num_beams = 2;
  beams = [];
  worst_score = 1000;
}

two_beams-IsBest : IsBest plain plain-IsOrdered two_beams []
unfolding new
two_beams-IsBest = new-IsBest plain plain-IsOrdered 2 none 1 false

add-IsBest_example :
    (b' : BeamHypotheses ℕ) × (add plain two_beams (3 ∷ 4 ∷ []) 5 none ≡ ok b')
    × IsBest plain plain-IsOrdered b' (scored plain two_beams (3 ∷ 4 ∷ []) 5 none ∷ [])
    × (b'.num_beams ≡ 2)
add-IsBest_example =
    add-IsBest plain plain-IsOrdered two_beams (3 ∷ 4 ∷ []) 5 none [] (omega arith) two_beams-IsBest

abbrev one_beam : BeamHypotheses ℕ
one_beam = record {
  max_length = none;
  length_penalty = 1;
  early_stopping = false;
  num_beams = 1;
  beams = record { score = 5; ids = 3 ∷ []; token_scores = none } ∷ [];
  worst_score = 5;
}

is_done-add_example : add plain one_beam (8 ∷ []) 3 none ≡ ok one_beam
unfolding is_done
is_done-add_example = is_done-add plain plain-IsOrdered one_beam 4 3 2 (8 ∷ []) none refl refl refl

get_banned_tokens_lem_example :
    (bs : List (List ℕ)) × (get_banned_tokens ((1 ∷ 2 ∷ 3 ∷ 1 ∷ []) ∷ []) 2 4 ≡ ok bs)
    × RowsRepeat 1 ((1 ∷ 2 ∷ 3 ∷ 1 ∷ []) ∷ []) bs
get_banned_tokens_lem_example =
    get_banned_tokens_lem 1 4 ((1 ∷ 2 ∷ 3 ∷ 1 ∷ []) ∷ []) (omega arith) (refl, tt)

banned_run : get_banned_tokens ((1 ∷ 2 ∷ 3 ∷ 1 ∷ []) ∷ []) 2 4 ≡ ok ((2 ∷ 2 ∷ []) ∷ [])
unfolding get_banned_tokens
banned_run = refl

tokens_match_iff_example :
    (tokens_match (1 ∷ 2 ∷ 3 ∷ []) (2 ∷ 3 ∷ []) ≡ true)
    ↔ ((pre : List ℕ) × (1 ∷ 2 ∷ 3 ∷ [] ≡ pre ++ 2 ∷ 3 ∷ []))
tokens_match_iff_example = tokens_match_iff (1 ∷ 2 ∷ 3 ∷ []) (2 ∷ 3 ∷ [])

-- Scores as functions, 0 standing for minus infinity.
abbrev pub table : Scores (ℕ → ℕ → ℕ) ℕ
table = record {
  at = λ s r t. s r t;
  neg_infinity = 0;
  masked_fill = λ s m r t. if m r t then 0 else s r t;
  at-masked_fill = λ s m r t. refl;
}

ban_step-singles_example :
    ban_step table (some ((7 ∷ []) ∷ [])) ((1 ∷ 2 ∷ []) ∷ []) (λ r t. 5) ≡ panics
ban_step-singles_example =
    ban_step-singles table ((7 ∷ []) ∷ []) ((1 ∷ 2 ∷ []) ∷ []) (λ r t. 5) (refl, tt)

ban_step_lem_example :
    (s' : ℕ → ℕ → ℕ) × (ban_step table
        (some ((7 ∷ []) ∷ (2 ∷ 3 ∷ []) ∷ []))
        ((1 ∷ 2 ∷ []) ∷ [])
        (λ r t. 5)
      ≡ ok s')
    × ((r t : ℕ) (row : List ℕ)
        → get_elem? ((1 ∷ 2 ∷ []) ∷ []) r ≡ some row
        → s' r t ≡ (
            if contains (7 ∷ []) t || completes_word (last_tokens 1 row) ((2 ∷ 3 ∷ []) ∷ []) t
            then 0
            else 5))
unfolding split_words
ban_step_lem_example =
    ban_step_lem table ((7 ∷ []) ∷ (2 ∷ 3 ∷ []) ∷ []) ((1 ∷ 2 ∷ []) ∷ []) (λ r t. 5) (2 ∷ 3 ∷ []) []
      (omega arith, (omega arith, tt)) refl

ban_step-long_word_example :
    (s' : ℕ → ℕ → ℕ) × (ban_step table (some ((1 ∷ 2 ∷ 3 ∷ []) ∷ [])) ((1 ∷ 2 ∷ []) ∷ []) (λ r t. 5)
      ≡ ok s')
    × ((r t : ℕ) (row : List ℕ) → get_elem? ((1 ∷ 2 ∷ []) ∷ []) r ≡ some row → s' r t ≡ 5)
ban_step-long_word_example = ban_step-long_word table 1 2 3 [] ((1 ∷ 2 ∷ []) ∷ []) (λ r t. 5)

-- A model that always picks the token 3.
abbrev stubborn : Decoder (ℕ → ℕ → ℕ) (Unit {0})
stubborn = record {
  forward = λ ids mask c. (λ r t. 5, c);
  repetition = λ ids s. s;
  allowed = λ ids s. s;
  prepare_scores = λ n s. s;
  pick = λ s c. (3 ∷ [], c);
}

abbrev short_options : Options
short_options = record {
  min_length = 0;
  max_length = some 6;
  no_repeat_ngram_size = 2;
  pad_token_id = some 0;
  eos_token_ids = some (9 ∷ []);
  bad_word_ids = none;
  is_encoder_decoder = false;
}

abbrev started : State (Unit {0})
started = record {
  rows =
      record { ids = 1 ∷ 2 ∷ []; unfinished = 1; sentence_length = 1; attention = 1 ∷ 1 ∷ [] } ∷ [];
  past = tt;
  current_length = 2;
}

generate_loop-Broken_example :
    (s' : State (Unit {0})) × (generate_loop table stubborn 5 short_options started ≡ ok (some s'))
    × Broken (9 ∷ []) 0 1 2 6 s'
unfolding ban_step
generate_loop-Broken_example =
    generate_loop-Broken table stubborn 5 short_options started (9 ∷ []) 0 6 1 refl refl refl
      (λ ids s. (s, refl)) (λ p c. refl) (((inl refl, refl), tt), refl) (omega arith) (omega arith)
