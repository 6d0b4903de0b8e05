-- ===== src/Keywords/Tests.antt =====
-- Runs of the keyword code, and its theorems at concrete inputs. Scores are numbers.
use rust_bert.Prelude.{
  ℕ, ◌-◌, ◌<◌, max, ◌≡◌, refl, true, none, some, List, [], ◌∷◌, map, arith, length, get_elem?, All,
  contains, list_eq, AllDifferent,
}
use rust_bert.Prelude.Outcome.{ok, panics}
use rust_bert.Generation.Tests.{plain, plain-IsOrdered}
use rust_bert.Keywords.Tokenizer.{Offset, Words, StopWordsTokenizer, tokenize, flatten_word_list}
use rust_bert.Keywords.Tokenizer.Positions.{offsets_in, found, all_sizes, tokenize_lem}
use rust_bert.Keywords.Tokenizer.Occurrences.{AreListed}
use rust_bert.Keywords.Tokenizer.Boundaries.{part, flatten_word_list_lem}
use rust_bert.Keywords.Scorer.{
  Tensors, Similarities, maximal_margin_relevance, best_combination, maximal_margin_relevance_score,
  score_keywords,
}
use rust_bert.Keywords.Scorer.Diverse.{FindsArgmax}
use rust_bert.Keywords.Scorer.Chosen.{indices_of, maximal_margin_relevance_score_lem}
use rust_bert.Keywords.Scorer.Least.{IsLeast, best_combination_lem}

-- The word of the one byte 9 is a stop word.
abbrev plain_tokenizer : StopWordsTokenizer
plain_tokenizer = record {
  is_stopword = λ w. list_eq w (9 ∷ []);
  has_forbidden = λ w. contains w 46;
  to_lower = λ w. w;
  do_lower_case = true;
}

abbrev three_tokens : List Offset
three_tokens = (0, 1) ∷ (2, 3) ∷ (4, 5) ∷ []

tokenize_lem_example :
    (words : Words) × (offsets : List Offset) × (tokenize plain_tokenizer
        (5 ∷ 32 ∷ 9 ∷ 32 ∷ 5 ∷ [])
        three_tokens
        1
        2
      ≡ ok words)
    × (offsets_in (5 ∷ []) words ≡ found offsets)
    × AreListed plain_tokenizer
        (5 ∷ 32 ∷ 9 ∷ 32 ∷ 5 ∷ [])
        (5 ∷ [])
        (all_sizes 1 2 three_tokens)
        offsets
tokenize_lem_example =
    tokenize_lem plain_tokenizer (5 ∷ 32 ∷ 9 ∷ 32 ∷ 5 ∷ []) (5 ∷ []) three_tokens 1 2 (omega arith)

tokenize_run :
    tokenize plain_tokenizer (5 ∷ 32 ∷ 9 ∷ 32 ∷ 5 ∷ []) three_tokens 1 2
    ≡ ok ((5 ∷ [], (0, 1) ∷ (4, 5) ∷ []) ∷ [])
unfolding tokenize
tokenize_run = refl

flatten_word_list_lem_example :
    map
      (part (flatten_word_list (((5 ∷ [], []) ∷ (6 ∷ [], []) ∷ []) ∷ ((7 ∷ [], []) ∷ []) ∷ [])).0)
      (flatten_word_list (((5 ∷ [], []) ∷ (6 ∷ [], []) ∷ []) ∷ ((7 ∷ [], []) ∷ []) ∷ [])).1
    ≡ ((5 ∷ []) ∷ (6 ∷ []) ∷ []) ∷ ((7 ∷ []) ∷ []) ∷ []
flatten_word_list_lem_example =
    flatten_word_list_lem (((5 ∷ [], []) ∷ (6 ∷ [], []) ∷ []) ∷ ((7 ∷ [], []) ∷ []) ∷ [])

abbrev first_places : Tensors ℕ
first_places = record {
  argmax = λ xs. 0;
  topk = λ k xs. [];
  combinations = λ xs k. [];
  max2 = λ a b. max a b;
  margin = λ diversity a b. a - b;
}

first_in_range : FindsArgmax first_places
first_in_range xs p = p

abbrev three_words : Similarities ℕ
three_words = record {
  word_document = 7 ∷ 6 ∷ 5 ∷ [];
  word_word = λ i j. 1;
  sum_of = λ c. length c;
}

maximal_margin_relevance_score_lem_example :
    (result : List (ℕ × ℕ)) × (maximal_margin_relevance_score first_places three_words 2 1
      ≡ ok result)
    × (length result ≡ 2)
    × AllDifferent (indices_of result)
    × All (λ k. k < 3) (indices_of result)
maximal_margin_relevance_score_lem_example =
    maximal_margin_relevance_score_lem first_places three_words 2 1 first_in_range (omega arith)
      (omega arith)

-- A document without words makes the score by maximal margin relevance panic.
no_words :
    score_keywords first_places
      (record three_words { word_document = [] })
      plain
      maximal_margin_relevance
      0
      1
      none
    ≡ panics
unfolding score_keywords
no_words = refl

best_combination_lem_example :
    (best : ℕ × List ℕ) × (best_combination first_places three_words plain none
        ((1 ∷ 2 ∷ []) ∷ (3 ∷ []) ∷ [])
      ≡ some best)
    × IsLeast first_places three_words plain plain-IsOrdered ((1 ∷ 2 ∷ []) ∷ (3 ∷ []) ∷ []) best
    × ((i : ℕ) × (get_elem? ((1 ∷ 2 ∷ []) ∷ (3 ∷ []) ∷ []) i ≡ some best.1))
best_combination_lem_example =
    best_combination_lem first_places three_words plain plain-IsOrdered (1 ∷ 2 ∷ []) ((3 ∷ []) ∷ [])
