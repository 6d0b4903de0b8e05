-- ===== src/Keywords/Tokenizer.antt =====
-- pipelines/keywords_extraction/tokenizer.rs: `StopWordsTokenizer`, and `flatten_word_list` of pipeline.rs.
-- A text is the list of its bytes; the `HashMap` from words to offsets is an association list.
pub mod Occurrences
pub mod Positions
pub mod Boundaries
use rust_bert.Prelude.{
  ℕ, zero, suc, ◌+◌, ◌-◌, Bool, false, ◌&&◌, ◌||◌, Option, none, some, List, [], ◌∷◌, ◌++◌, map,
  ltb, leb, if◌then◌else◌, unwrap_or, map_option, length, take, drop, last?, list_eq,
}
use rust_bert.Prelude.Outcome.{Outcome, ok, panics}

abbrev pub Offset : Type 0
Offset = ℕ × ℕ

abbrev pub Words : Type 0
Words = List (List ℕ × List Offset)

-- The stop words, the forbidden characters and the change to lower case, as tests and a map of words.
pub record StopWordsTokenizer : Type 0 where
  pub is_stopword : List ℕ → Bool
  pub has_forbidden : List ℕ → Bool
  pub to_lower : List ℕ → List ℕ
  pub do_lower_case : Bool

-- `&text[begin..end]`
pub slice_of : List ℕ → Offset → List ℕ
slice_of text (begin, end) = take (end - begin) (drop begin text)

pub cased : StopWordsTokenizer → List ℕ → List ℕ
cased t word = if t.do_lower_case then t.to_lower word else word

pub any_stopword : StopWordsTokenizer → List ℕ → List Offset → Bool
unfolding slice_of cased
any_stopword t text [] = false
any_stopword t text (token ∷ ngram) =
    t.is_stopword (cased t (slice_of text token)) || any_stopword t text ngram

-- The offset of an n-gram, from its first token and those behind it.
pub ngram_offset : Offset → List Offset → Offset
ngram_offset first rest =
    (first.0, unwrap_or (map_option (λ (o : Offset). o.1) (last? rest)) first.1)

-- The key of an n-gram, unless the loop goes on without it. A size of zero panics in `windows`.
pub ngram_key : StopWordsTokenizer → List ℕ → List Offset → Option (List ℕ × Offset)
unfolding slice_of cased any_stopword ngram_offset
ngram_key t text [] = none
ngram_key t text (first ∷ rest) =
    let place = ngram_offset first rest in
    let raw = slice_of text place in
    if t.has_forbidden raw
    then none
    else if t.is_stopword (cased t raw)
    then none
    else if ltb 1 (length (first ∷ rest)) && any_stopword t text (first ∷ rest)
    then none
    else some (cased t raw, place)

-- `entry(..).and_modify(..).or_insert_with(..)`
pub add_offset : Words → List ℕ → Offset → Words
add_offset [] word place = (word, place ∷ []) ∷ []
add_offset ((w, offsets) ∷ words) word place =
    let rest = add_offset words word place in
    if list_eq w word then (w, offsets ++ place ∷ []) ∷ words else (w, offsets) ∷ rest

pub ngrams_of : ℕ → List Offset → List (List Offset)
ngrams_of n [] = []
ngrams_of n (x ∷ xs) =
    let rest = ngrams_of n xs in if leb n (length (x ∷ xs)) then take n (x ∷ xs) ∷ rest else rest

-- One turn of the loop over the n-grams.
pub add_entry : Words → Option (List ℕ × Offset) → Words
unfolding add_offset
add_entry words none = words
add_entry words (some (word, place)) = add_offset words word place

pub add_ngrams : StopWordsTokenizer → List ℕ → List (List Offset) → Words → Words
unfolding ngram_key add_entry
add_ngrams t text [] words = words
add_ngrams t text (ngram ∷ ngrams) words =
    add_ngrams t text ngrams (add_entry words (ngram_key t text ngram))

-- The loop over the sizes: `left` of them, from `n` on.
pub add_sizes : StopWordsTokenizer → List ℕ → List Offset → ℕ → ℕ → Words → Outcome Words
unfolding add_ngrams ngrams_of
add_sizes t text tokens n zero words = ok words
add_sizes t text tokens zero (suc left) words = panics
add_sizes t text tokens (suc n) (suc left) words =
    add_sizes t text tokens (suc (suc n)) left (add_ngrams t text (ngrams_of (suc n) tokens) words)

-- `tokens` are the matches of the pattern.
unfoldable pub tokenize : StopWordsTokenizer → List ℕ → List Offset → ℕ → ℕ → Outcome Words
unfolding add_sizes
tokenize t text tokens low high = add_sizes t text tokens low (high + 1 - low) []

-- The words of all documents in one list, and where those of each begin and end.
pub flatten_from : ℕ → List Words → List (List ℕ) × List (ℕ × ℕ)
flatten_from current_index [] = ([], [])
flatten_from current_index (words ∷ documents) =
    let rest = flatten_from (current_index + length words) documents in
    (
      map (λ (w : List ℕ × List Offset). w.0) words ++ rest.0,
      (current_index, current_index + length words) ∷ rest.1,
    )

unfoldable pub flatten_word_list : List Words → List (List ℕ) × List (ℕ × ℕ)
unfolding flatten_from
flatten_word_list documents = flatten_from 0 documents
