-- ===== src/Generation/Ngrams.antt =====
-- pipelines/generation_utils.rs: `get_banned_tokens`, the tokens that would repeat an n-gram.
-- `input_ids` is the list of its rows; the `HashMap` from keys to tokens is an association list.
pub mod Repeats
use rust_bert.Prelude.{
  ℕ, ◌+◌, ◌-◌, Option, none, some, List, [], ◌∷◌, ◌++◌, ltb, leb, if◌then◌else◌, unwrap_or, length,
  take, last?, list_eq,
}
use rust_bert.Prelude.Outcome.{Outcome, ok, ◌>>=◌, unwrap, slice_from, checked_sub, traverse}

abbrev pub Ngrams : Type 0
Ngrams = List (List ℕ × List ℕ)

-- `entry(key).or_insert_with(|| vec![value]).push(value)`: a new key gets the value twice.
pub entry_push : Ngrams → List ℕ → ℕ → Ngrams
entry_push [] key value = (key, value ∷ value ∷ []) ∷ []
entry_push ((k, vs) ∷ m) key value =
    if list_eq k key then (k, vs ++ value ∷ []) ∷ m else (k, vs) ∷ entry_push m key value

pub lookup : List ℕ → Ngrams → Option (List ℕ)
lookup key [] = none
lookup key ((k, vs) ∷ m) = if list_eq k key then some vs else lookup key m

-- `windows`: the slices of `n` consecutive elements.
pub windows : ℕ → List ℕ → List (List ℕ)
windows n [] = []
windows n (x ∷ xs) =
    if leb n (length (x ∷ xs)) then take n (x ∷ xs) ∷ windows n xs else windows n xs

pub record_ngrams : ℕ → List (List ℕ) → Ngrams → Outcome Ngrams
unfolding entry_push
record_ngrams n [] m = ok m
record_ngrams n (ngram ∷ ngrams) m = do
  value ← unwrap (last? ngram)
  record_ngrams n ngrams (entry_push m (take (n - 1) ngram) value)

-- One turn of the loop over the hypotheses.
pub banned_after : ℕ → ℕ → List ℕ → Outcome (List ℕ)
unfolding record_ngrams windows lookup
banned_after n cur_len ids = do
  start ← checked_sub (cur_len + 1) n
  query ← slice_from ids start
  m ← record_ngrams n (windows n ids) []
  ok (unwrap_or (lookup query m) [])

unfoldable pub get_banned_tokens : List (List ℕ) → ℕ → ℕ → Outcome (List (List ℕ))
unfolding banned_after traverse
get_banned_tokens input_ids n cur_len =
    if ltb (cur_len + 1) n then ok ([] ∷ []) else traverse (banned_after n cur_len) input_ids
