-- ===== src/Generation/BadWords.antt =====
-- pipelines/generation_utils.rs: `split_bad_word_ids`, `tokens_match`, `calc_static_bad_word_mask`,
-- `get_dynamic_bad_word_ids` and `ban_bad_words`. The matrix of scores is abstract, behind `Scores`; a
-- mask is the function from a row and a token to whether its entry is set.
pub mod Match
pub mod Ban
use rust_bert.Prelude.{
  ℕ, ◌-◌, ◌≡◌, Bool, true, false, ◌||◌, Option, none, some, List, [], ◌∷◌, map, ltb, if◌then◌else◌,
  map_option, length, get_elem?, take, drop, is_empty, last?, contains, list_eq,
}
use rust_bert.Prelude.Outcome.{Outcome, ok, panics, ◌>>=◌, unwrap, checked_sub, traverse}

abbrev pub Mask : Type 0
Mask = ℕ → ℕ → Bool

-- The scores, a row for each sequence and an entry for each token, as the tensor library gives them.
pub record Scores (S F : Type 0) : Type 0 where
  pub at : S → ℕ → ℕ → F
  pub neg_infinity : F
  -- `masked_fill_(mask, NEG_INFINITY)`
  pub masked_fill : S → Mask → S
  pub at-masked_fill :
      (s : S) (m : Mask) (r t : ℕ)
      → at (masked_fill s m) r t ≡ (if m r t then neg_infinity else at s r t)

abbrev if_any {ℓ} : {A : Type ℓ} → List A → Option (List A)
if_any [] = none
if_any (x ∷ xs) = some (x ∷ xs)

-- The two vectors that the loop fills.
unfoldable pub split_words : List (List ℕ) → List ℕ × List (List ℕ)
split_words [] = ([], [])
split_words ((t ∷ []) ∷ words) = let rest = split_words words in (t ∷ rest.0, rest.1)
split_words (word ∷ words) = let rest = split_words words in (rest.0, word ∷ rest.1)

pub split_bad_word_ids : Option (List (List ℕ)) → Option (List ℕ) × Option (List (List ℕ))
unfolding split_words
split_bad_word_ids none = (none, none)
split_bad_word_ids (some words) = let parts = split_words words in (if_any parts.0, if_any parts.1)

pub tokens_match : List ℕ → List ℕ → Bool
tokens_match prev_tokens tokens =
    if is_empty tokens
    then true
    else if ltb (length prev_tokens) (length tokens)
    then false
    else list_eq (drop (length prev_tokens - length tokens) prev_tokens) tokens

-- `index_fill_` of ones over the zeros of one row, for every row.
pub calc_static_bad_word_mask : List ℕ → Mask
calc_static_bad_word_mask bad_words r t = contains bad_words t

-- The tokens banned after one sequence. An empty word panics: its length less one underflows.
pub sequence_banned : List ℕ → List (List ℕ) → Outcome (List ℕ)
unfolding tokens_match
sequence_banned prev_tokens [] = ok []
sequence_banned prev_tokens (word ∷ words) = do
  n ← checked_sub (length word) 1
  last ← unwrap (last? word)
  rest ← sequence_banned prev_tokens words
  ok (if tokens_match prev_tokens (take n word) then last ∷ rest else rest)

pub get_dynamic_bad_word_ids : List (List ℕ) → List (List ℕ) → Outcome (List (List ℕ))
unfolding sequence_banned traverse
get_dynamic_bad_word_ids prev_tokens words =
    traverse (λ prev. sequence_banned prev words) prev_tokens

-- `token_ids.slice(1, -n, None, 1)` on one row, for a positive n.
pub last_tokens : ℕ → List ℕ → List ℕ
last_tokens n ids = drop (length ids - n) ids

pub dynamic_mask : List (List ℕ) → Mask
dynamic_mask banned r t = elim (get_elem? banned r) [ none ↦ false | some ids ↦ contains ids t ]

-- The mask that is applied: both where both are there.
pub combine : Option Mask → Mask → Mask
combine none dynamic = dynamic
combine (some static) dynamic = λ r t. static r t || dynamic r t

module _ {S F : Type 0} (scores : Scores S F) where
  -- `dynamic_bad_words.iter()` runs over the `Option`, so that `longest_bad_word` is the number of the
  -- words, and `unwrap` panics where there are none.
  unfoldable pub ban_bad_words :
      Option (List (List ℕ)) → Option Mask → List (List ℕ) → S → Outcome S
  unfolding get_dynamic_bad_word_ids last_tokens dynamic_mask combine
  ban_bad_words none static token_ids s = panics
  ban_bad_words (some words) static token_ids s = do
    banned ← get_dynamic_bad_word_ids (map (last_tokens (length words)) token_ids) words
    ok (scores.masked_fill s (combine static (dynamic_mask banned)))

  -- The step of the generation loops: both parts of the split, the static mask from the first.
  unfoldable pub ban_step : Option (List (List ℕ)) → List (List ℕ) → S → Outcome S
  unfolding split_bad_word_ids calc_static_bad_word_mask ban_bad_words
  ban_step none token_ids s = ok s
  ban_step (some words) token_ids s =
      let parts = split_bad_word_ids (some words) in
      ban_bad_words parts.1 (map_option calc_static_bad_word_mask parts.0) token_ids s
