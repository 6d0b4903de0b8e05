-- ===== src/TokenClassification/Consolidation.antt =====
-- pipelines/token_classification.rs: `consolidate_tokens` and `consolidate_labels`. `M` is the type of masks
-- of the tokenizer's crate, which also groups the tokens of a sequence, and `F` that of scores.
pub mod Groups
use mathlib.Core.List.{reverse}
use rust_bert.Prelude.{
  ℕ, ◌+◌, String, Bool, ◌&&◌, ◌||◌, Option, none, some, List, [], ◌∷◌, ◌++◌, ltb, leb, ◌==◌,
  if◌then◌else◌, length, take, drop, last?,
}
use rust_bert.Prelude.Outcome.{Outcome, ok, panics, ◌>>=◌, unwrap, traverse}
use Prim.Native.String
use text.Mathlib.Text

pub record Token (F M : Type 0) : Type 0 where
  pub text : String
  pub score : F
  pub label : String
  pub label_index : ℕ
  pub sentence : ℕ
  pub index : ℕ
  pub word_index : ℕ
  pub offset : Option (ℕ × ℕ)
  pub mask : M

-- The labels that were counted: a label with its count and its greatest score.
abbrev pub Counts : Type 0 → Type 0
Counts F = List ((ℕ × String) × (ℕ × F))

pub record Grading (F M : Type 0) : Type 0 where
  pub one : F
  pub zero_f : F
  pub mul : F → F → F
  -- `1.0 - score`
  pub complement : F → F
  -- `f64::max`
  pub max2 : F → F → F
  -- `a <= b` on `OrderedFloat`
  pub ord_leb : F → F → Bool
  pub default_mask : M
  -- the order in which the `HashMap` gives its entries
  pub entries : Counts F → Counts F
  -- `iter_consolidate_tokens`
  pub groups : List (Token F M) → List (List (Token F M))

pub data LabelAggregationOption (F M : Type 0) : Type 0 where
  first : LabelAggregationOption F M
  last : LabelAggregationOption F M
  mode : LabelAggregationOption F M
  custom : (List (Token F M) → ℕ × String) → LabelAggregationOption F M

module _ {F M : Type 0} (g : Grading F M) where
  same_label : ℕ × String → Token F M → Bool
  same_label (i, s) token = i == token.label_index && text.Mathlib.Text.◌==◌ s token.label

  -- `entry(..).or_insert((0, 0.0))`, then the count and the score.
  pub count_label : Counts F → Token F M → Counts F
  unfolding same_label
  count_label [] token = ((token.label_index, token.label), (1, g.max2 g.zero_f token.score)) ∷ []
  count_label ((key, (count, score)) ∷ counts) token =
      let rest = count_label counts token in
      if same_label key token
      then (key, (count + 1, g.max2 score token.score)) ∷ counts
      else (key, (count, score)) ∷ rest

  pub count_labels : Counts F → List (Token F M) → Counts F
  unfolding count_label
  count_labels counts [] = counts
  count_labels counts (token ∷ tokens) = count_labels (count_label counts token) tokens

  -- `max_by_key` on the count and the score: the last of the greatest.
  pub most_frequent : (ℕ × String) × (ℕ × F) → Counts F → ℕ × String
  most_frequent (key, (count, score)) [] = key
  most_frequent (key, (count, score)) ((key', (count', score')) ∷ counts) =
      if ltb count count' || (count == count' && g.ord_leb score score')
      then most_frequent (key', (count', score')) counts
      else most_frequent (key, (count, score)) counts

  most_frequent_of : Counts F → Outcome (ℕ × String)
  unfolding most_frequent
  most_frequent_of [] = panics
  most_frequent_of (c ∷ counts) = ok (most_frequent c counts)

  pub consolidate_labels : LabelAggregationOption F M → List (Token F M) → Outcome (ℕ × String)
  unfolding count_labels most_frequent_of
  consolidate_labels first [] = panics
  consolidate_labels first (token ∷ tokens) = ok (token.label_index, token.label)
  consolidate_labels last tokens = do
    token ← unwrap (last? tokens)
    ok (token.label_index, token.label)
  consolidate_labels mode tokens = most_frequent_of (g.entries (count_labels [] tokens))
  consolidate_labels (custom function) tokens = ok (function tokens)

  -- `Some` if the first begins and the last ends somewhere.
  pub joined_offset : Option (ℕ × ℕ) → Option (ℕ × ℕ) → Option (ℕ × ℕ)
  joined_offset (some (begin, _)) (some (_, end)) = some (begin, end)
  joined_offset none offset_end = none
  joined_offset (some offset_start) none = none

  -- The loop over the sub-tokens.
  pub joined_text : String → List (Token F M) → String
  joined_text text [] = text
  joined_text text (token ∷ tokens) = joined_text (Prim.Native.String.◌++◌ text token.text) tokens

  pub joined_score : F → ℕ → List (Token F M) → F
  joined_score score label_index [] = score
  joined_score score label_index (token ∷ tokens) =
      joined_score
        (g.mul score
          (if token.label_index == label_index then token.score else g.complement token.score))
        label_index tokens

  -- One token for the sub-tokens of a word: `sub_tokens[0]` of none panics.
  pub merge : LabelAggregationOption F M → List (Token F M) → Outcome (Token F M)
  unfolding consolidate_labels joined_offset joined_text joined_score
  merge aggregation [] = panics
  merge aggregation (token ∷ tokens) = do
    (label_index, label) ← consolidate_labels aggregation (token ∷ tokens)
    ending ← unwrap (last? (token ∷ tokens))
    ok (record {
      text = joined_text "" (token ∷ tokens);
      score = joined_score g.one label_index (token ∷ tokens);
      label = label;
      label_index = label_index;
      sentence = token.sentence;
      index = token.index;
      word_index = token.word_index;
      offset = joined_offset token.offset ending.offset;
      mask = g.default_mask;
    })

  -- `tokens_to_replace`: the ranges with their tokens, `cursor` being where the next group begins.
  pub to_replace :
      LabelAggregationOption F M
      → ℕ
      → List (List (Token F M))
      → Outcome (List ((ℕ × ℕ) × Token F M))
  unfolding merge
  to_replace aggregation cursor [] = ok []
  to_replace aggregation cursor (sub_tokens ∷ groups) = do
    rest ← to_replace aggregation (cursor + length sub_tokens) groups
    if ltb 1 (length sub_tokens)
        then (do
          token ← merge aggregation sub_tokens
          ok (((cursor, cursor + length sub_tokens), token) ∷ rest))
        else ok rest

  -- `splice(start..end, [token])`: out of range it panics.
  pub splice : ℕ × ℕ → Token F M → List (Token F M) → Outcome (List (Token F M))
  splice (start, end) token tokens =
      if leb start end && leb end (length tokens)
      then ok (take start tokens ++ token ∷ drop end tokens)
      else panics

  pub splice_all : List ((ℕ × ℕ) × Token F M) → List (Token F M) → Outcome (List (Token F M))
  unfolding splice
  splice_all [] tokens = ok tokens
  splice_all ((range, token) ∷ replacements) tokens = do
    tokens' ← splice range token tokens
    splice_all replacements tokens'

  -- The turn of the loop for one sequence.
  pub consolidate_sequence :
      LabelAggregationOption F M → List (Token F M) → Outcome (List (Token F M))
  unfolding to_replace splice_all reverse
  consolidate_sequence aggregation tokens = do
    replacements ← to_replace aggregation 0 (g.groups tokens)
    splice_all (reverse replacements) tokens

  unfoldable pub consolidate_tokens :
      LabelAggregationOption F M → List (List (Token F M)) → Outcome (List (List (Token F M)))
  unfolding consolidate_sequence traverse
  consolidate_tokens aggregation tokens = traverse (consolidate_sequence aggregation) tokens
