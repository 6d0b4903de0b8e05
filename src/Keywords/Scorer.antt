-- ===== src/Keywords/Scorer.antt =====
-- pipelines/keywords_extraction/scorer.rs: which words of a document become its keywords. The similarities
-- are a row of scores and a matrix; the calls of the tensor library are the record `Tensors`.
pub mod Diverse
pub mod Least
pub mod Chosen
use rust_bert.Prelude.{
  ℕ, zero, suc, ◌+◌, ◌*◌, min, max, Option, none, some, List, [], ◌∷◌, ◌++◌, ltb, leb, ◌==◌,
  if◌then◌else◌, unwrap_or, length, get_elem?, take, drop, position,
}
use rust_bert.Prelude.Outcome.{Outcome, ok, panics, ◌>>=◌, unwrap, checked_sub}
use rust_bert.Float.{Floats}

pub record Tensors (F : Type 0) : Type 0 where
  -- `argmax`, of a row that is not empty
  pub argmax : List F → ℕ
  -- `topk` without an order: the indices
  pub topk : ℕ → List F → List ℕ
  -- `combinations` without replacement
  pub combinations : List ℕ → ℕ → List (List ℕ)
  -- the greater of two entries, for `max_dim`
  pub max2 : F → F → F
  -- `a * (1.0 - diversity) - b * diversity`
  pub margin : F → F → F → F

-- The similarities of the words with the document and with each other, and the sum of those between the
-- words of a combination.
pub record Similarities (F : Type 0) : Type 0 where
  pub word_document : List F
  pub word_word : ℕ → ℕ → F
  pub sum_of : List ℕ → F

pub data KeywordScorerType : Type 0 where
  cosine_similarity : KeywordScorerType
  maximal_margin_relevance : KeywordScorerType
  max_sum : KeywordScorerType

-- `argmax` of an empty row panics, and so does `topk` of more entries than there are.
pub argmax_of : {F : Type 0} → Tensors F → List F → Outcome ℕ
argmax_of t [] = panics
argmax_of t (x ∷ xs) = ok (t.argmax (x ∷ xs))

pub topk_of : {F : Type 0} → Tensors F → ℕ → List F → Outcome (List ℕ)
topk_of t k xs = if leb k (length xs) then ok (t.topk k xs) else panics

-- `Vec::remove`
pub remove_at : ℕ → List ℕ → Outcome (List ℕ)
remove_at i xs = if ltb i (length xs) then ok (take i xs ++ drop (i + 1) xs) else panics

-- `(0..n).collect()`
pub range_from : ℕ → ℕ → List ℕ
range_from i zero = []
range_from i (suc n) = i ∷ range_from (suc i) n

-- The indices with their similarities: an index out of range panics.
pub with_scores : {F : Type 0} → List F → List ℕ → Outcome (List (ℕ × F))
with_scores scores [] = ok []
with_scores scores (i ∷ indices) = do
  score ← unwrap (get_elem? scores i)
  rest ← with_scores scores indices
  ok ((i, score) ∷ rest)

module _ {F : Type 0} (t : Tensors F) (s : Similarities F) where
  -- `max_dim` over the keywords that are chosen: of none it panics.
  pub target_similarity : List ℕ → ℕ → Outcome F
  target_similarity [] candidate = panics
  target_similarity (k ∷ []) candidate = ok (s.word_word candidate k)
  target_similarity (k ∷ l ∷ keywords) candidate = do
    best ← target_similarity (l ∷ keywords) candidate
    ok (t.max2 (s.word_word candidate k) best)

  pub margins : F → List ℕ → List ℕ → Outcome (List F)
  unfolding target_similarity
  margins diversity keywords [] = ok []
  margins diversity keywords (c ∷ candidates) = do
    similarity ← unwrap (get_elem? s.word_document c)
    target ← target_similarity keywords c
    rest ← margins diversity keywords candidates
    ok (t.margin diversity similarity target ∷ rest)

  -- The turns of the loop: `keywords` are chosen, `candidates` are left.
  pub choose : F → ℕ → List ℕ → List ℕ → Outcome (List ℕ)
  unfolding margins argmax_of remove_at
  choose diversity zero keywords candidates = ok keywords
  choose diversity (suc turns) keywords candidates = do
    mmr ← margins diversity keywords candidates
    best ← argmax_of t mmr
    mmr_index ← unwrap (get_elem? candidates best)
    at_index ← unwrap (position (λ x. x == mmr_index) candidates)
    left ← remove_at at_index candidates
    choose diversity turns (keywords ++ mmr_index ∷ []) left

  -- `num_keywords` of 0 underflows.
  unfoldable pub maximal_margin_relevance_score : ℕ → F → Outcome (List (ℕ × F))
  unfolding choose range_from with_scores argmax_of remove_at
  maximal_margin_relevance_score num_keywords diversity = do
    first ← argmax_of t s.word_document
    candidates ← remove_at first (range_from 0 (length s.word_document))
    turns ← checked_sub num_keywords 1
    keywords ← choose diversity (min turns (length s.word_document)) (first ∷ []) candidates
    with_scores s.word_document keywords

  unfoldable pub cosine_similarity_score : ℕ → Outcome (List (ℕ × F))
  unfolding topk_of with_scores
  cosine_similarity_score num_keywords = do
    top ← topk_of t num_keywords s.word_document
    with_scores s.word_document top

  module _ (fl : Floats F) where
    -- The loop over the combinations, from the best so far on.
    pub best_combination : Option (F × List ℕ) → List (List ℕ) → Option (F × List ℕ)
    best_combination best [] = best
    best_combination none (c ∷ combinations) = best_combination (some (s.sum_of c, c)) combinations
    best_combination (some (score, b)) (c ∷ combinations) =
        best_combination
          (if fl.gtb score (s.sum_of c) then some (s.sum_of c, c) else some (score, b)) combinations

    unfoldable pub max_sum_score : ℕ → ℕ → Outcome (List (ℕ × F))
    unfolding best_combination topk_of with_scores
    max_sum_score num_keywords max_sum_candidates = do
      top ← topk_of t (max num_keywords max_sum_candidates) s.word_document
      best ← unwrap (best_combination none (t.combinations top num_keywords))
      with_scores s.word_document best.1

    unfoldable pub score_keywords : KeywordScorerType → ℕ → F → Option ℕ → Outcome (List (ℕ × F))
    unfolding cosine_similarity_score maximal_margin_relevance_score max_sum_score
    score_keywords cosine_similarity num_keywords diversity max_sum_candidates =
        cosine_similarity_score num_keywords
    score_keywords maximal_margin_relevance num_keywords diversity max_sum_candidates =
        maximal_margin_relevance_score num_keywords diversity
    score_keywords max_sum num_keywords diversity max_sum_candidates =
        max_sum_score num_keywords
          (min (unwrap_or max_sum_candidates (num_keywords * 2)) (length s.word_document))
