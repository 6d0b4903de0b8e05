-- ===== src/Keywords/Scorer/Chosen.antt =====
-- On `maximal_margin_relevance_score` as a whole.
use rust_bert.Prelude.{
  ℕ, zero, suc, ◌+◌, ◌-◌, ◌≤◌, ◌<◌, min, ◌≡◌, refl, sym, ap, ◌∙◌, true, false, List, [], ◌∷◌, ◌++◌,
  map, arith, leb, ◌==◌, length, take, drop, All, get_elem?-All, length-map, All-unit, contains,
  AllDifferent, without, without_absent, without-AllDifferent,
}
use rust_bert.Prelude.Outcome.{ok, checked_sub}
use rust_bert.Keywords.Scorer.{
  Tensors, Similarities, argmax_of, remove_at, range_from, with_scores, choose,
  maximal_margin_relevance_score,
}
use rust_bert.Keywords.Scorer.Diverse.{
  FindsArgmax, Apart, left_apart, argmax_of_lem, remove_at_lem, choose_lem,
}

length-range_from : (i n : ℕ) → length (range_from i n) ≡ n
unfolding range_from
length-range_from i zero = refl
length-range_from i (suc n) = ap suc (length-range_from (suc i) n)

range_before : (i n x : ℕ) → x < i → contains (range_from i n) x ≡ false
unfolding range_from
range_before i zero x h = refl
range_before i (suc n) x h =
    let later = range_before (suc i) n x (omega (arith, h)) in
    let other : (i == x) ≡ false = ground (arith, h) in rw (other, later)

range_from-AllDifferent : (i n : ℕ) → AllDifferent (range_from i n)
unfolding range_from
range_from-AllDifferent i zero = tt
range_from-AllDifferent i (suc n) =
    (range_before (suc i) n i (omega arith), range_from-AllDifferent (suc i) n)

range_below :
    (i n k : ℕ) → i + n ≤ k → All (λ c. (c < k) × (contains [] c ≡ false)) (range_from i n)
unfolding range_from
range_below i zero k h = tt
range_below i (suc n) k h = ((omega (arith, h), refl), range_below (suc i) n k (omega (arith, h)))

-- Without the element at `f`.
range_without :
    (f i n : ℕ)
    → f < n
    → (take f (range_from i n) ++ drop (f + 1) (range_from i n) ≡ without (i + f) (range_from i n))
      × (suc (length (without (i + f) (range_from i n))) ≡ n)
unfolding range_from without
range_without f i zero h = absurd (omega (arith, h))
range_without zero i (suc n) h =
    let same : (i == i + 0) ≡ true = ground arith in
    let absent =
      without_absent (i + 0) (range_from (suc i) n)
        (range_before (suc i) n (i + 0) (omega arith)) in
    (
      rw same (sym absent),
      rw same (ap (λ l. suc (length l)) absent ∙ ap suc (length-range_from (suc i) n)),
    )
range_without (suc f) i (suc n) h =
    let later : suc i + f ≡ i + suc f = omega arith in
    let (rest, size) = range_without f (suc i) n (omega (arith, h)) in
    let same = ap (λ k. without k (range_from (suc i) n)) later in
    let other : (i == i + suc f) ≡ false = ground arith in
    let next : suc f + 1 ≡ suc (f + 1) = omega arith in
    (rw (other, next) (ap (◌∷◌ i) (rest ∙ same)), rw other (omega (arith, ap length same, size)))

with_scores_lem :
    {F : Type 0} (scores : List F) (indices : List ℕ)
    → All (λ k. k < length scores) indices
    → (result : List (ℕ × F)) × (with_scores scores indices ≡ ok result)
      × (map (λ (k : ℕ × F). k.0) result ≡ indices)
unfolding with_scores
with_scores_lem scores [] a = ([], refl, refl)
with_scores_lem scores (i ∷ indices) a =
    let (score, at_i, _) = get_elem?-All (λ x. Unit {0}) i scores a.0 (All-unit scores) in
    let (result, run, same) = with_scores_lem scores indices a.1 in
    ((i, score) ∷ result, rw (at_i, run), ap (◌∷◌ i) same)

-- The indices of the keywords.
abbrev pub indices_of : {F : Type 0} → List (ℕ × F) → List ℕ
indices_of {F} = map (λ (k : ℕ × F). k.0)

module _ {F : Type 0} (t : Tensors F) (s : Similarities F) where
  mmr_run :
      (num_keywords turns : ℕ) (diversity : F) {first : ℕ} {candidates keywords : List ℕ}
      {result : List (ℕ × F)}
      → argmax_of t s.word_document ≡ ok first
      → remove_at first (range_from 0 (length s.word_document)) ≡ ok candidates
      → checked_sub num_keywords 1 ≡ ok turns
      → choose t s diversity (min turns (length s.word_document)) (first ∷ []) candidates
        ≡ ok keywords
      → with_scores s.word_document keywords ≡ ok result
      → maximal_margin_relevance_score t s num_keywords diversity ≡ ok result
  unfolding maximal_margin_relevance_score
  mmr_run num_keywords turns diversity a b c d e = rw a (rw b (rw c (rw d (rw e))))

  -- With an `argmax` that is in range: for at least one keyword and at most as many as words, as many
  -- keywords are chosen, and they are different words of the document.
  pub maximal_margin_relevance_score_lem :
      (num_keywords : ℕ) (diversity : F)
      → FindsArgmax t
      → 0 < num_keywords
      → num_keywords ≤ length s.word_document
      → (result : List (ℕ × F)) × (maximal_margin_relevance_score t s num_keywords diversity
          ≡ ok result)
        × (length result ≡ num_keywords)
        × AllDifferent (indices_of result)
        × All (λ k. k < length s.word_document) (indices_of result)
  maximal_margin_relevance_score_lem num_keywords diversity law some_word few =
      let n = length s.word_document in
      let (first, found, inside) =
        argmax_of_lem t s.word_document law (omega (arith, some_word, few)) in
      let (left, size) = range_without first 0 n inside in
      let here : 0 + first ≡ first = omega arith in
      let candidates = without first (range_from 0 n) in
      let left' : take first (range_from 0 n) ++ drop (first + 1) (range_from 0 n) ≡ candidates =
        rw here at left in
      let size' : suc (length candidates) ≡ n = rw here at size in
      let removed =
        remove_at_lem first (range_from 0 n) (omega (arith, inside, length-range_from 0 n))
        ∙ ap ok left' in
      let turns : checked_sub num_keywords 1 ≡ ok (num_keywords - 1) =
        (let le : leb 1 num_keywords ≡ true = ground (arith, some_word) in rw le) in
      let capped : min (num_keywords - 1) n ≡ num_keywords - 1 = omega (arith, few) in
      let apart : Apart n (first ∷ []) candidates = (
        (refl, tt),
        without-AllDifferent first (range_from 0 n) (range_from-AllDifferent 0 n),
        left_apart n first [] (range_from 0 n) (range_below 0 n n (omega arith)),
        (inside, tt),
        omega arith,
      ) in
      let (keywords, chosen, count, different, below) =
        choose_lem t s diversity (min (num_keywords - 1) n) (first ∷ []) candidates law apart
          (omega (arith, capped, few, size')) in
      let (result, scored, same) = with_scores_lem s.word_document keywords below in
      (
        result,
        mmr_run num_keywords (num_keywords - 1) diversity found removed turns chosen scored,
        omega (
          arith,
          sym (length-map (λ (k : ℕ × F). k.0) result),
          ap length same,
          count,
          capped,
          some_word,
        ),
        rw same different,
        rw same below,
      )
