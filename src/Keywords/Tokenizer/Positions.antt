-- ===== src/Keywords/Tokenizer/Positions.antt =====
-- On the candidate words: where they stand in the text, and in the list of all words.
use mathlib.Core.List.{append_assoc, append-nil}
use rust_bert.Prelude.{
  ℕ, zero, suc, ◌+◌, ◌-◌, ◌<◌, ◌≡◌, refl, sym, ap, ◌∙◌, inl, inr, false, Option, none, some, List,
  [], ◌∷◌, ◌++◌, map, arith, if◌then◌else◌, Bool-cases, list_eq, list_eq_sound, list_eq_refl,
}
use rust_bert.Prelude.Outcome.{ok}
use rust_bert.Keywords.Tokenizer.Occurrences.{
  matching, offsets_of, AreListed, AreListed-append, listed_size, tails,
}
use rust_bert.Keywords.Tokenizer.{
  Offset, Words, StopWordsTokenizer, ngram_key, add_entry, add_offset, ngrams_of, add_ngrams,
  add_sizes, tokenize,
}

abbrev pub offsets_in : List ℕ → Words → Option (List Offset)
offsets_in word [] = none
offsets_in word ((w, offsets) ∷ words) =
    let rest = offsets_in word words in if list_eq w word then some offsets else rest

-- Each size, `left` of them from `n` on, with the tokens from each one on.
abbrev pub all_sizes : ℕ → ℕ → List Offset → List (ℕ × List Offset)
all_sizes n zero tokens = []
all_sizes n (suc left) tokens = map (λ r. (n, r)) (tails tokens) ++ all_sizes (suc n) left tokens

-- The n-grams of all sizes, `left` of them from `n` on.
abbrev all_windows : ℕ → ℕ → List Offset → List (List Offset)
all_windows n zero tokens = []
all_windows n (suc left) tokens = ngrams_of n tokens ++ all_windows (suc n) left tokens

-- A word that has no offset is no key.
abbrev pub found : List Offset → Option (List Offset)
found [] = none
found (o ∷ offsets) = some (o ∷ offsets)

abbrev joined : Option (List Offset) → List Offset → Option (List Offset)
joined none offsets = found offsets
joined (some before) offsets = some (before ++ offsets)

joined-nil : (o : Option (List Offset)) → joined o [] ≡ o
joined-nil none = refl
joined-nil (some before) = ap some (append-nil before)

add_offset_same :
    (words : Words) (word : List ℕ) (place : Offset) (later : List Offset)
    → joined (offsets_in word (add_offset words word place)) later
      ≡ joined (offsets_in word words) (place ∷ later)
unfolding add_offset
add_offset_same [] word place later = rw (list_eq_refl word)
add_offset_same ((v, offsets) ∷ words) word place later = elim (Bool-cases (list_eq v word)) [
  | inl t ↦ rw (t, t) (ap some (append_assoc offsets (place ∷ []) later))
  | inr f ↦ rw (f, f) (add_offset_same words word place later)
]

add_offset_other :
    (words : Words) (w word : List ℕ) (place : Offset)
    → list_eq w word ≡ false
    → offsets_in word (add_offset words w place) ≡ offsets_in word words
unfolding add_offset
add_offset_other [] w word place e = rw e
add_offset_other ((v, offsets) ∷ words) w word place e = elim (Bool-cases (list_eq v w)) [
  | inl t ↦ let f : list_eq v word ≡ false = rw (list_eq_sound v w t) e in rw (t, f)
  | inr f ↦ elim (Bool-cases (list_eq v word)) [
    | inl t ↦ rw (f, t)
    | inr g ↦ rw (f, g) (add_offset_other words w word place e)
  ]
]

add_entry_lem :
    (o : Option (List ℕ × Offset)) (word : List ℕ) (words : Words) (later : List Offset)
    → joined (offsets_in word (add_entry words o)) later
      ≡ joined (offsets_in word words) (matching word o later)
unfolding add_entry
add_entry_lem none word words later = refl
add_entry_lem (some (w, place)) word words later = elim (Bool-cases (list_eq w word)) [
  | inl same ↦ rw same (rw (list_eq_sound w word same) (add_offset_same words word place later))
  | inr other ↦ rw other (ap (λ o. joined o later) (add_offset_other words w word place other))
]

offsets_of-append :
    (t : StopWordsTokenizer) (text word : List ℕ) (xs ys : List (List Offset))
    → offsets_of t text word (xs ++ ys) ≡ offsets_of t text word xs ++ offsets_of t text word ys
offsets_of-append t text word [] ys = refl
offsets_of-append t text word (x ∷ xs) ys =
    ap (matching word (ngram_key t text x)) (offsets_of-append t text word xs ys)
    ∙ matching-append (ngram_key t text x)
  where
    matching-append :
        (o : Option (List ℕ × Offset))
        → matching word o (offsets_of t text word xs ++ offsets_of t text word ys)
          ≡ matching word o (offsets_of t text word xs) ++ offsets_of t text word ys
    matching-append none = refl
    matching-append (some (w, place)) = elim (Bool-cases (list_eq w word)) [
      | inl e ↦ rw e
      | inr e ↦ rw e
    ]

joined-append :
    (o : Option (List Offset)) (xs ys : List Offset) → joined (joined o xs) ys ≡ joined o (xs ++ ys)
joined-append none [] ys = refl
joined-append none (x ∷ xs) ys = refl
joined-append (some before) xs ys = ap some (append_assoc before xs ys)

module _ (t : StopWordsTokenizer) (text word : List ℕ) where
  add_ngrams_lem :
      (ngrams : List (List Offset)) (words : Words)
      → offsets_in word (add_ngrams t text ngrams words)
        ≡ joined (offsets_in word words) (offsets_of t text word ngrams)
  unfolding add_ngrams
  add_ngrams_lem [] words = sym (joined-nil (offsets_in word words))
  add_ngrams_lem (ngram ∷ ngrams) words =
      add_ngrams_lem ngrams (add_entry words (ngram_key t text ngram))
      ∙ add_entry_lem (ngram_key t text ngram) word words (offsets_of t text word ngrams)

  add_sizes_lem :
      (tokens : List Offset) (n left : ℕ) (words : Words)
      → 0 < n
      → (words' : Words) × (add_sizes t text tokens n left words ≡ ok words')
        × (offsets_in word words'
            ≡ joined (offsets_in word words) (offsets_of t text word (all_windows n left tokens)))
  unfolding add_sizes
  add_sizes_lem tokens n zero words p = (words, refl, sym (joined-nil (offsets_in word words)))
  add_sizes_lem tokens zero (suc left) words p = absurd (omega (arith, p))
  add_sizes_lem tokens (suc n) (suc left) words p =
      let ngrams = ngrams_of (suc n) tokens in
      let later = all_windows (suc (suc n)) left tokens in
      let (words', run, e) =
        add_sizes_lem tokens (suc (suc n)) left (add_ngrams t text ngrams words) (omega arith) in
      (
        words',
        run,
        e
            ∙ ap (λ o. joined o (offsets_of t text word later)) (add_ngrams_lem ngrams words)
            ∙ joined-append (offsets_in word words) (offsets_of t text word ngrams)
                (offsets_of t text word later)
            ∙ ap (joined (offsets_in word words))
                (sym (offsets_of-append t text word ngrams later)),
      )

  listed_windows :
      (tokens : List Offset) (n left : ℕ)
      → 0 < n
      → AreListed t text word
          (all_sizes n left tokens)
          (offsets_of t text word (all_windows n left tokens))
  listed_windows tokens n zero p = refl
  listed_windows tokens n (suc left) p =
      rw (offsets_of-append t text word (ngrams_of n tokens) (all_windows (suc n) left tokens)) (
        AreListed-append t text word (map (λ r. (n, r)) (tails tokens))
          (all_sizes (suc n) left tokens) (offsets_of t text word (ngrams_of n tokens)) _
          (listed_size t text word n tokens p) (listed_windows tokens (suc n) left (omega arith)))

  -- For sizes from one on: the words are found with the offsets of all their occurrences of those sizes, in the
  -- order of the sizes and then of the text, and a word without one is not found.
  pub tokenize_lem :
      (tokens : List Offset) (low high : ℕ)
      → 0 < low
      → (words : Words) × (offsets : List Offset) × (tokenize t text tokens low high ≡ ok words)
        × (offsets_in word words ≡ found offsets)
        × AreListed t text word (all_sizes low (high + 1 - low) tokens) offsets
  unfolding tokenize
  tokenize_lem tokens low high p =
      let (words, run, e) = add_sizes_lem tokens low (high + 1 - low) [] p in
      (
        words,
        offsets_of t text word (all_windows low (high + 1 - low) tokens),
        run,
        e,
        listed_windows tokens low (high + 1 - low) p,
      )
