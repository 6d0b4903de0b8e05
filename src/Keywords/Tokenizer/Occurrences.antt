-- ===== src/Keywords/Tokenizer/Occurrences.antt =====
-- On the loop over the n-grams of `tokenize`: which of them are occurrences of a word.
use rust_bert.Prelude.{
  ℕ, zero, suc, ◌<◌, ◌≡◌, refl, sym, ap, ◌∙◌, ◌⊎◌, inl, inr, true, false, ◌&&◌, Option, none, some,
  List, [], ◌∷◌, ◌++◌, map, arith, ltb, leb, if◌then◌else◌, leb→le, Bool-cases, length, get_elem?,
  take, last?, length-take, get_elem?-All, All-unit, list_eq, list_eq_sound, list_eq_refl,
}
use mathlib.Core.Option.{some-injective}
use rust_bert.Keywords.Tokenizer.{
  Offset, StopWordsTokenizer, slice_of, cased, any_stopword, ngram_offset, ngram_key, ngrams_of,
}

-- The offsets at which a word is found among the n-grams.
abbrev pub matching : List ℕ → Option (List ℕ × Offset) → List Offset → List Offset
matching word none later = later
matching word (some (w, place)) later = if list_eq w word then place ∷ later else later

abbrev pub offsets_of : StopWordsTokenizer → List ℕ → List ℕ → List (List Offset) → List Offset
offsets_of t text word [] = []
offsets_of t text word (ngram ∷ ngrams) =
    matching word (ngram_key t text ngram) (offsets_of t text word ngrams)

last?-take :
    (k : ℕ) (x : Offset) (xs : List Offset)
    → k < length (x ∷ xs)
    → last? (x ∷ take k xs) ≡ get_elem? (x ∷ xs) k
last?-take zero x xs h = refl
last?-take (suc k) x [] h = absurd (omega (arith, h))
last?-take (suc k) x (y ∷ xs) h = last?-take k y xs (omega (arith, h))

ngram_offset-take :
    (k : ℕ) (x : Offset) (xs : List Offset)
    → k < length (x ∷ xs)
    → (last : Offset) × (get_elem? (x ∷ xs) k ≡ some last)
      × (ngram_offset x (take k xs) ≡ (x.0, last.1))
unfolding ngram_offset
ngram_offset-take zero x xs h = (x, refl, refl)
ngram_offset-take (suc k) x [] h = absurd (omega (arith, h))
ngram_offset-take (suc k) x (y ∷ xs) h =
    let (last, at, _) =
      get_elem?-All (λ (o : Offset). Unit {0}) k (y ∷ xs) (omega (arith, h)) (All-unit (y ∷ xs)) in
    (last, at, rw (last?-take k y xs (omega (arith, h)), at))

module _ (t : StopWordsTokenizer) (text : List ℕ) where
  -- None of the first `n` tokens is a stop word.
  abbrev pub HasNoStopword : ℕ → List Offset → Type 0
  HasNoStopword n tokens =
      (j : ℕ) (token : Offset)
      → j < n
      → get_elem? tokens j ≡ some token
      → t.is_stopword (cased t (slice_of text token)) ≡ false

  HasNoStopword-of :
      (n : ℕ) (tokens : List Offset)
      → any_stopword t text (take n tokens) ≡ false
      → HasNoStopword n tokens
  unfolding any_stopword
  HasNoStopword-of zero tokens e j token h at = absurd (omega (arith, h))
  HasNoStopword-of (suc n) [] e j token h at = ground arith
  HasNoStopword-of (suc n) (x ∷ tokens) e zero token h at =
      let same : x ≡ token = some-injective x token at in rw (← same) (ground (arith, e))
  HasNoStopword-of (suc n) (x ∷ tokens) e (suc j) token h at =
      HasNoStopword-of n tokens (ground (arith, e)) j token (omega (arith, h)) at

  any_stopword-false :
      (n : ℕ) (tokens : List Offset)
      → HasNoStopword n tokens
      → any_stopword t text (take n tokens) ≡ false
  unfolding any_stopword
  any_stopword-false zero tokens h = refl
  any_stopword-false (suc n) [] h = refl
  any_stopword-false (suc n) (x ∷ tokens) h =
      rw (h 0 x (omega arith) refl)
        (any_stopword-false n tokens (λ j token b at. h (suc j) token (omega (arith, b)) at))

  module _ (first : Offset) (rest : List Offset) where
    -- The text of an n-gram.
    abbrev raw : List ℕ
    raw = slice_of text (ngram_offset first rest)

    key_forbidden : t.has_forbidden raw ≡ true → ngram_key t text (first ∷ rest) ≡ none
    unfolding ngram_key slice_of cased any_stopword ngram_offset
    key_forbidden h = rw h

    key_stopword :
        t.has_forbidden raw ≡ false
        → t.is_stopword (cased t raw) ≡ true
        → ngram_key t text (first ∷ rest) ≡ none
    unfolding ngram_key slice_of cased any_stopword ngram_offset
    key_stopword h k = rw (h, k)

    key_inner :
        t.has_forbidden raw ≡ false
        → t.is_stopword (cased t raw) ≡ false
        → (ltb 1 (length (first ∷ rest)) && any_stopword t text (first ∷ rest)) ≡ true
        → ngram_key t text (first ∷ rest) ≡ none
    unfolding ngram_key slice_of cased any_stopword ngram_offset
    key_inner h k l = rw (h, k, l)

    key_some :
        t.has_forbidden raw ≡ false
        → t.is_stopword (cased t raw) ≡ false
        → (ltb 1 (length (first ∷ rest)) && any_stopword t text (first ∷ rest)) ≡ false
        → ngram_key t text (first ∷ rest) ≡ some (cased t raw, ngram_offset first rest)
    unfolding ngram_key slice_of cased any_stopword ngram_offset
    key_some h k l = rw (h, k, l)

  length-window :
      (k : ℕ) (x : Offset) (tokens : List Offset)
      → k < length (x ∷ tokens)
      → length (x ∷ take k tokens) ≡ suc k
  length-window k x tokens h = omega (arith, h, length-take k tokens)

  has_inner :
      (k : ℕ) (x : Offset) (tokens : List Offset)
      → k < length (x ∷ tokens)
      → (1 < suc k → HasNoStopword (suc k) (x ∷ tokens))
      → ¬ ((ltb 1 (length (x ∷ take k tokens)) && any_stopword t text (x ∷ take k tokens)) ≡ true)
  has_inner k x tokens fits clean d =
      let several : 1 < suc k = ground (arith, d, length-window k x tokens fits) in
      let some_stop : any_stopword t text (x ∷ take k tokens) ≡ true = ground (arith, d) in
      absurd (cc (any_stopword-false (suc k) (x ∷ tokens) (clean several), some_stop))

  no_inner :
      (k : ℕ) (x : Offset) (tokens : List Offset)
      → k < length (x ∷ tokens)
      → 1 < suc k
      → (ltb 1 (length (x ∷ take k tokens)) && any_stopword t text (x ∷ take k tokens)) ≡ false
      → any_stopword t text (x ∷ take k tokens) ≡ false
  no_inner k x tokens fits several d = ground (arith, d, several, length-window k x tokens fits)

  module _ (word : List ℕ) where
    -- The `n` tokens at the front of `tokens` are an occurrence of `word` at `place`: the text from the first to
    -- the last of them has no forbidden character and is `word`, in lower case if asked for, and is no stop word,
    -- and of several tokens none is a stop word.
    abbrev pub OccursAt : ℕ → List Offset → Offset → Type 0
    OccursAt n tokens place =
        (first last : Offset) × (i : ℕ) × (n ≡ suc i)
        × (get_elem? tokens 0 ≡ some first)
        × (get_elem? tokens i ≡ some last)
        × (place ≡ (first.0, last.1))
        × (t.has_forbidden (slice_of text place) ≡ false)
        × (cased t (slice_of text place) ≡ word)
        × (t.is_stopword word ≡ false)
        × (1 < n → HasNoStopword n tokens)

    -- The offsets are those of the occurrences, in the order of the sizes and tokens.
    abbrev pub AreListed : List (ℕ × List Offset) → List Offset → Type 0
    AreListed [] offsets = offsets ≡ []
    AreListed ((n, tokens) ∷ rest) offsets =
        ((place : Offset) × (later : List Offset) × (offsets ≡ place ∷ later)
          × OccursAt n tokens place
          × AreListed rest later)
        ⊎ (((place : Offset) → ¬ OccursAt n tokens place) × AreListed rest offsets)

    pub AreListed-append :
        (ps qs : List (ℕ × List Offset)) (xs ys : List Offset)
        → AreListed ps xs
        → AreListed qs ys
        → AreListed (ps ++ qs) (xs ++ ys)
    AreListed-append [] qs xs ys h k = rw h k
    AreListed-append ((n, tokens) ∷ ps) qs xs ys (inl (place, later, e, o, h)) k =
        inl (place, later ++ ys, ap (λ l. l ++ ys) e, o, AreListed-append ps qs later ys h k)
    AreListed-append ((n, tokens) ∷ ps) qs xs ys (inr (absent, h)) k =
        inr (absent, AreListed-append ps qs xs ys h k)

    -- What the turn of the loop for an n-gram makes of the offsets.
    abbrev pub Turn : ℕ → List Offset → List Offset → Type 0
    Turn n tokens later =
        ((place : Offset) × (matching word (ngram_key t text (take n tokens)) later ≡ place ∷ later)
          × OccursAt n tokens place)
        ⊎ (((place : Offset) → ¬ OccursAt n tokens place)
            × (matching word (ngram_key t text (take n tokens)) later ≡ later))

    same_place :
        (k : ℕ) (x : Offset) (tokens : List Offset) (last place : Offset)
        → get_elem? (x ∷ tokens) k ≡ some last
        → OccursAt (suc k) (x ∷ tokens) place
        → place ≡ (x.0, last.1)
    same_place k x tokens last place at (first, last', i, n, at_first, at_last, e, _, _, _, _) =
        let is_first : x ≡ first = some-injective x first at_first in
        let index : i ≡ k = omega (arith, n) in
        let is_last : last' ≡ last =
          some-injective last' last (sym at_last ∙ ap (get_elem? (x ∷ tokens)) index ∙ at) in
        e ∙ rw (is_first, is_last)

    different : {w : List ℕ} → w ≡ word → ¬ (list_eq w word ≡ false)
    different {w} e other = absurd (cc (list_eq_refl word, e, other))

    pub turn_of :
        (k : ℕ) (x : Offset) (tokens later : List Offset)
        → k < length (x ∷ tokens)
        → Turn (suc k) (x ∷ tokens) later
    turn_of k x tokens later fits =
        let (last, at, there) = ngram_offset-take k x tokens fits in
        let place = ngram_offset x (take k tokens) in
        let inner = ltb 1 (length (x ∷ take k tokens)) && any_stopword t text (x ∷ take k tokens) in
        elim (Bool-cases (t.has_forbidden (slice_of text place))) [
          | inl h ↦ inr (
            λ p o. absurd (cc (same_place k x tokens last p at o, there, o.7, h)),
            rw (key_forbidden x (take k tokens) h),
          )
          | inr h ↦ elim (Bool-cases (t.is_stopword (cased t (slice_of text place)))) [
            | inl c ↦ inr (
              λ p o. absurd (cc (same_place k x tokens last p at o, there, o.8, o.9, c)),
              rw (key_stopword x (take k tokens) h c),
            )
            | inr c ↦ elim (Bool-cases inner) [
              | inl d ↦ inr (
                λ p o. absurd (has_inner k x tokens fits o.10 d),
                rw (key_inner x (take k tokens) h c d),
              )
              | inr d ↦ elim (Bool-cases (list_eq (cased t (slice_of text place)) word)) [
                | inl same ↦
                    let is_word = list_eq_sound (cased t (slice_of text place)) word same in
                    inl (
                      place,
                      rw (key_some x (take k tokens) h c d) (rw same),
                      (
                        x,
                        last,
                        k,
                        refl,
                        refl,
                        at,
                        there,
                        h,
                        is_word,
                        rw is_word at c,
                        λ several.
                            HasNoStopword-of (suc k) (x ∷ tokens)
                              (no_inner k x tokens fits several d),
                      ),
                    )
                | inr other ↦ inr (
                  λ p o.
                      absurd (different (cc (same_place k x tokens last p at o, there, o.8)) other),
                  rw (key_some x (take k tokens) h c d) (rw other),
                )
              ]
            ]
          ]
        ]

abbrev pub tails : List Offset → List (List Offset)
tails [] = []
tails (x ∷ tokens) = (x ∷ tokens) ∷ tails tokens

get_elem?-lt : (i : ℕ) (xs : List Offset) (x : Offset) → get_elem? xs i ≡ some x → i < length xs
get_elem?-lt i [] x h = ground arith
get_elem?-lt zero (y ∷ xs) x h = omega arith
get_elem?-lt (suc i) (y ∷ xs) x h = omega (arith, get_elem?-lt i xs x h)

module _ (t : StopWordsTokenizer) (text word : List ℕ) where
  -- One size: the turns of the loop list the occurrences.
  pub listed_size :
      (n : ℕ) (tokens : List Offset)
      → 0 < n
      → AreListed t text word
          (map (λ r. (n, r)) (tails tokens))
          (offsets_of t text word (ngrams_of n tokens))
  unfolding ngrams_of
  listed_size zero tokens p = absurd (omega (arith, p))
  listed_size (suc k) [] p = refl
  listed_size (suc k) (x ∷ tokens) p =
      let later = offsets_of t text word (ngrams_of (suc k) tokens) in
      let rest = listed_size (suc k) tokens p in
      elim (Bool-cases (leb (suc k) (length (x ∷ tokens)))) [
        | inr short ↦ rw short (
            inr (
              λ place (first, last, i, n, _, at, _, _, _, _, _). absurd (
                  omega (
                    arith,
                    n,
                    get_elem?-lt i (x ∷ tokens) last at,
                    leb-false (suc k) (length (x ∷ tokens)) short,
                  )),
              rest,
            ))
        | inl fits ↦ rw fits (elim (turn_of t text word k x tokens later (leb→le (suc k) _ fits)) [
          | inl (place, e, o) ↦ inl (place, later, e, o, rest)
          | inr (absent, e) ↦ inr (absent, rw e rest)
        ])
      ]
    where
      leb-false : (a b : ℕ) → leb a b ≡ false → b < a
      leb-false a b h = ground (arith, h)
