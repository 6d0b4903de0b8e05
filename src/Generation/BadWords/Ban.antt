-- ===== src/Generation/BadWords/Ban.antt =====
-- On the step of the generation that bans bad words: the scores that it changes.
use mathlib.Core.List.{append_assoc}
use rust_bert.Prelude.{
  ℕ, zero, suc, ◌-◌, ◌<◌, ◌≡◌, refl, sym, ap, ◌∙◌, Bool, true, false, ◌&&◌, ◌||◌, some, List, [],
  ◌∷◌, ◌++◌, map, arith, leb, ◌==◌, if◌then◌else◌, unwrap_or, map_option, length, get_elem?, take,
  drop, last?, but_last, length-append, length-drop, last?-append, but_last-append, All, contains,
}
use rust_bert.Prelude.Outcome.{ok, panics, traverse}
use rust_bert.Generation.BadWords.{
  Scores, Mask, if_any, split_words, tokens_match, sequence_banned, last_tokens,
  get_dynamic_bad_word_ids, calc_static_bad_word_mask, dynamic_mask, combine, ban_step,
}
use rust_bert.Generation.BadWords.Match.{tokens_match_iff}

Bool-ext : (a b : Bool) → (a ≡ true → b ≡ true) → (b ≡ true → a ≡ true) → a ≡ b
Bool-ext true b f g = sym (f refl)
Bool-ext false true f g = g refl
Bool-ext false false f g = refl

some_inj {ℓ} : {A : Type ℓ} {a b : A} → some a ≡ some b → a ≡ b
some_inj {a} p = ap (λ o. unwrap_or o a) p

-- A word whose prefix matches and whose last token is `t` is one that `t` completes.
word_completed :
    (prev p : List ℕ) (l t : ℕ)
    → (tokens_match prev p && l == t) ≡ tokens_match (prev ++ t ∷ []) (p ++ l ∷ [])
word_completed prev p l t =
    Bool-ext _ _ (λ h. forward (ground arith) (ground arith))
      (λ h. backward ((tokens_match_iff (prev ++ t ∷ []) (p ++ l ∷ [])).0 h))
  where
    forward :
        tokens_match prev p ≡ true → l ≡ t → tokens_match (prev ++ t ∷ []) (p ++ l ∷ []) ≡ true
    forward m e =
        let (pre, s) = (tokens_match_iff prev p).0 m in
        (tokens_match_iff (prev ++ t ∷ []) (p ++ l ∷ [])).1
          (pre, rw (s, e) (append_assoc pre p (t ∷ [])))

    backward :
        (pre : List ℕ) × (prev ++ t ∷ [] ≡ pre ++ (p ++ l ∷ []))
        → (tokens_match prev p && l == t) ≡ true
    backward (pre, e) =
        let e' : prev ++ t ∷ [] ≡ (pre ++ p) ++ l ∷ [] = e ∙ sym (append_assoc pre p (l ∷ [])) in
        let tails : t ≡ l =
          some_inj (sym (last?-append prev t) ∙ ap last? e' ∙ last?-append (pre ++ p) l) in
        let fronts : prev ≡ pre ++ p =
          sym (but_last-append prev t) ∙ ap but_last e' ∙ but_last-append (pre ++ p) l in
        let m = (tokens_match_iff prev p).1 (pre, fronts) in ground arith

-- `t` completes one of the words.
abbrev pub completes_word : List ℕ → List (List ℕ) → ℕ → Bool
completes_word prev [] t = false
completes_word prev (word ∷ words) t =
    tokens_match (prev ++ t ∷ []) word || completes_word prev words t

-- A word that is not empty is its prefix and its last token.
split_last :
    (word : List ℕ)
    → 0 < length word
    → (l : ℕ) × (last? word ≡ some l) × (take (length word - 1) word ++ l ∷ [] ≡ word)
split_last [] h = elim h [ ]
split_last (x ∷ []) h = (x, refl, refl)
split_last (x ∷ y ∷ r) h =
    let (l, e, f) = split_last (y ∷ r) (omega arith) in
    let n : suc (suc (length r)) - 1 ≡ suc (suc (length r) - 1) = omega arith in
    (l, e, rw n (ap (◌∷◌ x) f))

sequence_banned_step :
    (prev word : List ℕ) (words : List (List ℕ)) {l : ℕ} {rest : List ℕ}
    → 0 < length word
    → last? word ≡ some l
    → sequence_banned prev words ≡ ok rest
    → sequence_banned prev (word ∷ words)
      ≡ ok (if tokens_match prev (take (length word - 1) word) then l ∷ rest else rest)
unfolding sequence_banned
sequence_banned_step prev word words h e r =
    let n : leb 1 (length word) ≡ true = ground arith in rw n (rw e (rw r))

sequence_banned_lem :
    (prev : List ℕ) (words : List (List ℕ))
    → All (λ w. 0 < length w) words
    → (tokens : List ℕ) × (sequence_banned prev words ≡ ok tokens)
      × ((t : ℕ) → contains tokens t ≡ completes_word prev words t)
sequence_banned_lem prev [] h = ([], unfold sequence_banned in refl, λ t. refl)
sequence_banned_lem prev (word ∷ words) h =
    let (l, e, f) = split_last word h.0 in
    let (rest, run, spec) = sequence_banned_lem prev words h.1 in
    (
      if tokens_match prev (take (length word - 1) word) then l ∷ rest else rest,
      sequence_banned_step prev word words h.0 e run,
      λ t. ground (
        arith,
        spec t,
        word_completed prev (take (length word - 1) word) l t,
        ap (tokens_match (prev ++ t ∷ [])) f,
      ),
    )

banned_rows :
    (rows words : List (List ℕ))
    → All (λ w. 0 < length w) words
    → (banned : List (List ℕ)) × (get_dynamic_bad_word_ids rows words ≡ ok banned)
      × ((r t : ℕ) (row : List ℕ)
          → get_elem? rows r ≡ some row
          → dynamic_mask banned r t ≡ completes_word row words t)
unfolding get_dynamic_bad_word_ids traverse dynamic_mask
banned_rows [] words h = ([], refl, λ r t row e. absurd (cc e))
banned_rows (prev ∷ rows) words h =
    let (tokens, run, spec) = sequence_banned_lem prev words h in
    let (banned, runs, specs) = banned_rows rows words h in
    (tokens ∷ banned, rw run (rw runs), go tokens banned spec specs)
  where
    go :
        (tokens : List ℕ) (banned : List (List ℕ))
        → ((t : ℕ) → contains tokens t ≡ completes_word prev words t)
        → ((r t : ℕ) (row : List ℕ)
            → get_elem? rows r ≡ some row
            → dynamic_mask banned r t ≡ completes_word row words t)
        → (r t : ℕ) (row : List ℕ) → get_elem? (prev ∷ rows) r ≡ some row
        → dynamic_mask (tokens ∷ banned) r t ≡ completes_word row words t
    go tokens banned spec specs zero t row e =
        spec t ∙ ap (λ (p : List ℕ). completes_word p words t) (some_inj e)
    go tokens banned spec specs (suc r) t row e = specs r t row e

get_elem?-map :
    (f : List ℕ → List ℕ) (rows : List (List ℕ)) (r : ℕ) (row : List ℕ)
    → get_elem? rows r ≡ some row
    → get_elem? (map f rows) r ≡ some (f row)
get_elem?-map f [] r row e = absurd (cc e)
get_elem?-map f (x ∷ rows) zero row e = ap (map_option f) e
get_elem?-map f (x ∷ rows) (suc r) row e = get_elem?-map f rows r row e

split_words-nonempty :
    (words : List (List ℕ))
    → All (λ w. 0 < length w) words
    → All (λ w. 0 < length w) (split_words words).1
unfolding split_words
split_words-nonempty [] h = tt
split_words-nonempty ([] ∷ words) h = absurd (omega arith)
split_words-nonempty ((t ∷ []) ∷ words) h = split_words-nonempty words h.1
split_words-nonempty ((t ∷ u ∷ w) ∷ words) h = (omega arith, split_words-nonempty words h.1)

split_words-singles :
    (words : List (List ℕ)) → All (λ w. length w ≡ 1) words → (split_words words).1 ≡ []
unfolding split_words
split_words-singles [] h = refl
split_words-singles ([] ∷ words) h = absurd (omega arith)
split_words-singles ((t ∷ []) ∷ words) h = split_words-singles words h.1
split_words-singles ((t ∷ u ∷ w) ∷ words) h = absurd (omega arith)

combine_static :
    (singles : List ℕ) (dynamic : Mask) (r t : ℕ)
    → combine (map_option calc_static_bad_word_mask (if_any singles)) dynamic r t
      ≡ (contains singles t || dynamic r t)
unfolding combine calc_static_bad_word_mask
combine_static [] dynamic r t = refl
combine_static (x ∷ singles) dynamic r t = refl

module _ {S F : Type 0} (scores : Scores S F) where
  -- Bad words of one token each: the step panics, whatever the sequences and the scores.
  pub ban_step-singles :
      (words token_ids : List (List ℕ)) (s : S)
      → All (λ w. length w ≡ 1) words
      → ban_step scores (some words) token_ids s ≡ panics
  unfolding ban_step
  ban_step-singles words token_ids s h = rw (split_words-singles words h)

  ban_run :
      (words token_ids : List (List ℕ)) (s : S) {w : List ℕ} {ws banned : List (List ℕ)}
      → (split_words words).1 ≡ w ∷ ws
      → get_dynamic_bad_word_ids (map (last_tokens (length (w ∷ ws))) token_ids) (w ∷ ws)
        ≡ ok banned
      → ban_step scores (some words) token_ids s
        ≡ ok (
            scores.masked_fill s (
              combine
                (map_option calc_static_bad_word_mask (if_any (split_words words).0))
                (dynamic_mask banned)))
  unfolding ban_step
  ban_run words token_ids s e b = rw (e, if_any) (rw b)

  -- With words that are not empty, `w ∷ ws` of them of more than one token, only as many last tokens of a
  -- row are looked at as `w ∷ ws` has words, however long these are. Exactly these scores of the row become
  -- minus infinity: those of the words of one token, and those of the tokens that complete one of `w ∷ ws`
  -- behind the tokens looked at.
  pub ban_step_lem :
      (words token_ids : List (List ℕ)) (s : S) (w : List ℕ) (ws : List (List ℕ))
      → All (λ v. 0 < length v) words
      → (split_words words).1 ≡ w ∷ ws
      → (s' : S) × (ban_step scores (some words) token_ids s ≡ ok s')
        × ((r t : ℕ) (row : List ℕ)
            → get_elem? token_ids r ≡ some row
            → scores.at s' r t ≡ (
                if contains (split_words words).0 t
                  || completes_word (last_tokens (length (w ∷ ws)) row) (w ∷ ws) t
                then scores.neg_infinity
                else scores.at s r t))
  ban_step_lem words token_ids s w ws h e =
      let n = length (w ∷ ws) in
      let (banned, run, spec) =
        banned_rows (map (last_tokens n) token_ids) (w ∷ ws)
          (rw e at (split_words-nonempty words h)) in
      (
        scores.masked_fill s (
            combine (map_option calc_static_bad_word_mask (if_any (split_words words).0))
              (dynamic_mask banned)),
        ban_run words token_ids s e run,
        λ r t row at.
            scores.at-masked_fill s _ r t
            ∙ ap (λ (b : Bool). if b then scores.neg_infinity else scores.at s r t)
                (combine_static (split_words words).0 (dynamic_mask banned) r t
                  ∙ ap (λ (b : Bool). contains (split_words words).0 t || b)
                      (spec r t (last_tokens n row)
                        (get_elem?-map (last_tokens n) token_ids r row at))),
      )

  short_match : (prev word : List ℕ) → length prev < length word → tokens_match prev word ≡ false
  unfolding tokens_match
  short_match prev [] h = elim h [ ]
  short_match prev (x ∷ word) h = ground arith

  -- A single bad word of three or more tokens bans nothing: the step leaves every score as it was.
  pub ban_step-long_word :
      (a b c : ℕ) (word : List ℕ) (token_ids : List (List ℕ)) (s : S)
      → (s' : S) × (ban_step scores (some ((a ∷ b ∷ c ∷ word) ∷ [])) token_ids s ≡ ok s')
        × ((r t : ℕ) (row : List ℕ)
            → get_elem? token_ids r ≡ some row
            → scores.at s' r t ≡ scores.at s r t)
  unfolding split_words last_tokens
  ban_step-long_word a b c word token_ids s =
      let long = a ∷ b ∷ c ∷ word in
      let (s', run, spec) = ban_step_lem (long ∷ []) token_ids s long [] (omega arith, tt) refl in
      (
        s',
        run,
        λ r t row at.
            let n : length (last_tokens 1 row ++ t ∷ []) < length long = omega (
              arith,
              length-append (drop (length row - 1) row) (t ∷ []),
              length-drop (length row - 1) row,
            ) in
            ground (arith, spec r t row at, short_match (last_tokens 1 row ++ t ∷ []) long n),
      )
