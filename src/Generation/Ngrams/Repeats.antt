-- ===== src/Generation/Ngrams/Repeats.antt =====
-- On `get_banned_tokens`: the tokens that would repeat an n-gram.
use rust_bert.Prelude.{
  ℕ, suc, ◌+◌, ◌-◌, ◌≤◌, ◌<◌, ◌≡◌, refl, sym, ◌∙◌, inl, inr, Bool, true, false, ◌&&◌, ◌||◌, none,
  some, List, [], ◌∷◌, ◌++◌, arith, ltb, leb, ◌==◌, Bool-cases, unwrap_or, length, take, drop,
  last?, length-append, length-drop, All, contains, list_eq, list_eq_sound, list_eq_refl,
}
use rust_bert.Prelude.Outcome.{ok, slice_from, slice_from-ok, checked_sub, traverse}
use rust_bert.Generation.Ngrams.{
  Ngrams, entry_push, lookup, windows, record_ngrams, banned_after, get_banned_tokens,
}

abbrev pub is_prefix : List ℕ → List ℕ → Bool
is_prefix [] ys = true
is_prefix (x ∷ xs) [] = false
is_prefix (x ∷ xs) (y ∷ ys) = y == x && is_prefix xs ys

-- `xs` stands somewhere in `ys`.
abbrev pub is_infix : List ℕ → List ℕ → Bool
is_infix xs [] = is_prefix xs []
is_infix xs (y ∷ ys) = is_prefix xs (y ∷ ys) || is_infix xs ys

contains-append : (xs : List ℕ) (v t : ℕ) → contains (xs ++ v ∷ []) t ≡ (contains xs t || v == t)
contains-append [] v t = ground arith
contains-append (x ∷ xs) v t = ground (arith, contains-append xs v t)

abbrev banned : List ℕ → Ngrams → List ℕ
banned query m = unwrap_or (lookup query m) []

banned-entry_push :
    (query : List ℕ) (m : Ngrams) (key : List ℕ) (v t : ℕ)
    → contains (banned query (entry_push m key v)) t
      ≡ (contains (banned query m) t || (list_eq key query && v == t))
unfolding lookup entry_push
banned-entry_push query [] key v t = ground arith
banned-entry_push query ((k, vs) ∷ m) key v t = ground (
  arith,
  list_eq_sound k key,
  list_eq_sound k query,
  list_eq_sound key query,
  list_eq_refl k,
  contains-append vs v t,
  banned-entry_push query m key v t,
)

-- One of the n-grams completes the query by `t`.
abbrev completes : ℕ → List ℕ → ℕ → List ℕ → Bool
completes k query t ngram =
    list_eq (take k ngram) query && elim (last? ngram) [ none ↦ false | some v ↦ v == t ]

abbrev any_completes : ℕ → List ℕ → ℕ → List (List ℕ) → Bool
any_completes k query t [] = false
any_completes k query t (g ∷ gs) = completes k query t g || any_completes k query t gs

abbrev HaveLast : List (List ℕ) → Type 0
HaveLast = All (λ g. 0 < length g)

last?-some : (g : List ℕ) → 0 < length g → (v : ℕ) × (last? g ≡ some v)
last?-some [] h = elim h [ ]
last?-some (x ∷ []) h = (x, refl)
last?-some (x ∷ y ∷ g) h = last?-some (y ∷ g) (omega arith)

record_ngrams_lem :
    (n : ℕ) (query : List ℕ) (gs : List (List ℕ)) (m : Ngrams)
    → HaveLast gs
    → (m' : Ngrams) × (record_ngrams n gs m ≡ ok m')
      × ((t : ℕ)
          → contains (banned query m') t
            ≡ (contains (banned query m) t || any_completes (n - 1) query t gs))
unfolding record_ngrams
record_ngrams_lem n query [] m h = (m, refl, λ t. ground arith)
record_ngrams_lem n query (g ∷ gs) m h =
    let (v, e) = last?-some g h.0 in
    let (m', run, spec) = record_ngrams_lem n query gs (entry_push m (take (n - 1) g) v) h.1 in
    (m', rw e run, λ t. ground (arith, spec t, banned-entry_push query m (take (n - 1) g) v t))

-- The window at the front of the list completes the query exactly when the query and `t` stand there.
completes-take :
    (query xs : List ℕ) (t : ℕ)
    → length query < length xs
    → completes (length query) query t (take (suc (length query)) xs)
      ≡ is_prefix (query ++ t ∷ []) xs
completes-take [] [] t h = elim h [ ]
completes-take [] (y ∷ ys) t h = ground arith
completes-take (q ∷ query) [] t h = elim h [ ]
completes-take (q ∷ query) (y ∷ []) t h = absurd (omega arith)
completes-take (q ∷ query) (y ∷ z ∷ zs) t h =
    ground (arith, completes-take query (z ∷ zs) t (omega arith))

is_prefix-short : (xs ys : List ℕ) → length ys < length xs → is_prefix xs ys ≡ false
is_prefix-short [] ys h = elim h [ ]
is_prefix-short (x ∷ xs) [] h = refl
is_prefix-short (x ∷ xs) (y ∷ ys) h = ground (arith, is_prefix-short xs ys (omega arith))

any_completes-windows :
    (query xs : List ℕ) (t : ℕ)
    → any_completes (length query) query t (windows (suc (length query)) xs)
      ≡ is_infix (query ++ t ∷ []) xs
unfolding windows
any_completes-windows query [] t =
    sym (is_prefix-short (query ++ t ∷ []) [] (omega (arith, length-append query (t ∷ []))))
any_completes-windows query (x ∷ xs) t =
    elim (Bool-cases (leb (suc (length query)) (suc (length xs)))) [
      | inl e ↦ rw e (
          ground (
            arith,
            completes-take query (x ∷ xs) t (ground arith),
            any_completes-windows query xs t,
          ))
      | inr e ↦ rw e (
          any_completes-windows query xs t
          ∙ ground
              (arith, is_prefix-short (query ++ t ∷ []) (x ∷ xs), length-append query (t ∷ [])))
    ]

windows-HaveLast : (n : ℕ) (xs : List ℕ) → HaveLast (windows (suc n) xs)
unfolding windows
windows-HaveLast n [] = tt
windows-HaveLast n (x ∷ xs) = elim (Bool-cases (leb (suc n) (suc (length xs)))) [
  | inl e ↦ rw e (omega arith, windows-HaveLast n xs)
  | inr e ↦ rw e (windows-HaveLast n xs)
]

banned_after_run :
    (n cur : ℕ) (ids query : List ℕ) {start : ℕ} {m : Ngrams}
    → checked_sub (cur + 1) n ≡ ok start
    → slice_from ids start ≡ ok query
    → record_ngrams n (windows n ids) [] ≡ ok m
    → banned_after n cur ids ≡ ok (banned query m)
unfolding banned_after
banned_after_run n cur ids query a b c = rw a (rw b (rw c))

banned-nil : (query : List ℕ) (t : ℕ) → contains (banned query []) t ≡ false
unfolding lookup
banned-nil query t = refl

-- The tokens that are banned after the row: those that complete an n-gram that occurs in it, for
-- n-grams of `suc n` tokens.
abbrev pub AreRepeats : ℕ → List ℕ → List ℕ → Type 0
AreRepeats n ids tokens =
    (t : ℕ) → contains tokens t ≡ is_infix (drop (length ids - n) ids ++ t ∷ []) ids

banned_after_lem :
    (n : ℕ) (ids : List ℕ)
    → n ≤ length ids
    → (tokens : List ℕ) × (banned_after (suc n) (length ids) ids ≡ ok tokens)
      × AreRepeats n ids tokens
banned_after_lem n ids h =
    let query = drop (length ids - n) ids in
    let size : length query ≡ n = omega (arith, length-drop (length ids - n) ids) in
    let (m, run, spec) =
      record_ngrams_lem (suc n) query (windows (suc n) ids) [] (windows-HaveLast n ids) in
    (
      banned query m,
      banned_after_run (suc n) (length ids) ids query {start = length ids - n} (ground arith)
          (slice_from-ok ids (length ids - n) (omega arith)) run,
      λ t. spec t ∙ ground (arith, banned-nil query t, completes_at n query t ids size),
    )
  where
    completes_at :
        (n : ℕ) (query : List ℕ) (t : ℕ) (ids : List ℕ)
        → length query ≡ n
        → any_completes (suc n - 1) query t (windows (suc n) ids) ≡ is_infix (query ++ t ∷ []) ids
    completes_at n query t ids size =
        let k : suc n - 1 ≡ length query = omega arith in
        rw (k, ← size) (any_completes-windows query ids t)

abbrev pub RowsRepeat : ℕ → List (List ℕ) → List (List ℕ) → Type 0
RowsRepeat n [] [] = Unit
RowsRepeat n [] (b ∷ bs) = ⊥
RowsRepeat n (ids ∷ rows) [] = ⊥
RowsRepeat n (ids ∷ rows) (b ∷ bs) = AreRepeats n ids b × RowsRepeat n rows bs

banned_rows :
    (n cur : ℕ) (rows : List (List ℕ))
    → n ≤ cur
    → All (λ ids. length ids ≡ cur) rows
    → (bs : List (List ℕ)) × (traverse (banned_after (suc n) cur) rows ≡ ok bs)
      × RowsRepeat n rows bs
unfolding traverse
banned_rows n cur [] h l = ([], refl, tt)
banned_rows n cur (ids ∷ rows) h l =
    let (b, e, r) = banned_after_lem n ids (omega (arith, l.0)) in
    let (bs, es, rs) = banned_rows n cur rows h l.1 in
    let e' : banned_after (suc n) cur ids ≡ ok b = rw (← l.0) e in (b ∷ bs, rw e' (rw es), (r, rs))

-- For rows of `cur_len` tokens and n-grams of at least one and at most `cur_len + 1` tokens, every row
-- gets exactly the tokens that would complete an n-gram which already occurs in it.
pub get_banned_tokens_lem :
    (n cur : ℕ) (rows : List (List ℕ))
    → n ≤ cur
    → All (λ ids. length ids ≡ cur) rows
    → (bs : List (List ℕ)) × (get_banned_tokens rows (suc n) cur ≡ ok bs) × RowsRepeat n rows bs
unfolding get_banned_tokens
get_banned_tokens_lem n cur rows h l =
    let (bs, e, r) = banned_rows n cur rows h l in (bs, ground arith, r)

-- For rows of `cur_len` tokens and n-grams of at least one token it never fails.
pub get_banned_tokens_total :
    (n cur : ℕ) (rows : List (List ℕ))
    → All (λ ids. length ids ≡ cur) rows
    → (bs : List (List ℕ)) × (get_banned_tokens rows (suc n) cur ≡ ok bs)
unfolding get_banned_tokens
get_banned_tokens_total n cur rows l = elim (Bool-cases (ltb (cur + 1) (suc n))) [
  | inl e ↦ ([] ∷ [], rw e)
  | inr e ↦ let r = get_banned_tokens_lem n cur rows (ground arith) l in (r.0, r.1)
]
