-- ===== src/Generation/Greedy/Padding.antt =====
-- On one turn of `generate_no_beam_search`: end-of-sequence tokens, padding and lengths.
use mathlib.Core.List.{append_assoc}
use rust_bert.Prelude.{
  ℕ, zero, suc, ◌+◌, ◌-◌, ◌*◌, ◌≡◌, refl, ap, ◌∙◌, ◌⊎◌, inl, inr, true, false, some, List, [], ◌∷◌,
  ◌++◌, map, arith, ◌==◌, if◌then◌else◌, Bool-cases, length, replicate, length-append, All,
  contains,
}
use rust_bert.Prelude.Outcome.{ok}
use rust_bert.Generation.Greedy.{
  Row, Options, check_eos, add_token, add_tokens, extend_attention, cap_length,
}

-- Either no end-of-sequence token was added, or the first that was is followed by padding only.
abbrev pub IsSettled : List ℕ → ℕ → Row → Type 0
IsSettled eos pad row =
    (row.unfinished ≡ 1)
    ⊎ ((body : List ℕ) × (e k : ℕ) × (row.unfinished ≡ 0)
        × (row.ids ≡ body ++ (e ∷ replicate k pad))
        × (contains eos e ≡ true)
        × (row.sentence_length ≡ length body + 1))

check_eos-finished :
    (n token : ℕ) (eos : List ℕ) (row : Row) → row.unfinished ≡ 0 → check_eos n token eos row ≡ row
unfolding check_eos
check_eos-finished n token [] row e = refl
check_eos-finished n token (x ∷ eos) row e =
    let none_left : (if token == x then 1 else 0) * row.unfinished ≡ 0 = rw e (omega arith) in
    rw none_left (rw e (check_eos-finished n token eos (record row { unfinished = 0 }) refl))

check_eos-unfinished :
    (n token : ℕ) (eos : List ℕ) (row : Row)
    → row.unfinished ≡ 1
    → check_eos n token eos row
      ≡ (if contains eos token then record row { unfinished = 0; sentence_length = n + 1 } else row)
unfolding check_eos
check_eos-unfinished n token [] row e = refl
check_eos-unfinished n token (x ∷ eos) row e = elim (Bool-cases (token == x)) [
  | inl h ↦
      let added = record row { unfinished = 0; sentence_length = n + 1 } in
      rw (h, e) (ground (arith, check_eos-finished n token eos added refl))
  | inr h ↦
      rw (h, e)
        (ground (arith, check_eos-unfinished n token eos (record row { unfinished = 1 }) refl))
]

replicate-snoc : (k pad : ℕ) → replicate k pad ++ pad ∷ [] ≡ replicate (suc k) pad
replicate-snoc zero pad = refl
replicate-snoc (suc k) pad = ap (◌∷◌ pad) (replicate-snoc k pad)

-- The text with its end and padding, one padding token longer.
pad_more :
    (body : List ℕ) (e k pad : ℕ)
    → (body ++ (e ∷ replicate k pad)) ++ pad ∷ [] ≡ body ++ (e ∷ replicate (suc k) pad)
pad_more body e k pad =
    append_assoc body (e ∷ replicate k pad) (pad ∷ [])
    ∙ ap (λ (l : List ℕ). body ++ (e ∷ l)) (replicate-snoc k pad)

-- The row after the turn: settled, one token longer, and otherwise as it was.
abbrev pub Added : List ℕ → ℕ → Row → Row → Type 0
Added eos pad row row' = IsSettled eos pad row' × (token : ℕ) × (row'.ids ≡ row.ids ++ token ∷ [])

add_finished :
    (opt : Options) (n next : ℕ) (row : Row) {eos : List ℕ} {pad : ℕ}
    → opt.eos_token_ids ≡ some eos
    → opt.pad_token_id ≡ some pad
    → row.unfinished ≡ 0
    → add_token opt n next row ≡ ok (record row { ids = row.ids ++ pad ∷ [] })
unfolding add_token
add_finished opt n next row {eos} {pad} e p u =
    let token : next * row.unfinished + pad * (1 - row.unfinished) ≡ pad = rw u (omega arith) in
    rw (e, p, token)
      (ap ok (check_eos-finished n pad eos (record row { ids = row.ids ++ pad ∷ [] }) u))

add_unfinished :
    (opt : Options) (n next : ℕ) (row : Row) {eos : List ℕ} {pad : ℕ}
    → opt.eos_token_ids ≡ some eos
    → opt.pad_token_id ≡ some pad
    → row.unfinished ≡ 1
    → add_token opt n next row
      ≡ ok (
          if contains eos next
          then record row { ids = row.ids ++ next ∷ []; unfinished = 0; sentence_length = n + 1 }
          else record row { ids = row.ids ++ next ∷ [] })
unfolding add_token
add_unfinished opt n next row {eos} {pad} e p u =
    let token : next * row.unfinished + pad * (1 - row.unfinished) ≡ next = rw u (omega arith) in
    rw (e, p, token)
      (ap ok (check_eos-unfinished n next eos (record row { ids = row.ids ++ next ∷ [] }) u))

pub add_token-Added :
    (opt : Options) (next : ℕ) (row : Row) {eos : List ℕ} {pad : ℕ}
    → opt.eos_token_ids ≡ some eos
    → opt.pad_token_id ≡ some pad
    → IsSettled eos pad row
    → (row' : Row) × (add_token opt (length row.ids) next row ≡ ok row') × Added eos pad row row'
add_token-Added opt next row {eos} {pad} e p (inr (body, x, k, u, i, c, n)) = (
  record row { ids = row.ids ++ pad ∷ [] },
  add_finished opt (length row.ids) next row e p u,
  (
    inr (body, x, suc k, u, ap (λ (l : List ℕ). l ++ pad ∷ []) i ∙ pad_more body x k pad, c, n),
    pad,
    refl,
  ),
)
add_token-Added opt next row {eos} {pad} e p (inl u) = elim (Bool-cases (contains eos next)) [
  | inl c ↦ (
    record row { ids = row.ids ++ next ∷ []; unfinished = 0; sentence_length = length row.ids + 1 },
    add_unfinished opt (length row.ids) next row e p u ∙ rw c,
    (inr (row.ids, next, 0, refl, refl, c, refl), next, refl),
  )
  | inr c ↦ (
    record row { ids = row.ids ++ next ∷ [] },
    add_unfinished opt (length row.ids) next row e p u ∙ rw c,
    (inl u, next, refl),
  )
]

-- Every row settled and of one length.
abbrev pub AreSettled : List ℕ → ℕ → ℕ → List Row → Type 0
AreSettled eos pad n = All (λ row. IsSettled eos pad row × (length row.ids ≡ n))

pub add_tokens-AreSettled :
    (opt : Options) (n : ℕ) (nexts : List ℕ) (rows : List Row) {eos : List ℕ} {pad : ℕ}
    → opt.eos_token_ids ≡ some eos
    → opt.pad_token_id ≡ some pad
    → length nexts ≡ length rows
    → AreSettled eos pad n rows
    → (rows' : List Row) × (add_tokens opt n nexts rows ≡ ok rows')
      × AreSettled eos pad (n + 1) rows'
      × (length rows' ≡ length rows)
unfolding add_tokens
add_tokens-AreSettled opt n [] [] e p l h = ([], refl, tt, refl)
add_tokens-AreSettled opt n [] (row ∷ rows) e p l h = absurd (omega arith)
add_tokens-AreSettled opt n (next ∷ nexts) [] e p l h = absurd (omega arith)
add_tokens-AreSettled opt n (next ∷ nexts) (row ∷ rows) e p l ((s, size), hs) =
    let (row', run, added) = add_token-Added opt next row e p s in
    let (rows', runs, ss, l') = add_tokens-AreSettled opt n nexts rows e p (omega arith) hs in
    let run' : add_token opt n next row ≡ ok row' = rw (← size) run in
    (
      row' ∷ rows',
      rw run' (rw runs),
      ((added.0, omega (arith, ap length added.2, length-append row.ids (added.1 ∷ []))), ss),
      omega arith,
    )

extend-IsSettled :
    (opt : Options) (eos : List ℕ) (pad : ℕ) (row : Row)
    → IsSettled eos pad row
    → IsSettled eos pad (extend_attention opt row) × ((extend_attention opt row).ids ≡ row.ids)
unfolding extend_attention
extend-IsSettled opt eos pad row s = elim (Bool-cases opt.is_encoder_decoder) [
  | inl b ↦ rw b (s, refl)
  | inr b ↦ rw b (s, refl)
]

pub extend-AreSettled :
    (opt : Options) (eos : List ℕ) (pad n : ℕ) (rows : List Row)
    → AreSettled eos pad n rows
    → AreSettled eos pad n (map (extend_attention opt) rows)
extend-AreSettled opt eos pad n [] h = tt
extend-AreSettled opt eos pad n (row ∷ rows) ((s, size), hs) =
    let (s', i) = extend-IsSettled opt eos pad row s in
    ((s', ap length i ∙ size), extend-AreSettled opt eos pad n rows hs)

cap_length-IsSettled :
    (eos : List ℕ) (pad n : ℕ) (row : Row)
    → IsSettled eos pad row
    → IsSettled eos pad (cap_length n row) × ((cap_length n row).ids ≡ row.ids)
unfolding cap_length
cap_length-IsSettled eos pad n row (inl u) =
    let t : (row.unfinished == 0) ≡ false = ground arith in rw t (inl u, refl)
cap_length-IsSettled eos pad n row (inr (body, x, k, u, i, c, l)) =
    let t : (row.unfinished == 0) ≡ true = ground arith in rw t (inr (body, x, k, u, i, c, l), refl)

pub cap_length-AreSettled :
    (eos : List ℕ) (pad n m : ℕ) (rows : List Row)
    → AreSettled eos pad n rows
    → AreSettled eos pad n (map (cap_length m) rows)
cap_length-AreSettled eos pad n m [] h = tt
cap_length-AreSettled eos pad n m (row ∷ rows) ((s, size), hs) =
    let (s', i) = cap_length-IsSettled eos pad m row s in
    ((s', ap length i ∙ size), cap_length-AreSettled eos pad n m rows hs)
