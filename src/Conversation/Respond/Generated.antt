-- ===== src/Conversation/Respond/Generated.antt =====
-- On `clean_padding_indices` for what the generator returns: sequences that extend their rows.
use mathlib.Core.List.{append_assoc}
use rust_bert.Prelude.{
  ℕ, suc, ◌-◌, ◌≤◌, ◌≡◌, refl, sym, ap, ◌∙◌, ◌≢◌, ◌⊎◌, inl, inr, List, [], ◌∷◌, ◌++◌, arith, ◌==◌,
  Bool-cases, length, drop, replicate, length-append, length-replicate, drop-append, All,
}
use rust_bert.Prelude.Outcome.{ok, traverse}
use rust_bert.Conversation.Context.{clean_sequence, clean_padding_indices}
use rust_bert.Conversation.Context.Padding.{one_of, clean_sequence_lem}

-- `response` is what `sequence` has behind `row`, where only one padding token is kept at the end.
abbrev pub IsResponse : ℕ → List ℕ → List ℕ → List ℕ → Type 0
IsResponse pad row sequence response =
    (text : List ℕ) × (z q : ℕ) × (z ≢ pad)
    × (sequence ≡ row ++ ((text ++ z ∷ []) ++ replicate q pad))
    × (response ≡ (text ++ z ∷ []) ++ one_of pad q)

abbrev Begins : ℕ → List ℕ → Type 0
Begins pad [] = Unit
Begins pad (x ∷ xs) = x ≢ pad

-- The padding at the front of a row.
split_front :
    (pad : ℕ) (row : List ℕ)
    → (i : ℕ) × (front : List ℕ) × (row ≡ replicate i pad ++ front) × Begins pad front
split_front pad [] = (0, [], refl, tt)
split_front pad (x ∷ row) = elim (Bool-cases (x == pad)) [
  | inr other ↦ (0, x ∷ row, refl, ground arith)
  | inl same ↦
      let (i, front, e, b) = split_front pad row in
      let is_pad : x ≡ pad = ground arith in (suc i, front, rw (is_pad, ← e), b)
]

-- The padding at the end of a list, which is all of it or stands behind another token.
split_end :
    (pad : ℕ) (xs : List ℕ)
    → ((q : ℕ) × (xs ≡ replicate q pad))
      ⊎ ((a : List ℕ) × (z q : ℕ) × (z ≢ pad) × (xs ≡ (a ++ z ∷ []) ++ replicate q pad))
split_end pad [] = inl (0, refl)
split_end pad (x ∷ xs) = elim (split_end pad xs) [
  | inr (a, z, q, h, e) ↦ inr (x ∷ a, z, q, h, ap (◌∷◌ x) e)
  | inl (q, e) ↦ elim (Bool-cases (x == pad)) [
    | inl same ↦ let is_pad : x ≡ pad = ground arith in inl (suc q, rw (is_pad, e))
    | inr other ↦ inr ([], x, q, ground arith, ap (◌∷◌ x) e)
  ]
]

clean_text :
    (pad i q x z : ℕ) (front r a : List ℕ)
    → Begins pad front
    → x ≢ pad
    → z ≢ pad
    → x ∷ r ≡ a ++ z ∷ []
    → clean_sequence pad (replicate i pad ++ ((front ++ x ∷ r) ++ replicate q pad))
      ≡ ok ((front ++ x ∷ r) ++ one_of pad q, (i, q))
clean_text pad i q x z [] r a b hx hz e = clean_sequence_lem pad i q x z r a hx hz e
clean_text pad i q x z (y ∷ ys) r a b hx hz e =
    clean_sequence_lem pad i q y z (ys ++ x ∷ r) (y ∷ ys ++ a) b hz
      (ap (λ l. y ∷ ys ++ l) e ∙ sym (append_assoc (y ∷ ys) a (z ∷ [])))

-- What the loop can read of a cleaned sequence behind a window of `n` tokens, and that it is the response.
abbrev pub IsCleaned : ℕ → ℕ → List ℕ → List ℕ → List ℕ × (ℕ × ℕ) → Type 0
IsCleaned n pad row sequence g =
    (g.1.0 ≤ n) × (n - g.1.0 ≤ length g.0) × IsResponse pad row sequence (drop (n - g.1.0) g.0)

IsCleaned-parts :
    (pad i q x z : ℕ) (front r a : List ℕ)
    → Begins pad front
    → x ≢ pad
    → z ≢ pad
    → x ∷ r ≡ a ++ z ∷ []
    → let row = replicate i pad ++ front in
      let sequence = row ++ ((x ∷ r) ++ replicate q pad) in
      (g : List ℕ × (ℕ × ℕ)) × (clean_sequence pad sequence ≡ ok g)
      × IsCleaned (length row) pad row sequence g
IsCleaned-parts pad i q x z front r a b hx hz e =
    let row = replicate i pad ++ front in
    let text = (front ++ x ∷ r) ++ one_of pad q in
    let whole : row ++ ((x ∷ r) ++ replicate q pad)
        ≡ replicate i pad ++ ((front ++ x ∷ r) ++ replicate q pad) =
      simp append_assoc in
    let window : length row - i ≡ length front =
      omega (arith, length-append (replicate i pad) front, length-replicate i pad) in
    let behind : drop (length row - i) text ≡ (a ++ z ∷ []) ++ one_of pad q =
      rw (window, append_assoc front (x ∷ r) (one_of pad q))
        (drop-append front ((x ∷ r) ++ one_of pad q) ∙ ap (λ l. l ++ one_of pad q) e) in
    (
      (text, (i, q)),
      rw whole (clean_text pad i q x z front r a b hx hz e),
      (
        omega (arith, length-append (replicate i pad) front, length-replicate i pad),
        omega (
          arith,
          window,
          length-append (front ++ x ∷ r) (one_of pad q),
          length-append front (x ∷ r),
        ),
        (a, z, q, hz, ap (λ l. row ++ (l ++ replicate q pad)) e, behind),
      ),
    )

clean_extended :
    (pad x : ℕ) (row rest : List ℕ)
    → x ≢ pad
    → (g : List ℕ × (ℕ × ℕ)) × (clean_sequence pad (row ++ x ∷ rest) ≡ ok g)
      × IsCleaned (length row) pad row (row ++ x ∷ rest) g
clean_extended pad x row rest h =
    let (i, front, row_e, b) = split_front pad row in
    rw row_e (elim (split_end pad rest) [
      | inl (q, e) ↦ rw e (IsCleaned-parts pad i q x x front [] [] b h h refl)
      | inr (a, z, q, hz, e) ↦
          rw e (IsCleaned-parts pad i q x z front (a ++ z ∷ []) (x ∷ a) b h hz refl)
    ])

-- Every sequence is its row with at least one token behind it, the first of them not padding.
abbrev pub AreExtended : ℕ → List (List ℕ) → List (List ℕ) → Type 0
AreExtended pad [] [] = Unit
AreExtended pad [] (s ∷ output) = ⊥
AreExtended pad (r ∷ rows) [] = ⊥
AreExtended pad (r ∷ rows) (s ∷ output) =
    ((x : ℕ) × (rest : List ℕ) × (x ≢ pad) × (s ≡ r ++ x ∷ rest)) × AreExtended pad rows output

abbrev pub AreCleaned : ℕ → ℕ → List (List ℕ) → List (List ℕ) → List (List ℕ × (ℕ × ℕ)) → Type 0
AreCleaned n pad [] [] [] = Unit
AreCleaned n pad (r ∷ rows) (s ∷ output) (g ∷ generated) =
    IsCleaned n pad r s g × AreCleaned n pad rows output generated
AreCleaned n pad _ _ _ = ⊥

pub clean_rows :
    (pad n : ℕ) (rows output : List (List ℕ))
    → All (λ r. length r ≡ n) rows
    → AreExtended pad rows output
    → (generated : List (List ℕ × (ℕ × ℕ))) × (clean_padding_indices pad output ≡ ok generated)
      × AreCleaned n pad rows output generated
unfolding clean_padding_indices traverse
clean_rows pad n [] [] l h = ([], refl, tt)
clean_rows pad n [] (s ∷ output) l h = elim h [ ]
clean_rows pad n (r ∷ rows) [] l h = elim h [ ]
clean_rows pad n (r ∷ rows) (s ∷ output) l h =
    let (x, rest, o, e) = h.0 in
    let (g, c, f) = clean_extended pad x r rest o in
    let (gs, cs, fs) = clean_rows pad n rows output l.1 h.1 in
    let c' : clean_sequence pad s ≡ ok g = rw e c in
    let f' : IsCleaned n pad r s g = rw (e, ← l.0) f in (g ∷ gs, rw c' (rw cs), (f', fs))
