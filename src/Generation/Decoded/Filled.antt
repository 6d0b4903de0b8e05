-- ===== src/Generation/Decoded/Filled.antt =====
-- On the matrix of ids that `generate_beam_search` returns: which cells are written.
use mathlib.Core.List.{append-nil, map-append}
use rust_bert.Prelude.{
  ℕ, zero, suc, ◌+◌, ◌-◌, ◌≤◌, ◌<◌, min, ◌≡◌, refl, sym, ap, ◌∙◌, ◌⊎◌, inl, inr, true, false,
  Option, none, some, List, [], ◌∷◌, ◌++◌, map, arith, ltb, leb, ◌==◌, ==_iff, Bool-cases,
  Option-cases, unwrap_or, length, drop, replicate, length-append, length-replicate, take-append,
  All, length-map, maximum,
}
use rust_bert.Prelude.Outcome.{ok, traverse}
use rust_bert.Generation.Greedy.{Options}
use rust_bert.Generation.Decoded.{
  Cells, minimum_of, sentence_max_length, eos_token, initial_cell, copy_front, fill_at, decode_row,
  decode_hypotheses,
}

-- What stands behind the ids in `k` more cells: the end of the sequence, then padding.
abbrev pub ending : ℕ → ℕ → ℕ → List ℕ
ending eos pad zero = []
ending eos pad (suc k) = eos ∷ replicate k pad

abbrev pub finished_row : ℕ → ℕ → ℕ → List ℕ → List ℕ
finished_row width eos pad ids = ids ++ ending eos pad (width - length ids)

-- The rows of the matrix for the limit `m`: of one width, ended and padded.
abbrev pub finished_rows : ℕ → ℕ → ℕ → List (List ℕ) → List Cells
finished_rows m eos pad best_ids =
    map (λ ids. map some (finished_row (min (maximum (map length best_ids) + 1) m) eos pad ids))
      best_ids

drop-replicate {ℓ} : {A : Type ℓ} (k n : ℕ) (a : A) → drop k (replicate n a) ≡ replicate (n - k) a
drop-replicate zero n a = let e : n - 0 ≡ n = omega arith in rw e
drop-replicate (suc k) zero a = let e : 0 - suc k ≡ 0 = omega arith in rw e
drop-replicate (suc k) (suc n) a =
    let e : suc n - suc k ≡ n - k = omega arith in rw e (drop-replicate k n a)

map-replicate : (n a : ℕ) → replicate n (some a) ≡ map some (replicate n a)
map-replicate zero a = refl
map-replicate (suc n) a = ap (◌∷◌ (some a)) (map-replicate n a)

drop_next {ℓ} : {A : Type ℓ} (xs ys : List A) (y : A) → drop (length xs + 1) (xs ++ y ∷ ys) ≡ ys
drop_next [] ys y = refl
drop_next (x ∷ xs) ys y =
    let e : length (x ∷ xs) + 1 ≡ suc (length xs + 1) = omega arith in rw e (drop_next xs ys y)

pub copy_front_lem :
    (ids : List ℕ) (w : ℕ) (c : Option ℕ)
    → length ids ≤ w
    → copy_front ids (replicate w c) ≡ ok (map some ids ++ replicate (w - length ids) c)
unfolding copy_front
copy_front_lem ids w c h =
    let fits : leb (length ids) (length (replicate w c)) ≡ true =
      ground (arith, length-replicate w c) in
    rw (fits, drop-replicate (length ids) w c)

fill_at_lem :
    (ids : List ℕ) (k v : ℕ) (c : Option ℕ)
    → fill_at (length ids) v (map some ids ++ replicate (suc k) c)
      ≡ ok (map some ids ++ some v ∷ replicate k c)
unfolding fill_at
fill_at_lem ids k v c =
    let n : length ids ≡ length (map some ids) = sym (length-map some ids) in
    let fits : ltb (length (map some ids)) (length (map some ids ++ replicate (suc k) c)) ≡ true =
      ground (arith, length-append (map some ids) (replicate (suc k) c)) in
    rw (
      n,
      fits,
      take-append (map some ids) (replicate (suc k) c),
      drop_next (map some ids) (replicate k c) c,
    )

module _ (opt : Options) (eos pad : ℕ) (first : eos_token opt ≡ ok eos) where
  -- A row that is not as long as the limit is ended and padded.
  decode_row_short :
      (longest w k : ℕ) (c : Option ℕ) (ids : List ℕ)
      → length ids < unwrap_or opt.max_length longest
      → w ≡ length ids + suc k
      → replicate k c ≡ map some (replicate k pad)
      → decode_row opt longest (replicate w c) ids ≡ ok (map some (finished_row w eos pad ids))
  unfolding decode_row
  decode_row_short longest w k c ids h e same =
      let t : ltb (length ids) (unwrap_or opt.max_length longest) ≡ true = ground arith in
      let left : w - length ids ≡ suc k = omega (arith, e) in
      rw (left, copy_front_lem ids w c (omega (arith, e)))
        (rw (t, left, first)
          (fill_at_lem ids k eos c
            ∙ ap ok (rw (map-append some ids (eos ∷ replicate k pad), same))))

  -- A row as long as the limit is only copied.
  decode_row_long :
      (longest w : ℕ) (c : Option ℕ) (ids : List ℕ)
      → unwrap_or opt.max_length longest ≤ length ids
      → w ≡ length ids
      → decode_row opt longest (replicate w c) ids ≡ ok (map some (finished_row w eos pad ids))
  unfolding decode_row
  decode_row_long longest w c ids h e =
      let t : ltb (length ids) (unwrap_or opt.max_length longest) ≡ false = ground arith in
      let left : w - length ids ≡ 0 = omega (arith, e) in
      rw (left, copy_front_lem ids w c (omega (arith, e)))
        (rw (t, left) (ap ok (append-nil (map some ids) ∙ ap (map some) (sym (append-nil ids)))))

minimum_of-le :
    (b least : ℕ) (xs : List ℕ) → b ≤ minimum_of least xs → (b ≤ least) × All (λ x. b ≤ x) xs
unfolding minimum_of
minimum_of-le b least [] h = (h, tt)
minimum_of-le b least (x ∷ xs) h =
    let (le, rest) = minimum_of-le b (min least x) xs h in
    (omega (arith, le), (omega (arith, le), rest))

maximum-le : (b : ℕ) (xs : List ℕ) → maximum xs ≤ b → All (λ x. x ≤ b) xs
maximum-le b [] h = tt
maximum-le b (x ∷ xs) h = (omega (arith, h), maximum-le b xs (omega (arith, h)))

squeezed : (b : ℕ) (xs : List ℕ) → All (λ x. b ≤ x) xs → All (λ x. x ≤ b) xs → All (λ x. x ≡ b) xs
squeezed b [] h k = tt
squeezed b (x ∷ xs) h k = (omega (arith, h.0, k.0), squeezed b xs h.1 k.1)

maximum-le_of_All : (b : ℕ) (xs : List ℕ) → All (λ x. x ≤ b) xs → maximum xs ≤ b
maximum-le_of_All b [] h = omega arith
maximum-le_of_All b (x ∷ xs) h = omega (arith, h.0, maximum-le_of_All b xs h.1)

same_lengths :
    (n : ℕ) (lengths : List ℕ)
    → (maximum (n ∷ lengths) == minimum_of n lengths) ≡ true
    → All (λ x. x ≡ maximum (n ∷ lengths)) (n ∷ lengths)
same_lengths n lengths e =
    let b = maximum (n ∷ lengths) in
    let least : b ≡ minimum_of n lengths = (==_iff b (minimum_of n lengths)).0 e in
    let (le, rest) = minimum_of-le b n lengths (omega (arith, least)) in
    squeezed b (n ∷ lengths) (le, rest) (maximum-le b (n ∷ lengths) (omega arith))

initial_cell_cases :
    (opt : Options) (eos n : ℕ) (lengths : List ℕ)
    → eos_token opt ≡ ok eos
    → (initial_cell opt (n ∷ lengths) ≡ ok (some (unwrap_or opt.pad_token_id eos)))
      ⊎ ((initial_cell opt (n ∷ lengths) ≡ ok none)
          × All (λ x. x ≡ maximum (n ∷ lengths)) (n ∷ lengths))
unfolding initial_cell
initial_cell_cases opt eos n lengths e =
    elim (Bool-cases (maximum (n ∷ lengths) == minimum_of n lengths)) [
      | inl same ↦ inr (rw same, same_lengths n lengths same)
      | inr differ ↦ elim (Option-cases opt.pad_token_id) [
        | inl p ↦ inl (rw (differ, p, e))
        | inr (pad, p) ↦ inl (rw (differ, p))
      ]
    ]

pub eos_token_lem :
    (opt : Options) (eos : ℕ) (others : List ℕ)
    → opt.eos_token_ids ≡ some (eos ∷ others)
    → eos_token opt ≡ ok eos
unfolding eos_token
eos_token_lem opt eos others e = rw e

pub run_decode :
    (opt : Options) (c : Option ℕ) (best_ids : List (List ℕ))
    → let longest = maximum (map length best_ids) in
      initial_cell opt (map length best_ids) ≡ ok c
      → decode_hypotheses opt best_ids
        ≡ traverse (decode_row opt longest (replicate (sentence_max_length opt longest) c)) best_ids
unfolding decode_hypotheses
run_decode opt c best_ids e = rw e

same_cells :
    (k pad : ℕ) (c : Option ℕ)
    → (c ≡ some pad) ⊎ (k ≡ 0)
    → replicate k c ≡ map some (replicate k pad)
same_cells k pad c (inl e) = rw e (map-replicate k pad)
same_cells k pad c (inr e) = rw e

module _ (opt : Options) (eos m : ℕ) (first : eos_token opt ≡ ok eos)
    (limit : opt.max_length ≡ some m) where
  abbrev pub pad : ℕ
  pad = unwrap_or opt.pad_token_id eos

  sentence_max_length_lem : (longest : ℕ) → sentence_max_length opt longest ≡ min (longest + 1) m
  unfolding sentence_max_length
  sentence_max_length_lem longest = rw limit

  decode_row_lem :
      (longest w : ℕ) (c : Option ℕ) (ids : List ℕ)
      → w ≡ min (longest + 1) m
      → (length ids ≤ longest) × (length ids ≤ m)
      → (c ≡ some pad) ⊎ (length ids ≡ longest)
      → decode_row opt longest (replicate w c) ids ≡ ok (map some (finished_row w eos pad ids))
  decode_row_lem longest w c ids e (b, b') cases =
      let l : unwrap_or opt.max_length longest ≡ m = rw limit in
      elim (Bool-cases (ltb (length ids) m)) [
        | inl t ↦
            let h : length ids < m = ground (arith, t) in
            let same : replicate (w - length ids - 1) c
                ≡ map some (replicate (w - length ids - 1) pad) =
              same_cells (w - length ids - 1) pad c
                (elim cases [ inl p ↦ inl p | inr q ↦ inr (omega (arith, e, q, h)) ]) in
            decode_row_short opt eos pad first longest w (w - length ids - 1) c ids
              (omega (arith, l, h)) (omega (arith, e, h, b)) same
        | inr f ↦
            let h : m ≤ length ids = ground (arith, f) in
            decode_row_long opt eos pad first longest w c ids (omega (arith, l, h))
              (omega (arith, e, h, b, b'))
      ]

  decode_rows :
      (longest w : ℕ) (c : Option ℕ) (best_ids : List (List ℕ))
      → w ≡ min (longest + 1) m
      → All (λ n. n ≤ longest) (map length best_ids)
      → All (λ n. n ≤ m) (map length best_ids)
      → (c ≡ some pad) ⊎ All (λ n. n ≡ longest) (map length best_ids)
      → traverse (decode_row opt longest (replicate w c)) best_ids
        ≡ ok (map (λ ids. map some (finished_row w eos pad ids)) best_ids)
  unfolding traverse
  decode_rows longest w c [] e b b' cases = refl
  decode_rows longest w c (ids ∷ best_ids) e b b' cases =
      let row =
        decode_row_lem longest w c ids e (b.0, b'.0)
          (elim cases [ inl p ↦ inl p | inr q ↦ inr q.0 ]) in
      let rows =
        decode_rows longest w c best_ids e b.1 b'.1
          (elim cases [ inl p ↦ inl p | inr q ↦ inr q.1 ]) in
      rw (row, rows)

  -- The ids of the hypotheses, none of them longer than the maximal length and at least one, are decoded
  -- without a panic to rows of one width, the greatest of the lengths and one more, or the maximal length
  -- where that is less. A row is the ids of its hypothesis, then, where it is shorter than the width, the
  -- end of the sequence once and padding up to the width; every cell has been written.
  pub decode_hypotheses_lem :
      (ids : List ℕ) (best_ids : List (List ℕ))
      → All (λ n. n ≤ m) (map length (ids ∷ best_ids))
      → decode_hypotheses opt (ids ∷ best_ids) ≡ ok (finished_rows m eos pad (ids ∷ best_ids))
  decode_hypotheses_lem ids best_ids b =
      let rows = ids ∷ best_ids in
      let longest = maximum (map length rows) in
      let w = sentence_max_length opt longest in
      let wide = sentence_max_length_lem longest in
      let lengths = maximum-le longest (map length rows) (omega arith) in
      elim (initial_cell_cases opt eos (length ids) (map length best_ids) first) [
        | inl e ↦
            run_decode opt (some pad) rows e
            ∙ decode_rows longest w (some pad) rows wide lengths b (inl refl)
        | inr (e, same) ↦
            run_decode opt none rows e ∙ decode_rows longest w none rows wide lengths b (inr same)
      ]
      ∙ ap (λ w. ok (map (λ row. map some (finished_row w eos pad row)) rows)) wide
