-- ===== src/Generation/Decoded/Unwritten.antt =====
-- On the matrix of ids that `generate_beam_search` returns: cells that nothing writes.
use rust_bert.Prelude.{
  ℕ, ◌+◌, ◌-◌, ◌≤◌, min, ◌≡◌, refl, ap, ◌∙◌, true, false, none, some, List, [], ◌∷◌, ◌++◌, map,
  arith, ltb, ◌==◌, ==_iff, length, replicate, All, maximum,
}
use rust_bert.Prelude.Outcome.{ok, traverse}
use rust_bert.Generation.Greedy.{Options}
use rust_bert.Generation.Decoded.{
  sentence_max_length, initial_cell, decode_row, decode_hypotheses, minimum_of,
}
use rust_bert.Generation.Decoded.Filled.{copy_front_lem, run_decode}

maximum_of_equal : (n : ℕ) (xs : List ℕ) → All (λ x. x ≡ n) xs → maximum xs ≤ n
maximum_of_equal n [] h = omega arith
maximum_of_equal n (x ∷ xs) h = omega (arith, h.0, maximum_of_equal n xs h.1)

minimum_of_equal :
    (n least : ℕ) (xs : List ℕ) → least ≡ n → All (λ x. x ≡ n) xs → minimum_of least xs ≡ n
unfolding minimum_of
minimum_of_equal n least [] e h = e
minimum_of_equal n least (x ∷ xs) e h =
    minimum_of_equal n (min least x) xs (omega (arith, e, h.0)) h.1

module _ (opt : Options) (unlimited : opt.max_length ≡ none) where
  initial_cell_unwritten :
      (n k : ℕ) (lengths : List ℕ)
      → All (λ x. x ≡ n) (k ∷ lengths)
      → initial_cell opt (k ∷ lengths) ≡ ok none
  unfolding initial_cell
  initial_cell_unwritten n k lengths h =
      let top = maximum_of_equal n (k ∷ lengths) h in
      let low = minimum_of_equal n k lengths h.0 h.1 in
      let same : (maximum (k ∷ lengths) == minimum_of k lengths) ≡ true =
        (==_iff (maximum (k ∷ lengths)) (minimum_of k lengths)).1 (omega (arith, top, low, h.0)) in
      rw same

  sentence_max_length_unlimited : (k : ℕ) → sentence_max_length opt k ≡ k + 1
  unfolding sentence_max_length
  sentence_max_length_unlimited k = rw unlimited

  decode_row_copied :
      (n : ℕ) (ids : List ℕ)
      → length ids ≡ n
      → decode_row opt n (replicate (n + 1) none) ids ≡ ok (map some ids ++ none ∷ [])
  unfolding decode_row
  decode_row_copied n ids e =
      let whole : ltb (length ids) n ≡ false = ground (arith, e) in
      let one : n + 1 - length ids ≡ 1 = omega (arith, e) in
      rw (copy_front_lem ids (n + 1) none (omega (arith, e)), unlimited) (rw (whole, one))

  decode_rows_copied :
      (n : ℕ) (best_ids : List (List ℕ))
      → All (λ x. x ≡ n) (map length best_ids)
      → traverse (decode_row opt n (replicate (n + 1) none)) best_ids
        ≡ ok (map (λ ids. map some ids ++ none ∷ []) best_ids)
  unfolding traverse
  decode_rows_copied n [] h = refl
  decode_rows_copied n (ids ∷ best_ids) h =
      let row = decode_row_copied n ids h.0 in
      let rows = decode_rows_copied n best_ids h.1 in rw (row, rows)

  -- Without a maximal length, hypotheses of one length are decoded to rows that are one cell longer, and
  -- that cell is never written: it is neither padding nor the end of the sequence.
  pub decode_hypotheses-none :
      (n : ℕ) (ids : List ℕ) (best_ids : List (List ℕ))
      → All (λ x. x ≡ n) (map length (ids ∷ best_ids))
      → decode_hypotheses opt (ids ∷ best_ids)
        ≡ ok (map (λ row. map some row ++ none ∷ []) (ids ∷ best_ids))
  decode_hypotheses-none n ids best_ids h =
      let rows = ids ∷ best_ids in
      let longest : maximum (map length rows) ≡ n =
        omega (arith, maximum_of_equal n (map length rows) h, h.0) in
      let wide : sentence_max_length opt n ≡ n + 1 = sentence_max_length_unlimited n in
      run_decode opt none rows (initial_cell_unwritten n (length ids) (map length best_ids) h)
      ∙ ap (λ k. traverse (decode_row opt k (replicate (sentence_max_length opt k) none)) rows)
          longest
      ∙ ap (λ w. traverse (decode_row opt n (replicate w none)) rows) wide
      ∙ decode_rows_copied n rows h
