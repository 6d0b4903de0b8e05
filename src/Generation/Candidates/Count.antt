-- ===== src/Generation/Candidates/Count.antt =====
-- On the selection of `generate_beam_search`: as many candidates as there are beams.
use rust_bert.Prelude.{
  ℕ, zero, suc, ◌+◌, ◌-◌, ◌*◌, ◌/◌, ◌≤◌, ◌<◌, ◌≡◌, refl, ap, inl, inr, Bool, true, false, not,
  Option, none, some, List, [], ◌∷◌, map, arith, leb, ◌==◌, if◌then◌else◌, ==_iff, Bool-cases,
  length, take, length-take, select, All, length-map, contains, AllDifferent,
  length-le_of_AllDifferent,
}
use native.Mathlib.Nat.{div-mul-le_self, div-lt_iff_lt-mul, lt-div-mul-add}
use rust_bert.Generation.Candidates.{Candidate, candidate_of, is_eos, masked_select}

module _ {F : Type 0} where
  -- The candidates of other tokens than the end of sequence, in order.
  abbrev pub without_eos : Option ℕ → List (Candidate F) → List (Candidate F)
  without_eos eos = select (λ c. not (is_eos eos c))

  masked_select-past :
      (eos : Option ℕ) (n count : ℕ) (row : List (Candidate F))
      → n ≤ count
      → masked_select eos n count row ≡ []
  unfolding masked_select
  masked_select-past eos n count [] h = refl
  masked_select-past eos n count (c ∷ row) h =
      ground
        (arith, masked_select-past eos n (count + 1) row, masked_select-past eos n (count + 0) row)

  take-nil : (n : ℕ) → ◌≡◌ {A = List (Candidate F)} [] (take n [])
  take-nil zero = refl
  take-nil (suc n) = refl

  masked_select-take :
      (eos : Option ℕ) (m count : ℕ) (row : List (Candidate F))
      → masked_select eos m count row ≡ take (m - count) (without_eos eos row)
  unfolding masked_select
  masked_select-take eos m count [] = take-nil (m - count)
  masked_select-take eos m count (c ∷ row) = elim (Bool-cases (is_eos eos c)) [
    | inl e ↦
        let same : count + 0 ≡ count = omega arith in
        rw (e, same) (ground (arith, masked_select-take eos m count row))
    | inr e ↦ elim (Bool-cases (leb (count + 1) m)) [
      | inl k ↦
          let n : m - count ≡ suc (m - (count + 1)) = ground arith in
          rw (e, n, k) (ap (◌∷◌ c) (masked_select-take eos m (count + 1) row))
      | inr k ↦
          let n : m - count ≡ 0 = ground arith in
          rw (e, n, k) (masked_select-past eos m (count + 1) row (ground arith))
    ]
  ]

  length-without_eos :
      (eos : Option ℕ) (row : List (Candidate F))
      → length (without_eos eos row) + length (select (is_eos eos) row) ≡ length row
  length-without_eos eos [] = omega arith
  length-without_eos eos (c ∷ row) = ground (arith, length-without_eos eos row)

  -- The beams of the candidates for the end of sequence.
  eos_beams : ℕ → ℕ → List (F × ℕ) → List ℕ
  eos_beams v t [] = []
  eos_beams v t ((s, f) ∷ row) =
      let rest = eos_beams v t row in if f - (f / v) * v == t then (f / v) ∷ rest else rest

  abbrev pub flat_indices : List (F × ℕ) → List ℕ
  flat_indices row = map (λ (c : F × ℕ). c.1) row

  length-eos_beams :
      (v t n b : ℕ) (row : List (F × ℕ))
      → length (select (is_eos (some t)) (map (candidate_of v n b) row))
        ≡ length (eos_beams v t row)
  unfolding eos_beams candidate_of is_eos
  length-eos_beams v t n b [] = refl
  length-eos_beams v t n b ((s, f) ∷ row) = ground (arith, length-eos_beams v t n b row)

  -- A beam determines its candidate.
  contains-eos_beams :
      (v t k : ℕ) (row : List (F × ℕ))
      → contains (flat_indices row) (k * v + t) ≡ false
      → contains (eos_beams v t row) k ≡ false
  unfolding eos_beams
  contains-eos_beams v t k [] h = refl
  contains-eos_beams v t k ((s, f) ∷ row) h =
      let rest = contains-eos_beams v t k row in
      elim (Bool-cases (f / v == k)) [
        | inl e ↦
            let same : f / v ≡ k = (==_iff (f / v) k).0 e in
            let below : k * v ≤ f = rw (← same) (div-mul-le_self f v) in
            rw same (ground (arith, below, rest))
        | inr e ↦ ground (arith, e, rest)
      ]

  eos_beams-AllDifferent :
      (v t : ℕ) (row : List (F × ℕ))
      → AllDifferent (flat_indices row)
      → AllDifferent (eos_beams v t row)
  unfolding eos_beams
  eos_beams-AllDifferent v t [] h = tt
  eos_beams-AllDifferent v t ((s, f) ∷ row) h = elim (Bool-cases (f - (f / v) * v == t)) [
    | inl e ↦
        let same : (f / v) * v + t ≡ f = ground (arith, div-mul-le_self f v) in
        rw e (contains-eos_beams v t (f / v) row (rw same h.0), eos_beams-AllDifferent v t row h.1)
    | inr e ↦ rw e (eos_beams-AllDifferent v t row h.1)
  ]

  eos_beams-All :
      (v t n : ℕ) (row : List (F × ℕ))
      → 0 < v
      → All (λ f. f < n * v) (flat_indices row)
      → All (λ k. k < n) (eos_beams v t row)
  unfolding eos_beams
  eos_beams-All v t n [] p h = tt
  eos_beams-All v t n ((s, f) ∷ row) p h = elim (Bool-cases (f - (f / v) * v == t)) [
    | inl e ↦ rw e ((div-lt_iff_lt-mul p).1 h.0, eos_beams-All v t n row p h.1)
    | inr e ↦ rw e (eos_beams-All v t n row p h.1)
  ]

  -- A candidate that can be a beam of the input `b`.
  abbrev pub IsNext : ℕ → ℕ → ℕ → Candidate F → Type 0
  IsNext v n b c = (c.token < v) × (b * n ≤ c.beam) × (c.beam < b * n + n)

  pub candidates-IsNext :
      (v n b : ℕ) (row : List (F × ℕ))
      → 0 < v
      → All (λ f. f < n * v) (flat_indices row)
      → All (IsNext v n b) (map (candidate_of v n b) row)
  unfolding candidate_of
  candidates-IsNext v n b [] p h = tt
  candidates-IsNext v n b ((s, f) ∷ row) p h =
      let beam : f / v < n = (div-lt_iff_lt-mul p).1 h.0 in
      let token : f < f / v * v + v = lt-div-mul-add p in
      let start : f / v * v ≤ f = div-mul-le_self f v in
      (
        (omega (arith, token, start), omega arith, omega (arith, beam)),
        candidates-IsNext v n b row p h.1,
      )

  selected_lem :
      (P : Candidate F → Type 0) (keep : Candidate F → Bool) (n : ℕ) (row : List (Candidate F))
      → All P row
      → All (λ c. P c × (keep c ≡ true)) (take n (select keep row))
  selected_lem P keep n [] h = rw (← take-nil n) tt
  selected_lem P keep zero (c ∷ row) h = tt
  selected_lem P keep (suc n) (c ∷ row) h = elim (Bool-cases (keep c)) [
    | inl e ↦ rw e ((h.0, e), selected_lem P keep n row h.1)
    | inr e ↦ rw e (selected_lem P keep (suc n) row h.1)
  ]

  none_eos : (row : List (Candidate F)) → length (select (is_eos none) row) ≡ 0
  unfolding is_eos
  none_eos [] = refl
  none_eos (c ∷ row) = none_eos row

  eos_few :
      (v n b : ℕ) (eos : Option ℕ) (row : List (F × ℕ))
      → 0 < v
      → AllDifferent (flat_indices row)
      → All (λ f. f < n * v) (flat_indices row)
      → length (select (is_eos eos) (map (candidate_of v n b) row)) ≤ n
  eos_few v n b none row p d h = omega (arith, none_eos (map (candidate_of v n b) row))
  eos_few v n b (some t) row p d h = omega (
    arith,
    length-eos_beams v t n b row,
    length-le_of_AllDifferent n (eos_beams v t row) (eos_beams-AllDifferent v t row d)
        (eos_beams-All v t n row p h),
  )

  -- Of `2 * n` candidates of an input with different flat indices, each of one of its `n` beams, the first
  -- `n` that are not the end of sequence are selected. There are as many: every one is a token of the
  -- vocabulary for a beam of the input, and not the end of sequence.
  pub masked_select_lem :
      (v n b : ℕ) (eos : Option ℕ) (row : List (F × ℕ))
      → 0 < v
      → length row ≡ n + n
      → AllDifferent (flat_indices row)
      → All (λ f. f < n * v) (flat_indices row)
      → (masked_select eos n 0 (map (candidate_of v n b) row)
          ≡ take n (without_eos eos (map (candidate_of v n b) row)))
        × (length (masked_select eos n 0 (map (candidate_of v n b) row)) ≡ n)
        × All
            (λ c. IsNext v n b c × (not (is_eos eos c) ≡ true))
            (masked_select eos n 0 (map (candidate_of v n b) row))
  masked_select_lem v n b eos row p l d h =
      let cs = map (candidate_of v n b) row in
      let whole : n - 0 ≡ n = omega arith in
      let first = rw whole at (masked_select-take eos n 0 cs) in
      (
        first,
        omega (
          arith,
          ap length first,
          length-take n (without_eos eos cs),
          length-without_eos eos cs,
          eos_few v n b eos row p d h,
          length-map (candidate_of v n b) row,
        ),
        rw first (
            selected_lem (IsNext v n b) (λ c. not (is_eos eos c)) n cs
              (candidates-IsNext v n b row p h)),
      )
