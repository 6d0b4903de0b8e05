-- ===== src/Generation/BeamSearch/Loop/Inputs.antt =====
-- On the two loops over the inputs in a round of `generate_beam_search`.
use mathlib.Core.Bool.{false≢true}
use rust_bert.Prelude.{
  ℕ, zero, suc, ◌+◌, ◌*◌, ◌≤◌, ◌<◌, ◌≡◌, refl, ap, ◌∙◌, inl, inr, Bool, true, false, ◌&&◌, Option,
  none, some, List, [], ◌∷◌, ◌++◌, arith, ltb, leb, Bool-cases, length, take, drop, replicate,
  length-append, length-take, length-drop, length-replicate, All, All-append, All-take, All-drop,
  get_elem?-All, position,
}
use rust_bert.Prelude.Outcome.{Outcome, ok}
use rust_bert.Float.{Floats}
use rust_bert.Generation.Beam.{BeamHypotheses, is_done}
use rust_bert.Generation.Candidates.{Candidate, is_eos}
use rust_bert.Generation.BeamSearch.{
  BeamOptions, Search, scores_of_beam, fill_range, add_saved, offer, offer_row, offer_rows,
  closed_beam,
}
use rust_bert.Generation.BeamSearch.Loop.{close_inputs}
use rust_bert.Generation.BeamSearch.Kept.{IsKept, add_lem, is_done-full}

module _ {F : Type 0} where
  -- For each input its hypotheses, as many as beams where it is done.
  abbrev pub AreKept : ℕ → ℕ → List (BeamHypotheses F) → List Bool → Type 0
  AreKept n l [] [] = Unit
  AreKept n l [] (d ∷ ds) = ⊥
  AreKept n l (b ∷ bs) [] = ⊥
  AreKept n l (b ∷ bs) (d ∷ ds) = IsKept n l b × (d ≡ true → length b.beams ≡ n) × AreKept n l bs ds

  -- The candidates extend rows of the state.
  abbrev pub AreBelow : ℕ → List (Candidate F) → Type 0
  AreBelow k = All (λ c. c.beam < k)

module _ {C F : Type 0} (fl : Floats F) (s : Search C F) (n l : ℕ) (some_beam : 0 < n)
    (unsaved : s.saved ≡ none) (short : All (λ ids. length ids ≤ l) s.rows) where
  offer_lem :
      (eos : Option ℕ) (position : ℕ) (c : Candidate F) (b : BeamHypotheses F)
      → c.beam < length s.rows
      → IsKept n l b
      → (b' : BeamHypotheses F) × (offer fl s n eos position c b ≡ ok b') × IsKept n l b'
  unfolding offer scores_of_beam add_saved
  offer_lem eos position c b below k =
      let (ids, found, size) = get_elem?-All (λ ids. length ids ≤ l) c.beam s.rows below short in
      let (b', run, k', _) = add_lem fl n l b ids c.score none some_beam size k in
      elim (Bool-cases (is_eos eos c && ltb position n)) [
        | inl e ↦ (b', rw (e, found, unsaved, run), k')
        | inr e ↦ (b, rw e, k)
      ]

  offer_row_lem :
      (eos : Option ℕ) (position : ℕ) (row : List (Candidate F)) (b : BeamHypotheses F)
      → AreBelow (length s.rows) row
      → IsKept n l b
      → (b' : BeamHypotheses F) × (offer_row fl s n eos position row b ≡ ok b') × IsKept n l b'
  unfolding offer_row
  offer_row_lem eos position [] b below k = (b, refl, k)
  offer_row_lem eos position (c ∷ row) b below k =
      let (b₁, run, k₁) = offer_lem eos position c b below.0 k in
      let (b₂, run₂, k₂) = offer_row_lem eos (suc position) row b₁ below.1 k₁ in
      (b₂, rw (run, run₂), k₂)

  pub offer_rows_lem :
      (eos : Option ℕ) (rows : List (List (Candidate F))) (ds : List Bool)
      (bs : List (BeamHypotheses F))
      → length rows ≡ length ds
      → All (AreBelow (length s.rows)) rows
      → AreKept n l bs ds
      → (bs' : List (BeamHypotheses F)) × (offer_rows fl s n eos rows ds bs ≡ ok bs')
        × AreKept n l bs' ds
  unfolding offer_rows
  offer_rows_lem eos [] [] [] e below k = ([], refl, tt)
  offer_rows_lem eos [] (d ∷ ds) bs e below k = absurd (omega (arith, e))
  offer_rows_lem eos (row ∷ rows) [] bs e below k = absurd (omega (arith, e))
  offer_rows_lem eos rows [] (b ∷ bs) e below k = absurd k
  offer_rows_lem eos rows (d ∷ ds) [] e below k = absurd k
  offer_rows_lem eos (row ∷ rows) (true ∷ ds) (b ∷ bs) e below k =
      let (bs', run, k') = offer_rows_lem eos rows ds bs (omega (arith, e)) below.1 k.2 in
      (b ∷ bs', rw run, (k.0, k.1, k'))
  offer_rows_lem eos (row ∷ rows) (false ∷ ds) (b ∷ bs) e below k =
      let (b', run₀, k₀) = offer_row_lem eos 0 row b below.0 k.0 in
      let (bs', run, k') = offer_rows_lem eos rows ds bs (omega (arith, e)) below.1 k.2 in
      (b' ∷ bs', rw (run₀, run), (k₀, λ f. absurd (false≢true f), k'))

All-replicate {ℓ κ} : {A : Type ℓ} (P : A → Type κ) (n : ℕ) (a : A) → P a → All P (replicate n a)
All-replicate P zero a h = tt
All-replicate P (suc n) a h = (h, All-replicate P n a h)

-- The list with a range filled.
abbrev filled : {A : Type 0} → ℕ → ℕ → A → List A → List A
filled start n v xs = take start xs ++ replicate n v ++ drop (start + n) xs

filled_lem :
    {A : Type 0} (P : A → Type 0) (start n : ℕ) (v : A) (xs : List A)
    → start + n ≤ length xs
    → P v
    → All P xs
    → (length (filled start n v xs) ≡ length xs) × All P (filled start n v xs)
filled_lem P start n v xs fits h k = (
  omega (
    arith,
    length-append (take start xs ++ replicate n v) (drop (start + n) xs),
    length-append (take start xs) (replicate n v),
    length-replicate n v,
    length-take start xs,
    length-drop (start + n) xs,
    fits,
  ),
  All-append P (take start xs ++ replicate n v) (drop (start + n) xs)
      (All-append P (take start xs) (replicate n v) (All-take P start xs k) (All-replicate P n v h))
      (All-drop P (start + n) xs k),
)

module _ {F : Type 0} (fl : Floats F) (opt : BeamOptions F) (n l pad k : ℕ)
    (beams : opt.num_beams ≡ n) (padded : opt.common.pad_token_id ≡ some pad)
    (some_row : 0 < k) where
  abbrev pub Closed :
      List Bool
      → List (BeamHypotheses F)
      → List (Candidate F)
      → Outcome (List Bool × List (Candidate F))
      → Type 0
  Closed ds bs next outcome =
      (ds' : List Bool) × (next' : List (Candidate F)) × (outcome ≡ ok (ds', next'))
      × AreKept n l bs ds'
      × (length ds' ≡ length ds)
      × (length next' ≡ length next)
      × AreBelow k next'

  close_done :
      (current i : ℕ) (x : F) (scores : List F) (ds : List Bool) (bs : List (BeamHypotheses F))
      (b : BeamHypotheses F) (next : List (Candidate F)) {ds' : List Bool}
      {next' : List (Candidate F)}
      → leb (i * n + n) (length next) ≡ true
      → close_inputs fl opt current
          (suc i)
          scores
          ds
          bs
          (filled (i * n) n (closed_beam fl pad) next)
        ≡ ok (ds', next')
      → close_inputs fl opt current i (x ∷ scores) (true ∷ ds) (b ∷ bs) next
        ≡ ok (true ∷ ds', next')
  unfolding close_inputs closed_beam fill_range
  close_done current i x scores ds bs b next inside run = rw (padded, beams) (rw inside (rw run))

  pub close_inputs_lem :
      (current i : ℕ) (scores : List F) (ds : List Bool) (bs : List (BeamHypotheses F))
      (next : List (Candidate F))
      → length scores ≡ length ds
      → AreKept n l bs ds
      → i * n + length ds * n ≤ length next
      → AreBelow k next
      → Closed ds bs next (close_inputs fl opt current i scores ds bs next)
  unfolding close_inputs
  close_inputs_lem current i [] [] [] next e kept room below =
      ([], next, refl, tt, refl, refl, below)
  close_inputs_lem current i [] (d ∷ ds) bs next e kept room below = absurd (omega (arith, e))
  close_inputs_lem current i (x ∷ scores) [] bs next e kept room below = absurd (omega (arith, e))
  close_inputs_lem current i scores [] (b ∷ bs) next e kept room below = absurd kept
  close_inputs_lem current i scores (d ∷ ds) [] next e kept room below = absurd kept
  close_inputs_lem current i (x ∷ scores) (true ∷ ds) (b ∷ bs) next e kept room below =
      let next₁ = filled (i * n) n (closed_beam fl pad) next in
      let fits : i * n + n ≤ length next = omega (arith, room) in
      let inside : leb (i * n + n) (length next) ≡ true = ground (arith, fits) in
      let (same, below₁) =
        filled_lem (λ c. c.beam < k) (i * n) n (closed_beam fl pad) next fits some_row below in
      let (ds', next', run, kept', size, whole, below') =
        close_inputs_lem current (suc i) scores ds bs next₁ (omega (arith, e)) kept.2
          (omega (arith, room, same)) below₁ in
      (
        true ∷ ds',
        next',
        close_done current i x scores ds bs b next inside run,
        (kept.0, kept.1, kept'),
        ap suc size,
        whole ∙ same,
        below',
      )
  close_inputs_lem current i (x ∷ scores) (false ∷ ds) (b ∷ bs) next e kept room below =
      let (ds', next', run, kept', size, whole, below') =
        close_inputs_lem current (suc i) scores ds bs next (omega (arith, e)) kept.2
          (omega (arith, room)) below in
      (
        is_done fl b x current ∷ ds',
        next',
        rw run,
        (kept.0, is_done-full fl n l b x current kept.0, kept'),
        ap suc size,
        whole,
        below',
      )
