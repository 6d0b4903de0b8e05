-- ===== src/Generation/BeamSearch/Loop/Finish.antt =====
-- On the last loop over the inputs of `generate_beam_search`: the hypotheses become as many as the beams.
use rust_bert.Prelude.{
  ℕ, zero, suc, ◌+◌, ◌*◌, ◌≤◌, ◌<◌, min, ◌≡◌, refl, ap, Bool, true, false, none, List, [], ◌∷◌,
  arith, length, All, get_elem?-All, All-unit,
}
use rust_bert.Prelude.Outcome.{ok}
use rust_bert.Float.{Floats}
use rust_bert.Generation.Beam.{BeamHypotheses}
use rust_bert.Generation.BeamSearch.{BeamOptions, Search, scores_of_beam}
use rust_bert.Generation.BeamSearch.Loop.{add_beams, finish}
use rust_bert.Generation.BeamSearch.Kept.{IsKept, add_lem}
use rust_bert.Generation.BeamSearch.Loop.Inputs.{AreKept}
use rust_bert.Generation.BeamSearch.Loop.Rounds.{IsSearch}

module _ {F : Type 0} where
  -- As many hypotheses as beams.
  abbrev pub IsFull : ℕ → ℕ → BeamHypotheses F → Type 0
  IsFull n l b = IsKept n l b × (length b.beams ≡ n)

module _ {C F : Type 0} (fl : Floats F) (opt : BeamOptions F) (s : Search C F) (batch : ℕ)
    (v : IsSearch opt.num_beams batch s) where
  add_beams_lem :
      (left beam : ℕ) (b : BeamHypotheses F)
      → beam + left ≤ batch * opt.num_beams
      → 0 < opt.num_beams
      → IsKept opt.num_beams s.current_length b
      → (b' : BeamHypotheses F) × (add_beams fl opt s left beam b ≡ ok b')
        × IsKept opt.num_beams s.current_length b'
        × (min opt.num_beams (length b.beams + left) ≤ length b'.beams)
  unfolding add_beams scores_of_beam
  add_beams_lem zero beam b room p k = (b, refl, k, omega arith)
  add_beams_lem (suc left) beam b room p k =
      let n = opt.num_beams in
      let l = s.current_length in
      let (ids, at_row, size) =
        get_elem?-All (λ ids. length ids ≡ l) beam s.rows (omega (arith, room, v.rows_size))
          v.rows_length in
      let (score, at_score, _) =
        get_elem?-All (λ x. Unit {0}) beam s.beam_scores (omega (arith, room, v.scores_size))
          (All-unit s.beam_scores) in
      let (b₁, run, k₁, more) = add_lem fl n l b ids score none p (omega (arith, size)) k in
      let (b₂, run₂, k₂, more₂) = add_beams_lem left (suc beam) b₁ (omega (arith, room)) p k₁ in
      (b₂, rw (v.unsaved, at_score, at_row, run, run₂), k₂, omega (arith, more, more₂))

  pub finish_lem :
      (i : ℕ) (ds : List Bool) (bs : List (BeamHypotheses F))
      → i * opt.num_beams + length ds * opt.num_beams ≤ batch * opt.num_beams
      → 0 < opt.num_beams
      → AreKept opt.num_beams s.current_length bs ds
      → (bs' : List (BeamHypotheses F)) × (finish fl opt s i ds bs ≡ ok bs')
        × (length bs' ≡ length ds)
        × All (IsFull opt.num_beams s.current_length) bs'
  unfolding finish
  finish_lem i [] bs room p k = ([], refl, refl, tt)
  finish_lem i (d ∷ ds) [] room p k = absurd k
  finish_lem i (true ∷ ds) (b ∷ bs) room p k =
      let (bs', run, size, full) = finish_lem (suc i) ds bs (omega (arith, room)) p k.2 in
      (b ∷ bs', rw run, ap suc size, ((k.0, k.1 refl), full))
  finish_lem i (false ∷ ds) (b ∷ bs) room p k =
      let (b', run₀, k₀, more) =
        add_beams_lem opt.num_beams (i * opt.num_beams) b (omega (arith, room)) p k.0 in
      let (bs', run, size, full) = finish_lem (suc i) ds bs (omega (arith, room)) p k.2 in
      (b' ∷ bs', rw (run₀, run), ap suc size, ((k₀, omega (arith, more, k₀.1)), full))
