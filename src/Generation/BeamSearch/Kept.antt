-- ===== src/Generation/BeamSearch/Kept.antt =====
-- On the hypotheses of one input during `generate_beam_search`: how many there are, and how long.
use mathlib.Core.Bool.{false≢true}
use rust_bert.Prelude.{
  ℕ, suc, ◌+◌, ◌≤◌, ◌<◌, min, ◌≡◌, refl, sym, ap, ◌∙◌, inl, inr, true, false, ◌||◌, Option, List,
  [], ◌∷◌, ◌++◌, arith, ltb, Bool-cases, length, length-append, All, All-append,
}
use rust_bert.Prelude.Outcome.{ok}
use rust_bert.Float.{Floats}
use rust_bert.Generation.Beam.{
  Hypothesis, BeamHypotheses, least_of, least_score, without_least, remove_worst, shrink, scored,
  push, add, is_done,
}

module _ {F : Type 0} where
  -- No hypothesis is longer than `l`.
  abbrev pub AreWithin : ℕ → List (Hypothesis F) → Type 0
  AreWithin l = All (λ h. length h.ids ≤ l)

  -- At most as many hypotheses as beams.
  abbrev pub IsKept : ℕ → ℕ → BeamHypotheses F → Type 0
  IsKept n l b = (b.num_beams ≡ n) × (length b.beams ≤ n) × AreWithin l b.beams

  AreWithin-longer : (l m : ℕ) (hs : List (Hypothesis F)) → l ≤ m → AreWithin l hs → AreWithin m hs
  AreWithin-longer l m [] h w = tt
  AreWithin-longer l m (x ∷ hs) h w = (omega (arith, h, w.0), AreWithin-longer l m hs h w.1)

  pub IsKept-longer : (n l m : ℕ) (b : BeamHypotheses F) → l ≤ m → IsKept n l b → IsKept n m b
  IsKept-longer n l m b h (size, room, within) = (size, room, AreWithin-longer l m b.beams h within)

module _ {F : Type 0} (fl : Floats F) where
  without_least_lem :
      (l : ℕ) (h : Hypothesis F) (hs : List (Hypothesis F))
      → AreWithin l (h ∷ hs)
      → (length (without_least fl h hs) ≡ length hs) × AreWithin l (without_least fl h hs)
  unfolding without_least
  without_least_lem l h [] w = (refl, tt)
  without_least_lem l h (g ∷ hs) w =
      elim (Bool-cases (fl.ord_leb h.score (least_of fl g.score hs))) [
        | inl e ↦ rw e (refl, w.1)
        | inr e ↦
            rw e (let (size, within) = without_least_lem l g hs w.1 in (ap suc size, (w.0, within)))
      ]

  push_lem :
      (n l : ℕ) (b : BeamHypotheses F) (h : Hypothesis F) (hs : List (Hypothesis F))
      → IsKept n l b
      → (ltb (length b.beams) b.num_beams || fl.gtb h.score b.worst_score) ≡ true
      → shrink fl b.num_beams (b.beams ++ h ∷ []) ≡ ok hs
      → AreWithin l hs
      → length hs ≤ n
      → 0 < length hs
      → (b' : BeamHypotheses F) × (push fl b h ≡ ok b')
        × IsKept n l b'
        × (length hs ≤ length b'.beams)
  unfolding push least_score
  push_lem n l b h [] k t e w size some_one = absurd (omega (arith, some_one))
  push_lem n l b h (g ∷ hs) k t e w size some_one = (
    record b { beams = g ∷ hs; worst_score = least_of fl g.score hs },
    rw (t, e),
    (k.0, size, w),
    omega arith,
  )

  shrink_lem :
      (n l : ℕ) (hs : List (Hypothesis F)) (h : Hypothesis F)
      → AreWithin l (hs ++ h ∷ [])
      → length hs ≤ n
      → (hs' : List (Hypothesis F)) × (shrink fl n (hs ++ h ∷ []) ≡ ok hs')
        × AreWithin l hs'
        × (length hs' ≡ min n (length hs + 1))
  unfolding shrink remove_worst
  shrink_lem n l [] h w room = elim (Bool-cases (ltb n 1)) [
    | inl e ↦ ([], rw e, tt, ground (arith, e))
    | inr e ↦ (h ∷ [], rw e, w, ground (arith, e))
  ]
  shrink_lem n l (g ∷ hs) h w room =
      let size = length-append hs (h ∷ []) in
      elim (Bool-cases (ltb n (length (g ∷ hs ++ h ∷ [])))) [
        | inl e ↦
            let (same, within) = without_least_lem l g (hs ++ h ∷ []) w in
            (without_least fl g (hs ++ h ∷ []), rw e, within, ground (arith, e, same, size, room))
        | inr e ↦ (g ∷ hs ++ h ∷ [], rw e, w, ground (arith, e, size))
      ]

  push_skipped :
      (b : BeamHypotheses F) (h : Hypothesis F)
      → (ltb (length b.beams) b.num_beams || fl.gtb h.score b.worst_score) ≡ false
      → push fl b h ≡ ok b
  unfolding push
  push_skipped b h t = rw t

  skipped_full :
      (n l : ℕ) (b : BeamHypotheses F) (h : Hypothesis F)
      → IsKept n l b
      → (ltb (length b.beams) b.num_beams || fl.gtb h.score b.worst_score) ≡ false
      → min n (length b.beams + 1) ≤ length b.beams
  skipped_full n l b h k t = elim (Bool-cases (ltb (length b.beams) b.num_beams)) [
    | inl e ↦ absurd (false≢true (sym t ∙ rw e))
    | inr e ↦ ground (arith, k.0, k.1, e)
  ]

  -- A hypothesis is offered.
  pub add_lem :
      (n l : ℕ) (b : BeamHypotheses F) (ids : List ℕ) (sum : F) (token_scores : Option (List F))
      → 0 < n
      → length ids ≤ l
      → IsKept n l b
      → (b' : BeamHypotheses F) × (add fl b ids sum token_scores ≡ ok b')
        × IsKept n l b'
        × (min n (length b.beams + 1) ≤ length b'.beams)
  unfolding add scored
  add_lem n l b ids sum token_scores some_beam short k =
      let h = scored fl b ids sum token_scores in
      let (hs, e, within, size) =
        shrink_lem b.num_beams l b.beams h
          (All-append (λ h. length h.ids ≤ l) b.beams (h ∷ []) k.2 (short, tt))
          (omega (arith, k.0, k.1)) in
      elim (Bool-cases (ltb (length b.beams) b.num_beams || fl.gtb h.score b.worst_score)) [
        | inl t ↦
            let (b', run, k', more) =
              push_lem n l b h hs k t e within (omega (arith, size, k.0))
                (omega (arith, size, k.0, some_beam)) in
            (b', run, k', omega (arith, more, size, k.0))
        | inr t ↦ (b, push_skipped b h t, k, skipped_full n l b h k t)
      ]

  -- An input is done when it has as many hypotheses as beams.
  pub is_done-full :
      (n l : ℕ) (b : BeamHypotheses F) (best : F) (current : ℕ)
      → IsKept n l b
      → is_done fl b best current ≡ true
      → length b.beams ≡ n
  unfolding is_done
  is_done-full n l b best current k e = ground (arith, k.0, k.1, e)
