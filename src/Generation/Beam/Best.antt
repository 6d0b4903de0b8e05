-- ===== src/Generation/Beam/Best.antt =====
-- On `add` and `is_done` of `BeamHypotheses`: the hypotheses that are kept and dropped.
use mathlib.Core.List.{append_assoc, Perm, perm_middle}
use rust_bert.Prelude.{
  ℕ, ◌≤◌, ◌<◌, ◌≡◌, refl, ap, ◌∙◌, ◌⊎◌, inl, inr, Bool, true, false, not, ◌||◌, Option, List, [],
  ◌∷◌, ◌++◌, arith, ltb, Bool-cases, length, length-append, All-append,
}
use rust_bert.Prelude.Int.{ℤ}
use rust_bert.Prelude.Outcome.{ok}
use mathlib.Core.List.Perm
use Prim.Native.Nat.{zero-le}
use rust_bert.Float.{Floats, IsOrdered}
use rust_bert.Generation.Beam.{
  Hypothesis, BeamHypotheses, new, least_score, remove_worst, shrink, scored, push, add, is_done,
}
use rust_bert.Generation.Beam.Worst.{
  Le, Under, Over, Over-trans, not_le, remove_worst_lem, least_score_lem,
}

module _ {F : Type 0} (fl : Floats F) (o : IsOrdered fl) where
  -- Of the hypotheses offered, some were dropped: none scores above the worst that is kept, and
  -- none was dropped before the beams were full.
  pub record IsBest (b : BeamHypotheses F) (offered : List (Hypothesis F)) : Type 0 where
    pub dropped : List (Hypothesis F)
    pub all : Perm (b.beams ++ dropped) offered
    pub over : Over fl o b.worst_score dropped
    pub under : Under fl o b.worst_score b.beams
    pub full : (dropped ≡ []) ⊎ (length b.beams ≡ b.num_beams)
    pub within : length b.beams ≤ b.num_beams

  -- The hypothesis is taken in, or dropped.
  abbrev Pushed : BeamHypotheses F → Hypothesis F → List (Hypothesis F) → Type 0
  Pushed b h offered =
      (b' : BeamHypotheses F) × (push fl b h ≡ ok b')
      × IsBest b' (h ∷ offered)
      × (b'.num_beams ≡ b.num_beams)

  push_taken :
      (b : BeamHypotheses F) (h : Hypothesis F) (l : List (Hypothesis F)) (w : F)
      → (ltb (length b.beams) b.num_beams || fl.gtb h.score b.worst_score) ≡ true
      → shrink fl b.num_beams (b.beams ++ h ∷ []) ≡ ok l
      → least_score fl l ≡ ok w
      → push fl b h ≡ ok (record b { beams = l; worst_score = w })
  unfolding push
  push_taken b h l w t e f = rw t (rw e (rw f))

  shrink_cases :
      (n : ℕ) (l : List (Hypothesis F))
      → (ltb n (length l) ≡ true → shrink fl n l ≡ remove_worst fl l)
        × (ltb n (length l) ≡ false → shrink fl n l ≡ ok l)
  unfolding shrink
  shrink_cases n l = (λ e. rw e, λ e. rw e)

  perm_push :
      (h : Hypothesis F) (xs ys offered : List (Hypothesis F))
      → Perm (xs ++ ys) offered
      → Perm ((xs ++ h ∷ []) ++ ys) (h ∷ offered)
  perm_push h xs ys offered p = rw append_assoc (Perm.trans (perm_middle xs ys) (Perm.cons h p))

  push_room :
      (b : BeamHypotheses F) (h : Hypothesis F) (offered : List (Hypothesis F))
      → IsBest b offered
      → ltb (length b.beams) b.num_beams ≡ true
      → Pushed b h offered
  push_room b h offered v e =
      let n = length-append b.beams (h ∷ []) in
      let (w, f, u, _) = least_score_lem fl o (b.beams ++ h ∷ []) (omega (arith, n)) in
      let none_dropped : v.dropped ≡ [] = ground arith in
      (
        record b { beams = b.beams ++ h ∷ []; worst_score = w },
        push_taken b h (b.beams ++ h ∷ []) w (rw e)
            ((shrink_cases b.num_beams (b.beams ++ h ∷ [])).1 (ground (arith, n))) f,
        record {
          dropped = [];
          all = perm_push h b.beams [] offered (rw none_dropped at v.all);
          over = tt;
          under = u;
          full = inl refl;
          within = ground (arith, n);
        },
        refl,
      )

  -- Full, and the hypothesis beats the worst one kept: that one is dropped.
  push_better :
      (b : BeamHypotheses F) (h : Hypothesis F) (offered : List (Hypothesis F))
      → 0 < b.num_beams
      → IsBest b offered
      → ltb (length b.beams) b.num_beams ≡ false
      → fl.gtb h.score b.worst_score ≡ true
      → Pushed b h offered
  push_better b h offered some_room v e g =
      let n = length-append b.beams (h ∷ []) in
      let (x, kept, run, p, u, size, keeps) =
        remove_worst_lem fl o (b.beams ++ h ∷ []) (omega (arith, n)) in
      let (w, f, under, glb) = least_score_lem fl o kept (ground (arith, n, size)) in
      let worst_h : Le fl o b.worst_score h.score =
        not_le fl o h.score b.worst_score (ground (arith, o.gtb_not h.score b.worst_score)) in
      let above : Under fl o b.worst_score (b.beams ++ h ∷ []) =
        All-append _ b.beams (h ∷ []) v.under (worst_h, tt) in
      (
        record b { beams = kept; worst_score = w },
        push_taken b h kept w (rw (e, g))
            ((shrink_cases b.num_beams (b.beams ++ h ∷ [])).0 (ground (arith, n)) ∙ run) f,
        record {
          dropped = x ∷ v.dropped;
          all = Perm.trans (perm_middle kept v.dropped) (
              Perm.trans (Perm.append_right v.dropped p)
                (perm_push h b.beams v.dropped offered v.all));
          over = (
            glb x.score u,
            Over-trans fl o w b.worst_score v.dropped
                (glb b.worst_score (keeps b.worst_score above)) v.over,
          );
          under = under;
          full = inr (ground (arith, n, size));
          within = ground (arith, n, size);
        },
        refl,
      )

  -- Full, and no better than the worst one kept: the hypothesis is dropped.
  push_worse :
      (b : BeamHypotheses F) (h : Hypothesis F) (offered : List (Hypothesis F))
      → IsBest b offered
      → ltb (length b.beams) b.num_beams ≡ false
      → fl.gtb h.score b.worst_score ≡ false
      → Pushed b h offered
  unfolding push
  push_worse b h offered v e g = (
    b,
    rw (e, g),
    record {
      dropped = h ∷ v.dropped;
      all = Perm.trans (perm_middle b.beams v.dropped) (Perm.cons h v.all);
      over = (ground (arith, o.gtb_not h.score b.worst_score), v.over);
      under = v.under;
      full = inr (ground arith);
      within = v.within;
    },
    refl,
  )

  -- With totally ordered scores and a positive number of beams, which hold the best of the hypotheses
  -- offered so far: `add` does not fail, and the beams hold the best of these and the new one.
  pub add-IsBest :
      (b : BeamHypotheses F) (ids : List ℕ) (sum : F) (token_scores : Option (List F))
      (offered : List (Hypothesis F))
      → 0 < b.num_beams
      → IsBest b offered
      → (b' : BeamHypotheses F) × (add fl b ids sum token_scores ≡ ok b')
        × IsBest b' (scored fl b ids sum token_scores ∷ offered)
        × (b'.num_beams ≡ b.num_beams)
  unfolding add
  add-IsBest b ids sum token_scores offered some_room v =
      elim (Bool-cases (ltb (length b.beams) b.num_beams)) [
        | inl e ↦ push_room b (scored fl b ids sum token_scores) offered v e
        | inr e ↦
            elim (Bool-cases (fl.gtb (scored fl b ids sum token_scores).score b.worst_score)) [
              | inl g ↦ push_better b (scored fl b ids sum token_scores) offered some_room v e g
              | inr g ↦ push_worse b (scored fl b ids sum token_scores) offered v e g
            ]
      ]

  pub new-IsBest :
      (n : ℕ) (max_length : Option ℤ) (length_penalty : F) (early : Bool)
      → IsBest (new fl n max_length length_penalty early) []
  unfolding new
  new-IsBest n max_length length_penalty early = record {
    dropped = [];
    all = Perm.refl [];
    over = tt;
    under = tt;
    full = inl refl;
    within = zero-le;
  }

  is_done_cases :
      (b : BeamHypotheses F) (best : F) (current : ℕ)
      → is_done fl b best current ≡ true
      → b.early_stopping ≡ false
      → (ltb (length b.beams) b.num_beams ≡ false)
        × Le fl o (fl.normalise best current b.length_penalty) b.worst_score
  unfolding is_done
  is_done_cases b best current done early =
      ground (arith, o.geb_ord b.worst_score (fl.normalise best current b.length_penalty))

  -- With totally ordered scores, once `is_done` holds without early stopping, a hypothesis that normalises to no more than the best
  -- attainable score changes nothing.
  pub is_done-add :
      (b : BeamHypotheses F) (best sum : F) (current : ℕ) (ids : List ℕ)
      (token_scores : Option (List F))
      → is_done fl b best current ≡ true
      → b.early_stopping ≡ false
      → Le fl o
          (fl.normalise sum (length ids) b.length_penalty)
          (fl.normalise best current b.length_penalty)
      → add fl b ids sum token_scores ≡ ok b
  unfolding add push scored
  is_done-add b best sum current ids token_scores done early h =
      let (at_limit, worst) = is_done_cases b best current done early in
      let low = o.transitive _ (fl.normalise best current b.length_penalty) b.worst_score h worst in
      let refused : fl.gtb (fl.normalise sum (length ids) b.length_penalty) b.worst_score ≡ false =
        o.gtb_not _ b.worst_score ∙ ap not low in
      rw (at_limit, refused)
