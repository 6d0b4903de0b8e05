-- ===== src/Generation/Beam/Worst.antt =====
-- On `add` of `BeamHypotheses`: the least score, and the hypothesis that is removed.
use mathlib.Core.Bool.{false≢true}
use mathlib.Core.List.{Perm}
use rust_bert.Prelude.{
  suc, ◌<◌, ◌≡◌, refl, sym, ap, ◌∙◌, inl, inr, true, false, List, [], ◌∷◌, arith, if◌then◌else◌,
  Bool-cases, length, All,
}
use rust_bert.Prelude.Outcome.{ok}
use mathlib.Core.List.Perm
use rust_bert.Float.{Floats, IsOrdered}
use rust_bert.Generation.Beam.{Hypothesis, least_of, least_score, without_least, remove_worst}

module _ {F : Type 0} (fl : Floats F) (o : IsOrdered fl) where
  abbrev pub Le : F → F → Type 0
  Le a b = fl.ord_leb a b ≡ true

  -- `c` is at most every score of the list, and at least every one.
  abbrev pub Under : F → List (Hypothesis F) → Type 0
  Under c = All (λ h. Le c h.score)

  abbrev pub Over : F → List (Hypothesis F) → Type 0
  Over c = All (λ h. Le h.score c)

  Under-trans : (a c : F) (l : List (Hypothesis F)) → Le a c → Under c l → Under a l
  Under-trans a c [] h u = tt
  Under-trans a c (x ∷ l) h u = (o.transitive a c x.score h u.0, Under-trans a c l h u.1)

  pub Over-trans : (a c : F) (l : List (Hypothesis F)) → Le c a → Over c l → Over a l
  Over-trans a c [] h u = tt
  Over-trans a c (x ∷ l) h u = (o.transitive x.score c a u.0 h, Over-trans a c l h u.1)

  pub le_refl : (a : F) → Le a a
  le_refl a = elim (o.total a a) [ inl h ↦ h | inr h ↦ h ]

  pub not_le : (a b : F) → fl.ord_leb a b ≡ false → Le b a
  not_le a b h = elim (o.total a b) [ inl k ↦ absurd (false≢true (sym h ∙ k)) | inr k ↦ k ]

  smaller : F → F → F
  smaller a b = if fl.ord_leb a b then a else b

  smaller_le : (a b : F) → Le (smaller a b) a × Le (smaller a b) b
  unfolding smaller
  smaller_le a b = elim (Bool-cases (fl.ord_leb a b)) [
    | inl h ↦ rw h (le_refl a, h)
    | inr h ↦ rw h (not_le a b h, le_refl b)
  ]

  smaller_glb : (c a b : F) → Le c a → Le c b → Le c (smaller a b)
  unfolding smaller
  smaller_glb c a b h k = ground arith

  least_of_le :
      (a : F) (l : List (Hypothesis F)) → Le (least_of fl a l) a × Under (least_of fl a l) l
  unfolding least_of smaller
  least_of_le a [] = (le_refl a, tt)
  least_of_le a (h ∷ l) =
      let s = smaller_le a h.score in
      let r = least_of_le (smaller a h.score) l in
      (
        o.transitive _ (smaller a h.score) a r.0 s.0,
        (o.transitive _ (smaller a h.score) h.score r.0 s.1, r.1),
      )

  le_least_of : (c a : F) (l : List (Hypothesis F)) → Le c a → Under c l → Le c (least_of fl a l)
  unfolding least_of smaller
  le_least_of c a [] h u = h
  le_least_of c a (x ∷ l) h u =
      le_least_of c (smaller a x.score) l (smaller_glb c a x.score h u.0) u.1

  Under-least :
      (c : F) (g : Hypothesis F) (l : List (Hypothesis F))
      → Le c (least_of fl g.score l)
      → Under c (g ∷ l)
  Under-least c g l h =
      let r = least_of_le g.score l in (o.transitive c _ g.score h r.0, Under-trans c _ l h r.1)

  -- The removed hypothesis, and why it is the least.
  abbrev Removed : Hypothesis F → List (Hypothesis F) → Type 0
  Removed h l =
      (x : Hypothesis F) × Perm (x ∷ without_least fl h l) (h ∷ l)
      × Under x.score (without_least fl h l)
      × Le x.score (least_of fl h.score l)

  without_least_lem : (h : Hypothesis F) (l : List (Hypothesis F)) → Removed h l
  unfolding without_least least_of smaller
  without_least_lem h [] = (h, Perm.refl _, tt, le_refl h.score)
  without_least_lem h (g ∷ l) = elim (Bool-cases (fl.ord_leb h.score (least_of fl g.score l))) [
    | inl e ↦
        let u = Under-least h.score g l e in
        rw e (
          h,
          Perm.refl _,
          u,
          le_least_of h.score (smaller h.score g.score) l
              (smaller_glb h.score h.score g.score (le_refl h.score) u.0) u.1,
        )
    | inr e ↦
        let (x, p, u, least) = without_least_lem g l in
        let x_h : Le x.score h.score =
          o.transitive _ (least_of fl g.score l) _ least
            (not_le h.score (least_of fl g.score l) e) in
        let v = Under-least x.score g l least in
        rw e (
          x,
          Perm.trans (Perm.swap _ _ _) (Perm.cons h p),
          (x_h, u),
          le_least_of x.score (smaller h.score g.score) l
              (smaller_glb x.score h.score g.score x_h v.0) v.1,
        )
  ]

  without_least-Under :
      (c : F) (h : Hypothesis F) (l : List (Hypothesis F))
      → Under c (h ∷ l)
      → Under c (without_least fl h l)
  unfolding without_least
  without_least-Under c h [] u = tt
  without_least-Under c h (g ∷ l) u =
      elim (Bool-cases (fl.ord_leb h.score (least_of fl g.score l))) [
        | inl e ↦ rw e u.1
        | inr e ↦ rw e (u.0, without_least-Under c g l u.1)
      ]

  length-without_least :
      (h : Hypothesis F) (l : List (Hypothesis F)) → length (without_least fl h l) ≡ length l
  unfolding without_least
  length-without_least h [] = refl
  length-without_least h (g ∷ l) = ground (arith, length-without_least g l)

  abbrev Shrunk : List (Hypothesis F) → Type 0
  Shrunk l =
      (x : Hypothesis F) × (kept : List (Hypothesis F)) × (remove_worst fl l ≡ ok kept)
      × Perm (x ∷ kept) l
      × Under x.score kept
      × (suc (length kept) ≡ length l)
      × ((c : F) → Under c l → Under c kept)

  pub remove_worst_lem : (l : List (Hypothesis F)) → 0 < length l → Shrunk l
  unfolding remove_worst
  remove_worst_lem [] n = elim n [ ]
  remove_worst_lem (h ∷ l) n =
      let (x, p, u, _) = without_least_lem h l in
      (
        x,
        without_least fl h l,
        refl,
        p,
        u,
        ap suc (length-without_least h l),
        λ c v. without_least-Under c h l v,
      )

  pub least_score_lem :
      (l : List (Hypothesis F))
      → 0 < length l
      → (w : F) × (least_score fl l ≡ ok w) × Under w l × ((c : F) → Under c l → Le c w)
  unfolding least_score
  least_score_lem [] n = elim n [ ]
  least_score_lem (h ∷ l) n =
      let r = least_of_le h.score l in
      (least_of fl h.score l, refl, r, λ c v. le_least_of c h.score l v.0 v.1)
