-- ===== src/NamedEntities/Maximal.antt =====
-- On `handle_current_tag`: when an open entity goes on with the next token.
use rust_bert.Prelude.{
  ℕ, String, ◌≡◌, ◌⊎◌, inl, inr, true, false, not, ◌||◌, Option, none, some, List, [], ◌∷◌, ◌++◌,
  arith,
}
use rust_bert.Prelude.Outcome.{ok}
use rust_bert.NamedEntities.{
  Tag, begin, inside, outside, end, single, Token, get_tag, get_label, is_closed, Node,
}
use text.Mathlib.Text
use rust_bert.NamedEntities.Runs.{IsClosed, StaysOpen, BeginsWith, StopsAt}

module _ {F : Type 0} (product : List F → F) where
  pub stops_before :
      (u : Token F) (later part : List (Token F)) (previous : Option Node)
      → ¬ ((get_tag u.label ≡ ok inside) ⊎ (get_tag u.label ≡ ok end))
      → StopsAt product part previous (u ∷ later)
  stops_before u later part none n = tt
  stops_before u later [] (some node) n = tt
  stops_before u later (t ∷ part) (some (start, (tag, label))) n = λ g. n g.1.0

  pub StopsAt-end :
      (part : List (Token F)) (previous : Option Node) → StopsAt product part previous []
  StopsAt-end part none = tt
  StopsAt-end [] (some node) = tt
  StopsAt-end (t ∷ part) (some (start, (tag, label))) = tt

  IsClosed-of :
      (t : Token F) (tag : Tag) → is_closed tag ≡ true → get_tag t.label ≡ ok tag → IsClosed t
  IsClosed-of t end c e = inl e
  IsClosed-of t single c e = inr e
  IsClosed-of t begin c e = ground arith
  IsClosed-of t inside c e = ground arith
  IsClosed-of t outside c e = ground arith

  pub stops_closed :
      (u : Token F) (later part : List (Token F)) (start : ℕ) (started : Tag) (label : String)
      → BeginsWith product started part
      → (is_closed started || not (text.Mathlib.Text.◌==◌ label (get_label u.label))) ≡ true
      → StopsAt product part (some (start, (started, label))) (u ∷ later)
  stops_closed u later [] start started label b e = tt
  stops_closed u later (t ∷ part) start started label b e =
      λ (still, follows). still (IsClosed-of t started (ground (arith, e, follows.1)) b)

  pub stays_open :
      (part : List (Token F)) (started : Tag)
      → BeginsWith product started part
      → is_closed started ≡ false
      → StaysOpen part
  stays_open [] started b e = b
  stays_open (t ∷ part) started b e =
      λ c. elim c [ inl k ↦ ground (arith, b, e, k) | inr k ↦ ground (arith, b, e, k) ]

  pub still_began :
      (tag : Tag) (part : List (Token F)) (t : Token F)
      → BeginsWith product tag part
      → BeginsWith product tag (part ++ t ∷ [])
  still_began tag [] t b = elim b [ ]
  still_began tag (u ∷ part) t b = b
