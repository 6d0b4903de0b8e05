-- ===== src/NamedEntities/Runs.antt =====
-- On `flush_and_reset`: the runs of tokens that are joined, and the cut of the tokens into gaps and runs.
use rust_bert.Prelude.{
  ℕ, ◌+◌, String, ◌≡◌, refl, ap, ◌⊎◌, inl, inr, true, ◌&&◌, Option, none, some, List, [], ◌∷◌, ◌++◌,
  map, arith, leb, Option-cases, is_some, length, take, length-append, drop-append, All, All-append,
  position,
}
use rust_bert.Prelude.Outcome.{ok}
use rust_bert.NamedEntities.{
  Tag, inside, outside, end, single, Token, Entity, get_tag, get_label, Node, slice_range,
  first_offset, last_offset, entity_of, flush_and_reset, push_entity,
}
use text.Mathlib.Text
use rust_bert.NamedEntities.{join}
use rust_bert.Conversation.Context.Padding.{take-append_left}

-- The tag of a token that goes on with an entity of the label.
abbrev pub Follows : {F : Type 0} → String → Token F → Type 0
Follows label t =
    ((get_tag t.label ≡ ok inside) ⊎ (get_tag t.label ≡ ok end))
    × (text.Mathlib.Text.◌==◌ label (get_label t.label) ≡ true)

-- The tag of a token that is an entity of its own when it comes first.
abbrev pub IsClosed : {F : Type 0} → Token F → Type 0
IsClosed t = (get_tag t.label ≡ ok end) ⊎ (get_tag t.label ≡ ok single)

abbrev pub IsRun : {F : Type 0} → String → List (Token F) → Type 0
IsRun label [] = ⊥
IsRun label (t ∷ tokens) =
    (¬ (get_tag t.label ≡ ok outside))
    × (get_label t.label ≡ label)
    × All (Follows label) tokens
    × (IsClosed t → tokens ≡ [])

-- A run of the label that `t` begins does not go on with the next token, if there is one.
abbrev pub Stops : {F : Type 0} → String → Token F → List (Token F) → Type 0
Stops label t [] = Unit
Stops label t (u ∷ later) = ¬ ((¬ IsClosed t) × Follows label u)

pub data Block (F : Type 0) : Type 0 where
  gap : Token F → Block F
  run : String → List (Token F) → Block F

abbrev pub tokens_of : {F : Type 0} → List (Block F) → List (Token F)
tokens_of [] = []
tokens_of (gap t ∷ blocks) = t ∷ tokens_of blocks
tokens_of (run label tokens ∷ blocks) = tokens ++ tokens_of blocks

-- No run can be longer: the token behind it does not go on with it.
abbrev pub AreMaximal : {F : Type 0} → List (Block F) → Type 0
AreMaximal [] = Unit
AreMaximal (gap t ∷ blocks) = AreMaximal blocks
AreMaximal (run label [] ∷ blocks) = AreMaximal blocks
AreMaximal (run label (t ∷ tokens) ∷ blocks) = Stops label t (tokens_of blocks) × AreMaximal blocks

abbrev pub IsBlock : {F : Type 0} → Block F → Type 0
IsBlock (gap t) = get_tag t.label ≡ ok outside
IsBlock (run label tokens) = IsRun label tokens

abbrev pub HasOffset : {F : Type 0} → Token F → Type 0
HasOffset t = is_some t.offset ≡ true

abbrev pub HasTag : {F : Type 0} → Token F → Type 0
HasTag t = (tag : Tag) × (get_tag t.label ≡ ok tag)

abbrev pub StaysOpen : {F : Type 0} → List (Token F) → Type 0
StaysOpen [] = ⊥
StaysOpen (t ∷ tokens) = ¬ IsClosed t

pub IsRun-append :
    {F : Type 0} (label : String) (tokens : List (Token F)) (t : Token F)
    → IsRun label tokens
    → Follows label t
    → StaysOpen tokens
    → IsRun label (tokens ++ t ∷ [])
IsRun-append label [] t h k o = elim h [ ]
IsRun-append label (u ∷ tokens) t h k o =
    (h.0, h.1, All-append (Follows label) tokens (t ∷ []) h.2 (k, tt), λ c. absurd (o c))

last_offset-some :
    {F : Type 0} (t : Token F) (tokens : List (Token F))
    → All HasOffset (t ∷ tokens)
    → (o : ℕ × ℕ) × (last_offset (t ∷ tokens) ≡ some o)
last_offset-some t [] h = elim (Option-cases t.offset) [
  | inl e ↦ absurd (cc (ap is_some e, h.0))
  | inr f ↦ f
]
last_offset-some t (u ∷ tokens) h = last_offset-some u tokens h.1

take_front {ℓ} : {A : Type ℓ} (xs ys : List A) → take (length xs) (xs ++ ys) ≡ xs
take_front [] ys = refl
take_front (x ∷ xs) ys = ap (◌∷◌ x) (take_front xs ys)

slice_range-append {ℓ} :
    {A : Type ℓ} (pre part rest : List A)
    → slice_range (pre ++ (part ++ rest)) (length pre) (length pre + length part) ≡ ok part
unfolding slice_range
slice_range-append pre part rest =
    let fits : (leb (length pre) (length pre + length part)
          && leb (length pre + length part) (length (pre ++ (part ++ rest))))
        ≡ true =
      ground (arith, length-append pre (part ++ rest), length-append part rest) in
    rw (fits, take-append_left pre (part ++ rest) (length part), take_front part rest)
      (ap ok (drop-append pre part))

module _ {F : Type 0} (product : List F → F) where
  entity_of_both :
      (label : String) (tokens : List (Token F)) (a b : ℕ × ℕ)
      → first_offset tokens ≡ some a
      → last_offset tokens ≡ some b
      → (e : Entity F) × (entity_of product label tokens ≡ some e)
  unfolding entity_of
  entity_of_both label tokens a b f l = (
    record {
      word = join (map (λ (u : Token F). u.text) tokens);
      score = product (map (λ (u : Token F). u.score) tokens);
      label = label;
      offset = (a.0, b.1);
    },
    rw (entity_of, f, l),
  )

  entity_of_run :
      (label : String) (tokens : List (Token F))
      → IsRun label tokens
      → All HasOffset tokens
      → (e : Entity F) × (entity_of product label tokens ≡ some e)
  entity_of_run label [] h o = elim h [ ]
  entity_of_run label (t ∷ tokens) h o =
      let (last, l) = last_offset-some t tokens o in
      elim (Option-cases t.offset) [
        | inl e ↦ absurd (cc (ap is_some e, o.0))
        | inr (first, f) ↦ entity_of_both label (t ∷ tokens) first last f l
      ]

  abbrev pub AreEntitiesOf : List (Block F) → List (Entity F) → Type 0
  AreEntitiesOf [] [] = Unit
  AreEntitiesOf [] (e ∷ entities) = ⊥
  AreEntitiesOf (gap t ∷ blocks) entities = AreEntitiesOf blocks entities
  AreEntitiesOf (run label tokens ∷ blocks) [] = ⊥
  AreEntitiesOf (run label tokens ∷ blocks) (e ∷ entities) =
      (entity_of product label tokens ≡ some e) × AreEntitiesOf blocks entities

  -- The tokens are those of gaps and runs, and the entities those of the runs.
  abbrev pub Cut : List (Token F) → List (Entity F) → Type 0
  Cut tokens entities =
      (blocks : List (Block F)) × (tokens_of blocks ≡ tokens)
      × All IsBlock blocks
      × AreMaximal blocks
      × AreEntitiesOf blocks entities

  abbrev pub BeginsWith : Tag → List (Token F) → Type 0
  BeginsWith tag [] = ⊥
  BeginsWith tag (t ∷ tokens) = get_tag t.label ≡ ok tag

  -- The tokens before the open entity, its tokens, and the node of the builder.
  abbrev pub Open : List (Token F) → List (Token F) → Option Node → Type 0
  Open pre part none = part ≡ []
  Open pre part (some (start, (tag, label))) =
      (start ≡ length pre) × IsRun label part × BeginsWith tag part

  -- The open entity does not go on with what is behind it.
  abbrev pub StopsAt : List (Token F) → Option Node → List (Token F) → Type 0
  StopsAt part none later = Unit
  StopsAt [] (some node) later = Unit
  StopsAt (t ∷ part) (some (start, (tag, label))) later = Stops label t later

  -- What a flush does to the open tokens.
  abbrev Flushed : List (Token F) → Option Node → ℕ → List (Token F) → Type 0
  Flushed part previous position tokens =
      (o : Option (Entity F)) × (flush_and_reset product previous position tokens ≡ ok (none, o))
      × ((later : List (Token F)) (entities : List (Entity F))
          → StopsAt part previous later
          → Cut later entities
          → Cut (part ++ later) (push_entity product o entities))

  pub flush-Open :
      (pre part rest : List (Token F)) (previous : Option Node)
      → Open pre part previous
      → All HasOffset part
      → Flushed part previous (length pre + length part) (pre ++ (part ++ rest))
  unfolding flush_and_reset
  flush-Open pre part rest none h o = (none, refl, λ later entities _ c. rw h c)
  flush-Open pre part rest (some (start, (tag, label))) h o =
      let (e, found) = entity_of_run label part h.1 o in
      (
        some e,
        rw (h.0, slice_range-append pre part rest) (rw found),
        λ later entities stops (blocks, t, good, most, are). (
          run label part ∷ blocks,
          ap (◌++◌ part) t,
          (h.1, good),
          maximal label part blocks start tag (rw t stops) most,
          (found, are),
        ),
      )
    where
      maximal :
          (label : String) (part : List (Token F)) (blocks : List (Block F)) (start : ℕ) (tag : Tag)
          → StopsAt part (some (start, (tag, label))) (tokens_of blocks)
          → AreMaximal blocks
          → AreMaximal (run label part ∷ blocks)
      maximal label [] blocks start tag stops most = most
      maximal label (t ∷ part) blocks start tag stops most = (stops, most)
