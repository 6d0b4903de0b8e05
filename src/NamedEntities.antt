-- ===== src/NamedEntities.antt =====
-- pipelines/ner.rs: the tags of the tokens, and `EntityBuilder`, which joins tagged tokens to entities.
-- The scores are of any type with a product; an `Offset` is a pair of its begin and its end.
pub mod Runs
pub mod Maximal
pub mod Builder
mod Tests
use rust_bert.Prelude.{
  ℕ, suc, ◌+◌, String, Bool, true, false, not, ◌&&◌, ◌||◌, Option, none, some, List, [], ◌∷◌, ◌++◌,
  map, leb, ◌==◌, if◌then◌else◌, unwrap_or, map_option, length, take, drop, position,
}
use rust_bert.Prelude.Outcome.{Outcome, ok, panics, ◌>>=◌}
use text.Mathlib.Text.{find?}
use text.Mathlib.Text
use Prim.Native.String
use Prim.Native.String.{len, find, slice}

pub data Tag : Type 0 where
  begin : Tag
  inside : Tag
  outside : Tag
  end : Tag
  single : Tag

pub record Token (F : Type 0) : Type 0 where
  pub text : String
  pub score : F
  pub label : String
  pub offset : Option (ℕ × ℕ)

pub record Entity (F : Type 0) : Type 0 where
  pub word : String
  pub score : F
  pub label : String
  pub offset : ℕ × ℕ

-- `split('-')`: the first part, and the second if there is one.
first_part : String → String
first_part s = slice s 0 (find s "-")

second_part : String → Option String
unfolding first_part
second_part s = map_option (λ i. first_part (slice s (i + 1) (len s))) (find? s "-")

-- `get_tag`, which panics on any other tag.
unfoldable pub get_tag : String → Outcome Tag
unfolding first_part
get_tag label =
    let part = first_part label in
    if text.Mathlib.Text.◌==◌ part "B"
    then ok begin
    else if text.Mathlib.Text.◌==◌ part "I"
    then ok inside
    else if text.Mathlib.Text.◌==◌ part "O"
    then ok outside
    else if text.Mathlib.Text.◌==◌ part "E"
    then ok end
    else if text.Mathlib.Text.◌==◌ part "S"
    then ok single
    else panics

unfoldable pub get_label : String → String
unfolding second_part
get_label label = unwrap_or (second_part label) ""

-- `join(" ")`
pub join : List String → String
join [] = ""
join (w ∷ []) = w
join (w ∷ words) = Prim.Native.String.◌++◌ w (Prim.Native.String.◌++◌ " " (join words))

-- `previous_tag == Tag::End` or `previous_tag == Tag::Single`
abbrev pub is_closed : Tag → Bool
is_closed end = true
is_closed single = true
is_closed _ = false

-- `previous_node`: where the entity began, the tag that began it, and its label.
abbrev pub Node : Type 0
Node = ℕ × (Tag × String)

-- `&tokens[start..position]`
pub slice_range {ℓ} : {A : Type ℓ} → List A → ℕ → ℕ → Outcome (List A)
slice_range xs start position =
    if leb start position && leb position (length xs)
    then ok (drop start (take position xs))
    else panics

abbrev pub first_offset : {F : Type 0} → List (Token F) → Option (ℕ × ℕ)
first_offset [] = none
first_offset (t ∷ tokens) = t.offset

abbrev pub last_offset : {F : Type 0} → List (Token F) → Option (ℕ × ℕ)
last_offset [] = none
last_offset (t ∷ []) = t.offset
last_offset (t ∷ u ∷ tokens) = last_offset (u ∷ tokens)

module _ {F : Type 0} (product : List F → F) where
  -- The entity of some tokens, unless the first or the last has no offset.
  pub entity_of : String → List (Token F) → Option (Entity F)
  unfolding join
  entity_of label tokens = elim (first_offset tokens) [
    | none ↦ none
    | some first ↦ elim (last_offset tokens) [
      | none ↦ none
      | some last ↦ some (record {
        word = join (map (λ (t : Token F). t.text) tokens);
        score = product (map (λ (t : Token F). t.score) tokens);
        label = label;
        offset = (first.0, last.1);
      })
    ]
  ]

  -- The `?` on an offset leaves the function before the node is reset.
  pub flush_and_reset : Option Node → ℕ → List (Token F) → Outcome (Option Node × Option (Entity F))
  unfolding slice_range entity_of
  flush_and_reset none position tokens = ok (none, none)
  flush_and_reset (some (start, (tag, label))) position tokens = do
    entity_tokens ← slice_range tokens start position
    ok (elim (entity_of label entity_tokens) [
      | none ↦ (some (start, (tag, label)), none)
      | some entity ↦ (none, some entity)
    ])

  -- Flush, then `start_new`.
  pub restart :
      Option Node → Tag → String → ℕ → List (Token F) → Outcome (Option Node × Option (Entity F))
  unfolding flush_and_reset
  restart previous tag label position tokens = do
    flushed ← flush_and_reset previous position tokens
    ok (some (position, (tag, label)), flushed.1)

  pub continue_or_restart :
      Option Node → Tag → String → ℕ → List (Token F) → Outcome (Option Node × Option (Entity F))
  unfolding restart
  continue_or_restart none tag label position tokens = ok (some (position, (tag, label)), none)
  continue_or_restart (some (start, (previous_tag, previous_label))) tag label position tokens =
      if is_closed previous_tag || not (text.Mathlib.Text.◌==◌ previous_label label)
      then restart (some (start, (previous_tag, previous_label))) tag label position tokens
      else ok (some (start, (previous_tag, previous_label)), none)

  pub handle_current_tag :
      Option Node → Tag → String → ℕ → List (Token F) → Outcome (Option Node × Option (Entity F))
  unfolding continue_or_restart restart flush_and_reset
  handle_current_tag previous outside label position tokens =
      flush_and_reset previous position tokens
  handle_current_tag previous begin label position tokens =
      restart previous begin label position tokens
  handle_current_tag previous single label position tokens =
      restart previous single label position tokens
  handle_current_tag previous inside label position tokens =
      continue_or_restart previous inside label position tokens
  handle_current_tag previous end label position tokens =
      continue_or_restart previous end label position tokens

  abbrev pub push_entity : Option (Entity F) → List (Entity F) → List (Entity F)
  push_entity none entities = entities
  push_entity (some entity) entities = entity ∷ entities

  -- The loop over the tokens from `position` on, and the flush behind it.
  pub entities_from : ℕ → Option Node → List (Token F) → List (Token F) → Outcome (List (Entity F))
  unfolding handle_current_tag flush_and_reset
  entities_from position previous [] tokens = do
    flushed ← flush_and_reset previous (length tokens) tokens
    ok (push_entity flushed.1 [])
  entities_from position previous (token ∷ rest) tokens = do
    tag ← get_tag token.label
    handled ← handle_current_tag previous tag (get_label token.label) position tokens
    entities ← entities_from (suc position) handled.0 rest tokens
    ok (push_entity handled.1 entities)

  unfoldable pub consolidate_entities : List (Token F) → Outcome (List (Entity F))
  unfolding entities_from
  consolidate_entities tokens = entities_from 0 none tokens tokens
