-- ===== src/NamedEntities/Tests.antt =====
-- Runs of the consolidation of entities, and its theorem at a concrete input.
use rust_bert.Prelude.{ℕ, ◌≡◌, refl, none, some, List, [], ◌∷◌, All}
use rust_bert.Prelude.Outcome.{ok}
use rust_bert.NamedEntities.{
  Token, Entity, consolidate_entities, get_tag, get_label, begin, inside, outside,
}
use rust_bert.NamedEntities.Runs.{Cut, HasTag}
use rust_bert.NamedEntities.Builder.{consolidate_entities_lem}

abbrev first_score : List ℕ → ℕ
first_score [] = 1
first_score (s ∷ scores) = s

abbrev three_tokens : List (Token ℕ)
three_tokens =
    record { text = "Ada"; score = 9; label = "B-PER"; offset = some (0, 3) }
    ∷ record { text = "Lovelace"; score = 8; label = "I-PER"; offset = some (4, 12) }
    ∷ record { text = "wrote"; score = 7; label = "O"; offset = some (13, 18) }
    ∷ []

three_tags : All HasTag three_tokens
unfolding get_tag
three_tags = ((begin, refl), ((inside, refl), ((outside, refl), tt)))

consolidate_entities_lem_example :
    (entities : List (Entity ℕ)) × (consolidate_entities first_score three_tokens ≡ ok entities)
    × Cut first_score three_tokens entities
consolidate_entities_lem_example =
    consolidate_entities_lem first_score three_tokens (refl, (refl, (refl, tt))) three_tags

-- The last token of the name has no offset: the entity stays open over the tokens outside of it.
no_offset :
    consolidate_entities first_score (
      record { text = "Ada"; score = 9; label = "B-PER"; offset = some (0, 3) }
      ∷ record { text = "L."; score = 8; label = "I-PER"; offset = none }
      ∷ record { text = "wrote"; score = 7; label = "O"; offset = some (7, 12) }
      ∷ record { text = "."; score = 6; label = "O"; offset = some (12, 13) }
      ∷ [])
    ≡ ok (record { word = "Ada L. wrote"; score = 9; label = "PER"; offset = (0, 12) } ∷ [])
unfolding consolidate_entities get_tag get_label
no_offset = refl
