-- ===== src/NamedEntities/Builder.antt =====
-- On the loop of `consolidate_entities`, token by token.
use mathlib.Core.List.{append_assoc}
use rust_bert.Prelude.{
  ℕ, suc, ◌+◌, String, ◌≡◌, refl, sym, ap, ◌∙◌, ◌⊎◌, inl, inr, true, not, ◌||◌, Option, none, some,
  List, [], ◌∷◌, ◌++◌, arith, Bool-cases, length, length-append, All, All-append, position,
}
use rust_bert.Prelude.Outcome.{ok}
use rust_bert.NamedEntities.{
  Tag, begin, inside, outside, end, single, Token, Entity, get_tag, get_label, is_closed, Node,
  flush_and_reset, restart, continue_or_restart, handle_current_tag, push_entity, entities_from,
  consolidate_entities,
}
use text.Mathlib.Text
use rust_bert.NamedEntities.Runs.{
  Follows, StaysOpen, BeginsWith, StopsAt, HasOffset, HasTag, IsRun, IsRun-append, Cut, Open,
  flush-Open, gap,
}
use rust_bert.NamedEntities.Maximal.{
  stops_before, StopsAt-end, stops_closed, stays_open, still_began,
}

module _ {F : Type 0} (product : List F → F) where
  -- From a state of the loop on, the rest is cut.
  abbrev Runs : List (Token F) → Type 0
  Runs rest =
      (pre part : List (Token F)) (previous : Option Node)
      → Open product pre part previous
      → All HasOffset part
      → All HasOffset rest
      → All HasTag rest
      → (entities : List (Entity F)) × (entities_from product (length pre + length part) previous
            rest (pre ++ (part ++ rest))
          ≡ ok entities)
        × Cut product (part ++ rest) entities

  -- One token: what is handled, and the loop after it.
  step_run :
      (position : ℕ) (previous next : Option Node) (t : Token F) (rest tokens : List (Token F))
      (tag : Tag) (o : Option (Entity F)) (entities : List (Entity F))
      → get_tag t.label ≡ ok tag
      → handle_current_tag product previous tag (get_label t.label) position tokens ≡ ok (next, o)
      → entities_from product (suc position) next rest tokens ≡ ok entities
      → entities_from product position previous (t ∷ rest) tokens
        ≡ ok (push_entity product o entities)
  unfolding entities_from
  step_run position previous next t rest tokens tag o entities g h e = rw g (rw h (rw e))

  gap_step :
      (t : Token F) (rest pre part : List (Token F)) (previous : Option Node)
      → Runs rest
      → get_tag t.label ≡ ok outside
      → Open product pre part previous
      → All HasOffset part
      → All HasOffset rest
      → All HasTag rest
      → (entities : List (Entity F)) × (entities_from product
            (length pre + length part)
            previous
            (t ∷ rest)
            (pre ++ (part ++ t ∷ rest))
          ≡ ok entities)
        × Cut product (part ++ t ∷ rest) entities
  unfolding handle_current_tag
  gap_step t rest pre part previous later g h o os ts =
      let (e, f, cut) = flush-Open product pre part (t ∷ rest) previous h o in
      let (entities, looped, (blocks, l, good, most, are)) =
        later (pre ++ (part ++ t ∷ [])) [] none refl tt os ts in
      let n : length (pre ++ (part ++ t ∷ [])) + 0 ≡ suc (length pre + length part) =
        omega (arith, length-append pre (part ++ t ∷ []), length-append part (t ∷ [])) in
      let whole : (pre ++ (part ++ t ∷ [])) ++ rest ≡ pre ++ (part ++ t ∷ rest) =
        simp append_assoc in
      (
        push_entity product e entities,
        step_run (length pre + length part) previous none t rest (pre ++ (part ++ t ∷ rest)) outside
            e entities g f (rw (n, whole) at looped),
        cut (t ∷ rest) entities
            (stops_before product t rest part previous
              (λ w. elim w [ inl k ↦ ground (arith, g, k) | inr k ↦ ground (arith, g, k) ]))
            (gap t ∷ blocks, ap (◌∷◌ t) l, (g, good), most, are),
      )

  restart_step :
      (t : Token F) (rest pre part : List (Token F)) (previous : Option Node) (tag : Tag)
      → Runs rest
      → get_tag t.label ≡ ok tag
      → ¬ (get_tag t.label ≡ ok outside)
      → ((position : ℕ) (tokens : List (Token F))
          → handle_current_tag product previous tag (get_label t.label) position tokens
            ≡ restart product previous tag (get_label t.label) position tokens)
      → StopsAt product part previous (t ∷ rest)
      → Open product pre part previous
      → All HasOffset part
      → HasOffset t
      → All HasOffset rest
      → All HasTag rest
      → (entities : List (Entity F)) × (entities_from product
            (length pre + length part)
            previous
            (t ∷ rest)
            (pre ++ (part ++ t ∷ rest))
          ≡ ok entities)
        × Cut product (part ++ t ∷ rest) entities
  unfolding restart
  restart_step t rest pre part previous tag later g in_run as_restart stops h o ot os ts =
      let (e, f, cut) = flush-Open product pre part (t ∷ rest) previous h o in
      let node : Option Node = some (length pre + length part, (tag, get_label t.label)) in
      let (entities, looped, c) =
        later (pre ++ part) (t ∷ []) node
          (sym (length-append pre part), (in_run, refl, tt, λ _. refl), g) (ot, tt) os ts in
      let n : length (pre ++ part) + 1 ≡ suc (length pre + length part) =
        omega (arith, length-append pre part) in
      let whole : (pre ++ part) ++ t ∷ rest ≡ pre ++ (part ++ t ∷ rest) =
        append_assoc pre part (t ∷ rest) in
      (
        push_entity product e entities,
        step_run (length pre + length part) previous node t rest (pre ++ (part ++ t ∷ rest)) tag e
            entities g (as_restart _ _ ∙ rw f) (rw (n, whole) at looped),
        cut (t ∷ rest) entities stops c,
      )

  continue_step :
      (t : Token F) (rest pre part : List (Token F)) (tag started : Tag) (label : String)
      → Runs rest
      → get_tag t.label ≡ ok tag
      → ((position : ℕ) (tokens : List (Token F))
          → handle_current_tag product
              (some (length pre, (started, label)))
              tag
              (get_label t.label)
              position
              tokens
            ≡ ok (some (length pre, (started, label)), none))
      → IsRun label part
      → StaysOpen part
      → BeginsWith product started part
      → Follows label t
      → All HasOffset part
      → HasOffset t
      → All HasOffset rest
      → All HasTag rest
      → (entities : List (Entity F)) × (entities_from product
            (length pre + length part)
            (some (length pre, (started, label)))
            (t ∷ rest)
            (pre ++ (part ++ t ∷ rest))
          ≡ ok entities)
        × Cut product (part ++ t ∷ rest) entities
  continue_step t rest pre part tag started label later g goes_on r still began k o ot os ts =
      let node : Option Node = some (length pre, (started, label)) in
      let (entities, looped, (blocks, l, good, most, are)) =
        later pre (part ++ t ∷ []) node
          (refl, IsRun-append label part t r k still, still_began product started part t began)
          (All-append HasOffset part (t ∷ []) o (ot, tt)) os ts in
      let n : length pre + length (part ++ t ∷ []) ≡ suc (length pre + length part) =
        omega (arith, length-append part (t ∷ [])) in
      let whole : (part ++ t ∷ []) ++ rest ≡ part ++ t ∷ rest = append_assoc part (t ∷ []) rest in
      (
        entities,
        step_run (length pre + length part) node node t rest (pre ++ (part ++ t ∷ rest)) tag none
            entities g (goes_on _ _) (rw (n, whole) at looped),
        (blocks, l ∙ whole, good, most, are),
      )

  -- A token that goes on with an entity, or begins one.
  inner_step :
      (t : Token F) (rest pre part : List (Token F)) (previous : Option Node) (tag : Tag)
      → Runs rest
      → get_tag t.label ≡ ok tag
      → ((get_tag t.label ≡ ok inside) ⊎ (get_tag t.label ≡ ok end))
      → ¬ (get_tag t.label ≡ ok outside)
      → ((position : ℕ) (tokens : List (Token F))
          → handle_current_tag product previous tag (get_label t.label) position tokens
            ≡ continue_or_restart product previous tag (get_label t.label) position tokens)
      → Open product pre part previous
      → All HasOffset part
      → HasOffset t
      → All HasOffset rest
      → All HasTag rest
      → (entities : List (Entity F)) × (entities_from product
            (length pre + length part)
            previous
            (t ∷ rest)
            (pre ++ (part ++ t ∷ rest))
          ≡ ok entities)
        × Cut product (part ++ t ∷ rest) entities
  unfolding continue_or_restart restart flush_and_reset
  inner_step t rest pre part none tag later g w in_run on h o ot os ts =
      restart_step t rest pre part none tag later g in_run (λ p l. on p l) tt h o ot os ts
  inner_step t rest pre part (some (start, (started, label))) tag later g w in_run on h o ot os ts =
      elim (Bool-cases
        (is_closed started || not (text.Mathlib.Text.◌==◌ label (get_label t.label)))) [
          | inl e ↦
              restart_step t rest pre part (some (start, (started, label))) tag later g in_run
                (λ p l. on p l ∙ rw e) (stops_closed product t rest part start started label h.2 e)
                h o ot os ts
          | inr e ↦
              let same : text.Mathlib.Text.◌==◌ label (get_label t.label) ≡ true =
                ground (arith, e) in
              let goes_on : (p : ℕ) (l : List (Token F))
                  → handle_current_tag product (some (start, (started, label))) tag
                      (get_label t.label) p l
                    ≡ ok (some (start, (started, label)), none) =
                λ p l. on p l ∙ rw e in
              rw h.0 (
                continue_step t rest pre part tag started label later g (rw h.0 at goes_on) h.1
                  (stays_open product part started h.2 (ground (arith, e))) h.2 (w, same) o ot os
                  ts)
        ]

  runs : (rest : List (Token F)) → Runs rest
  unfolding entities_from handle_current_tag
  runs [] pre part previous h o os ts =
      let (e, f, cut) = flush-Open product pre part [] previous h o in
      let n : length (pre ++ (part ++ [])) ≡ length pre + length part =
        omega (arith, length-append pre (part ++ []), length-append part []) in
      (
        push_entity product e [],
        rw n (rw f),
        cut [] [] (StopsAt-end product part previous) ([], refl, tt, tt, tt),
      )
  runs (t ∷ rest) pre part previous h o os ts =
      elim ts.0.0
          as (λ tag.
            get_tag t.label ≡ ok tag
            → (entities : List (Entity F)) × (entities_from product (length pre + length part)
                  previous (t ∷ rest) (pre ++ (part ++ t ∷ rest))
                ≡ ok entities)
              × Cut product (part ++ t ∷ rest) entities) [
                | outside ↦ λ g. gap_step t rest pre part previous (runs rest) g h o os.1 ts.1
                | begin ↦ λ g.
                    restart_step t rest pre part previous begin (runs rest) g
                      (λ k. ground (arith, g, k)) (λ p l. refl)
                      (stops_before product t rest part previous (λ w. elim w [
                        | inl k ↦ ground (arith, g, k)
                        | inr k ↦ ground (arith, g, k)
                      ]))
                      h o os.0 os.1 ts.1
                | single ↦ λ g.
                    restart_step t rest pre part previous single (runs rest) g
                      (λ k. ground (arith, g, k)) (λ p l. refl)
                      (stops_before product t rest part previous (λ w. elim w [
                        | inl k ↦ ground (arith, g, k)
                        | inr k ↦ ground (arith, g, k)
                      ]))
                      h o os.0 os.1 ts.1
                | inside ↦ λ g.
                    inner_step t rest pre part previous inside (runs rest) g (inl g)
                      (λ k. ground (arith, g, k)) (λ p l. refl) h o os.0 os.1 ts.1
                | end ↦ λ g.
                    inner_step t rest pre part previous end (runs rest) g (inr g)
                      (λ k. ground (arith, g, k)) (λ p l. refl) h o os.0 os.1 ts.1
              ]
        ts.0.1

  -- Tokens that all have an offset and one of the five tags: the entities are made, and the tokens are cut
  -- into gaps, which are the tokens with the tag O, and runs, each of which is one entity, in order. The
  -- tokens of a run behind its first have the tag I or E and the label of the first; a run that begins with the
  -- tag E or S is one token; and no run can be longer: where its first token has another tag, the token behind the
  -- run does not have the tag I or E with the label of the run.
  pub consolidate_entities_lem :
      (tokens : List (Token F))
      → All HasOffset tokens
      → All HasTag tokens
      → (entities : List (Entity F)) × (consolidate_entities product tokens ≡ ok entities)
        × Cut product tokens entities
  unfolding consolidate_entities
  consolidate_entities_lem tokens os ts = runs tokens [] [] none refl tt os ts
