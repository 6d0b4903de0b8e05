-- ===== src/Conversation/Respond/Total.antt =====
-- On `generate_responses` as a whole: its calls one after the other.
use mathlib.Core.List.{flatten}
use rust_bert.Prelude.{
  ℕ, suc, ◌-◌, ◌≤◌, ◌<◌, String, ◌≡◌, refl, sym, ap, ◌∙◌, inl, inr, true, false, Option, none, some,
  List, [], ◌∷◌, ◌++◌, map, arith, Bool-cases, Option-cases, is_some, length, take, is_empty, All,
  length-map,
}
use rust_bert.Prelude.Int.{ℤ, as_usize}
use rust_bert.Prelude.Outcome.{ok, checked_sub, traverse}
use rust_bert.Conversation.State.{Conversation}
use rust_bert.Conversation.Manager.{
  ConversationManager, Conversations, actives, get_active_conversations,
}
use rust_bert.Conversation.Context.{
  Batch, concat_input_history, clean_padding_indices, encode_prompt, encode_prompts,
}
use rust_bert.Conversation.Context.Rows.{AreRows, concat_input_history_lem}
use rust_bert.Conversation.Manager.{get, lookup, contains_key}
use rust_bert.Conversation.Manager.Keys.{Distinct}
use rust_bert.Conversation.Respond.Turns.{ArePrompts, AreTurns, respond_turns}
use rust_bert.Conversation.Respond.Loop.{
  lookup-actives, contains_key-lookup, actives-Distinct, respond_untouched, if_pending, StandIn,
}
use rust_bert.Conversation.Respond.{
  ConversationModel, Responses, respond_all, generate_responses, pad_token, pending_texts, past_ids,
}
use rust_bert.Conversation.Respond.Generated.{AreExtended, clean_rows}

rows_length :
    (b w pad : ℕ) (inputs history rows mask : List (List ℕ))
    → AreRows b w pad inputs history rows mask
    → All (λ r. length r ≡ w) rows
rows_length b w pad [] [] [] [] h = tt
rows_length b w pad (i ∷ inputs) (x ∷ history) (r ∷ rows) (m ∷ mask) h =
    (h.0.5, rows_length b w pad inputs history rows mask h.1)
rows_length b w pad _ _ _ _ h = elim h [ ]

actives_pending : (m : Conversations) → All (λ e. is_some e.1.new_user_input ≡ true) (actives m)
unfolding actives
actives_pending [] = tt
actives_pending ((k, c) ∷ m) = elim (Bool-cases (is_some c.new_user_input)) [
  | inl e ↦ ground (arith, actives_pending m)
  | inr e ↦ ground (arith, actives_pending m)
]

length-past_ids : (chats : List Conversation) → length chats ≡ length (past_ids chats)
unfolding past_ids
length-past_ids chats = sym (length-map (λ (c : Conversation). flatten c.history) chats)

some_waiting :
    (active : Conversations)
    → is_empty (map (λ (e : ℕ × Conversation). e.0) active) ≡ false
    → 0 < length (map (λ (e : ℕ × Conversation). e.1) active)
some_waiting [] h = ground arith
some_waiting (e ∷ active) h = omega arith

-- The calls of a round, one after the other.
round_of_calls :
    (cm : ConversationModel) (manager : ConversationManager) (texts : List String)
    (prompts : List (List ℕ)) (batch : Batch) (generated : List (List ℕ × (ℕ × ℕ)))
    (r : Conversations × Responses)
    → is_empty (get_active_conversations manager).0 ≡ false
    → pending_texts (get_active_conversations manager).1 ≡ ok texts
    → encode_prompts cm.max_allowed_context_length cm.eos_token_id cm.model.tokenize texts
      ≡ ok prompts
    → concat_input_history cm.max_allowed_context_length
        (pad_token cm)
        prompts
        (past_ids (get_active_conversations manager).1)
      ≡ ok batch
    → clean_padding_indices
        (pad_token cm)
        (cm.model.generate_from_ids_and_past batch.rows batch.mask)
      ≡ ok generated
    → respond_all cm batch.width
        (actives manager.conversations)
        generated
        prompts
        manager.conversations
      ≡ ok r
    → generate_responses cm manager ≡ ok (record { conversations = r.0 }, r.1)
unfolding generate_responses
round_of_calls cm manager texts prompts batch generated r w t p b g e =
    rw w (rw t (rw p (rw b (rw g (rw e)))))

-- The pending inputs and their prompts.
prompts_total :
    (cm : ConversationModel) (bound : ℤ) (active : Conversations)
    → 0 < as_usize bound
    → All (λ e. is_some e.1.new_user_input ≡ true) active
    → (texts : List String) × (prompts : List (List ℕ)) × (pending_texts
          (map (λ (e : ℕ × Conversation). e.1) active)
        ≡ ok texts)
      × (encode_prompts (some bound) cm.eos_token_id cm.model.tokenize texts ≡ ok prompts)
      × ArePrompts cm (as_usize bound) active prompts
unfolding pending_texts encode_prompts encode_prompt traverse
prompts_total cm bound [] some_room h = ([], [], refl, refl, tt)
prompts_total cm bound ((k, c) ∷ active) some_room h =
    let (texts, prompts, e, p, are) = prompts_total cm bound active some_room h.1 in
    let keep : checked_sub (as_usize bound) 1 ≡ ok (as_usize bound - 1) = ground arith in
    elim (Option-cases c.new_user_input) [
      | inl w ↦ absurd (cc (ap is_some w, h.0))
      | inr (t, w) ↦ (
        t ∷ texts,
        (take (as_usize bound - 1) (cm.model.tokenize t) ++ cm.eos_token_id ∷ []) ∷ prompts,
        rw w (rw e),
        rw keep (rw p),
        ((t, (w, refl)), are),
      )
    ]

-- What a round has to do with the map from `manager` to `manager'`: `rows` and `mask` are the batch that is
-- generated from.
abbrev pub IsRound :
    ConversationModel → ℤ → ConversationManager → ConversationManager → Responses → Type 0
IsRound cm bound manager manager' out =
    let active = actives manager.conversations in
    (prompts rows mask : List (List ℕ)) × (width : ℕ) × (width ≤ as_usize bound)
    × AreRows (as_usize bound) width (pad_token cm) prompts
        (map (λ (c : Conversation). flatten c.history) (map (λ (e : ℕ × Conversation). e.1) active))
        rows mask
    × AreTurns cm (as_usize bound) (pad_token cm) (get manager') active prompts rows
        (cm.model.generate_from_ids_and_past rows mask) out

-- The round returns, and a conversation without a pending input is as it was.
abbrev pub Responds : ConversationModel → ℤ → ConversationManager → Type 0
Responds cm bound manager =
    (manager' : ConversationManager) × (out : Responses) × (generate_responses cm manager
      ≡ ok (manager', out))
    × IsRound cm bound manager manager' out
    × ((j : ℕ) (c : Conversation)
        → get manager j ≡ some c
        → c.new_user_input ≡ none
        → get manager' j ≡ some c)

StandIn-map : (m : Conversations) → Distinct m → StandIn (actives m) m
StandIn-map m d j c e = ground (arith, lookup-actives m j d)

length-ArePrompts :
    (cm : ConversationModel) (b : ℕ) (active : Conversations) (prompts : List (List ℕ))
    → ArePrompts cm b active prompts
    → length prompts ≡ length active
length-ArePrompts cm b [] [] h = refl
length-ArePrompts cm b [] (p ∷ prompts) h = elim h [ ]
length-ArePrompts cm b (e ∷ active) [] h = elim h [ ]
length-ArePrompts cm b (e ∷ active) (p ∷ prompts) h =
    ap suc (length-ArePrompts cm b active prompts h.1)

length-AreRows :
    (b w pad : ℕ) (inputs history rows mask : List (List ℕ))
    → AreRows b w pad inputs history rows mask
    → length inputs ≡ length rows
length-AreRows b w pad [] [] [] [] h = refl
length-AreRows b w pad (i ∷ inputs) (x ∷ history) (r ∷ rows) (m ∷ mask) h =
    ap suc (length-AreRows b w pad inputs history rows mask h.1)
length-AreRows b w pad _ _ _ _ h = elim h [ ]

idle_none : (c : Conversation) → c.new_user_input ≡ none → if_pending (some c) ≡ none
idle_none c idle = rw idle

others_kept :
    (cm : ConversationModel) (n : ℕ) (generated : List (List ℕ × (ℕ × ℕ))) (prompts : List (List ℕ))
    (m : Conversations) (r : Conversations × Responses)
    → Distinct m
    → respond_all cm n (actives m) generated prompts m ≡ ok r
    → (j : ℕ) (c : Conversation) → lookup j m ≡ some c
    → c.new_user_input ≡ none
    → lookup j r.0 ≡ some c
others_kept cm n generated prompts m r d run j c e idle =
    let absent : contains_key j (actives m) ≡ false =
      contains_key-lookup j (actives m)
      ∙ ap is_some (lookup-actives m j d ∙ ap if_pending e ∙ idle_none c idle) in
    respond_untouched cm n (actives m) generated prompts m r j run absent ∙ e

round_runs :
    (cm : ConversationModel) (bound : ℤ) (manager : ConversationManager)
    → cm.max_allowed_context_length ≡ some bound
    → 0 < as_usize bound
    → ((rows mask : List (List ℕ))
        → AreExtended (pad_token cm) rows (cm.model.generate_from_ids_and_past rows mask))
    → Distinct manager.conversations
    → is_empty (get_active_conversations manager).0 ≡ false
    → Responds cm bound manager
unfolding get_active_conversations past_ids get
round_runs cm bound manager limit some_room extends distinct waiting =
    let active = actives manager.conversations in
    let chats = (get_active_conversations manager).1 in
    let pad = pad_token cm in
    let (texts, prompts, t, p, are) =
      prompts_total cm bound active some_room (actives_pending manager.conversations) in
    let count = length-ArePrompts cm (as_usize bound) active prompts are in
    let histories : length prompts ≡ length (past_ids chats) =
      count ∙ sym (length-map (λ (e : ℕ × Conversation). e.1) active) ∙ length-past_ids chats in
    let (batch, b, fits, rows) =
      concat_input_history_lem bound pad prompts (past_ids chats) histories (
        omega (
          arith,
          count,
          some_waiting active waiting,
          length-map (λ (e : ℕ × Conversation). e.1) active,
        )) in
    let output = cm.model.generate_from_ids_and_past batch.rows batch.mask in
    let (generated, g, cleaned) =
      clean_rows pad batch.width batch.rows output
        (rows_length (as_usize bound) batch.width pad prompts (past_ids chats) batch.rows batch.mask
          rows)
        (extends batch.rows batch.mask) in
    let (r, e, turns) =
      respond_turns cm (as_usize bound) batch.width pad active prompts batch.rows output generated
        manager.conversations (actives-Distinct manager.conversations distinct)
        (StandIn-map manager.conversations distinct) are cleaned
        (sym count
          ∙ length-AreRows (as_usize bound) batch.width pad prompts (past_ids chats) batch.rows
              batch.mask rows) in
    (
      record { conversations = r.0 },
      r.1,
      round_of_calls cm manager texts prompts batch generated r waiting t
          (ap (λ limit. encode_prompts limit cm.eos_token_id cm.model.tokenize texts) limit ∙ p)
          (ap (λ limit. concat_input_history limit pad prompts (past_ids chats)) limit ∙ b) g e,
      (prompts, batch.rows, batch.mask, batch.width, fits, rows, turns),
      others_kept cm batch.width generated prompts manager.conversations r distinct e,
    )

no_active :
    (manager : ConversationManager)
    → is_empty (get_active_conversations manager).0 ≡ true
    → actives manager.conversations ≡ []
unfolding get_active_conversations
no_active manager =
    elim (actives manager.conversations)
      as (λ l. is_empty (map (λ (e : ℕ × Conversation). e.0) l) ≡ true → l ≡ []) [
        | [] ↦ λ h. refl
        | e ∷ l ↦ λ h. ground arith
      ]

no_turns :
    (cm : ConversationModel) (b pad : ℕ) (after : ℕ → Option Conversation) (output : List (List ℕ))
    → AreExtended pad [] output
    → AreTurns cm b pad after [] [] [] output []
no_turns cm b pad after [] h = tt
no_turns cm b pad after (s ∷ output) h = h

nobody_waits :
    (cm : ConversationModel) (bound : ℤ) (manager : ConversationManager)
    → ((rows mask : List (List ℕ))
        → AreExtended (pad_token cm) rows (cm.model.generate_from_ids_and_past rows mask))
    → is_empty (get_active_conversations manager).0 ≡ true
    → Responds cm bound manager
unfolding generate_responses
nobody_waits cm bound manager extends nobody =
    let none_active = no_active manager nobody in
    (
      manager,
      [],
      rw nobody,
      (
        [],
        [],
        [],
        0,
        omega arith,
        rw none_active tt,
        rw none_active
            (no_turns cm (as_usize bound) (pad_token cm) (get manager) _ (extends [] [])),
      ),
      λ j c e _. e,
    )

-- With a positive bound on the context, no key twice, and a generator that adds to each row at least one token, of
-- which the first is not padding, a round of responses returns. It generates from a batch whose rows are the histories
-- and prompts of the conversations with a pending input, cut to the bound and padded. For each of these, in order, the
-- prompt is its tokenized input, the response is what the sequence generated from its own row has behind the row (of
-- the padding at the end one token is kept), the turn is completed with both, and the key with the decoded response
-- is returned, and nothing else. The other conversations are as they were.
pub generate_responses_lem :
    (cm : ConversationModel) (bound : ℤ) (manager : ConversationManager)
    → cm.max_allowed_context_length ≡ some bound
    → 0 < as_usize bound
    → ((rows mask : List (List ℕ))
        → AreExtended (pad_token cm) rows (cm.model.generate_from_ids_and_past rows mask))
    → Distinct manager.conversations
    → Responds cm bound manager
generate_responses_lem cm bound manager limit some_room extends distinct =
    elim (Bool-cases (is_empty (get_active_conversations manager).0)) [
      | inl nobody ↦ nobody_waits cm bound manager extends nobody
      | inr waiting ↦ round_runs cm bound manager limit some_room extends distinct waiting
    ]
