-- ===== src/Generation/Greedy/Ends.antt =====
-- On the loop of `generate_no_beam_search` and its two ways out.
use rust_bert.Prelude.{
  ℕ, zero, suc, ◌+◌, ◌≤◌, ◌<◌, ◌≡◌, refl, sym, ◌∙◌, ◌⊎◌, inl, inr, false, some, List, [], ◌∷◌, map,
  arith, leb, ◌==◌, Bool-cases, length, All, length-map,
}
use rust_bert.Prelude.Outcome.{ok}
use rust_bert.Generation.BadWords.{Scores, ban_step, dynamic_mask}
use rust_bert.Generation.Ngrams.Repeats.{get_banned_tokens_total}
use rust_bert.Generation.Greedy.{
  Row, Options, Decoder, State, Turn, again, break, add_tokens, stops_at_eos, extend_attention,
  cap_length, end_of_turn, process, ban_ngrams, forbid_eos, turn, generate_loop,
}
use rust_bert.Generation.Greedy.Padding.{
  AreSettled, add_tokens-AreSettled, extend-AreSettled, cap_length-AreSettled,
}

-- The states of a turn: as many settled rows as the batch, of the current length.
abbrev pub InTurn : {C : Type 0} → List ℕ → ℕ → ℕ → State C → Type 0
InTurn eos pad batch s = AreSettled eos pad s.current_length s.rows × (length s.rows ≡ batch)

-- What the loop breaks with, from the current length `n` and with the limit `m`: settled rows of one
-- length, which is greater than `n` and, unless that is `n + 1`, within the limit.
abbrev pub Broken : {C : Type 0} → List ℕ → ℕ → ℕ → ℕ → ℕ → State C → Type 0
Broken eos pad batch n m s =
    (l : ℕ) × AreSettled eos pad l s.rows
    × (length s.rows ≡ batch)
    × (n < l)
    × ((l ≡ n + 1) ⊎ (l ≤ m))

abbrev AfterTurn : {C : Type 0} → List ℕ → ℕ → ℕ → ℕ → ℕ → Turn C → Type 0
AfterTurn eos pad batch n m (break s) = Broken eos pad batch n m s
AfterTurn eos pad batch n m (again s) =
    InTurn eos pad batch s × (s.current_length ≡ n + 1) × (n + 1 < m)

end_of_turn-AfterTurn :
    {C : Type 0} (opt : Options) (s : State C) (eos : List ℕ) (pad batch m : ℕ)
    → opt.max_length ≡ some m
    → AreSettled eos pad (s.current_length + 1) s.rows
    → length s.rows ≡ batch
    → AfterTurn eos pad batch s.current_length m (end_of_turn opt s)
unfolding end_of_turn
end_of_turn-AfterTurn opt s eos pad batch m e h l = elim (Bool-cases (stops_at_eos opt s.rows)) [
  | inl b ↦ rw b (s.current_length + 1, h, l, omega arith, inl refl)
  | inr b ↦ rw b (elim (Bool-cases (leb m (s.current_length + 1))) [
    | inl c ↦
        rw (e, c)
          (
            s.current_length + 1,
            cap_length-AreSettled eos pad _ (s.current_length + 1) _
                (extend-AreSettled opt eos pad _ s.rows h),
            length-map (cap_length (s.current_length + 1)) _
                ∙ length-map (extend_attention opt) s.rows
                ∙ l,
            omega arith,
            inl refl,
          )
    | inr c ↦
        rw (e, c)
          (
            (
              extend-AreSettled opt eos pad _ s.rows h,
              length-map (extend_attention opt) s.rows ∙ l,
            ),
            refl,
            ground arith,
          )
  ])
]

rows_length :
    (eos : List ℕ) (pad n : ℕ) (rows : List Row)
    → AreSettled eos pad n rows
    → All (λ (ids : List ℕ). length ids ≡ n) (map (λ (r : Row). r.ids) rows)
rows_length eos pad n [] h = tt
rows_length eos pad n (row ∷ rows) h = (h.0.1, rows_length eos pad n rows h.1)

module _ {S F : Type 0} (scores : Scores S F) where
  -- The bad words never make the step panic.
  abbrev pub BansRun : Options → Type 0
  BansRun opt =
      (ids : List (List ℕ)) (s : S) → (s' : S) × (ban_step scores opt.bad_word_ids ids s ≡ ok s')

  pub ban_ngrams_total :
      (opt : Options) (n : ℕ) (ids : List (List ℕ)) (s : S)
      → All (λ (i : List ℕ). length i ≡ n) ids
      → (s' : S) × (ban_ngrams scores opt n ids s ≡ ok s')
  unfolding ban_ngrams
  ban_ngrams_total opt n ids s h = go opt.no_repeat_ngram_size refl
    where
      go :
          (k : ℕ)
          → opt.no_repeat_ngram_size ≡ k
          → (s' : S) × (ban_ngrams scores opt n ids s ≡ ok s')
      go zero e = (s, rw e)
      go (suc k) e =
          let (bs, run) = get_banned_tokens_total k n ids h in
          let some_size : (suc k == 0) ≡ false = ground arith in
          (scores.masked_fill s (dynamic_mask bs), rw e (rw (some_size, run)))

module _ {S C F : Type 0} (scores : Scores S F) (model : Decoder S C) where
  process_total :
      (opt : Options) (n : ℕ) (ids : List (List ℕ)) (s : S)
      → BansRun scores opt
      → All (λ (i : List ℕ). length i ≡ n) ids
      → (s' : S) × (process scores model opt n ids s ≡ ok s')
  unfolding process
  process_total opt n ids s bans h =
      let (w, e) = bans ids (model.repetition ids s) in
      let (g, f) = ban_ngrams_total scores opt n ids w h in
      (model.prepare_scores n (forbid_eos scores opt n (model.allowed ids g)), rw e (rw f))

  turn_run :
      (opt : Options) (s : State C) {p : S} {rows : List Row}
      → let ids = map (λ (r : Row). r.ids) s.rows in
        let output = model.forward ids (map (λ (r : Row). r.attention) s.rows) s.past in
        process scores model opt s.current_length ids output.0 ≡ ok p
        → add_tokens opt s.current_length (model.pick p output.1).0 s.rows ≡ ok rows
        → turn scores model opt s
          ≡ ok (end_of_turn opt (record s { rows = rows; past = (model.pick p output.1).1 }))
  unfolding turn
  turn_run opt s a b = rw a (rw b)

  turn-AfterTurn :
      (opt : Options) (s : State C) {eos : List ℕ} {pad m : ℕ} (batch : ℕ)
      → opt.eos_token_ids ≡ some eos
      → opt.pad_token_id ≡ some pad
      → opt.max_length ≡ some m
      → BansRun scores opt
      → ((p : S) (c : C) → length (model.pick p c).0 ≡ batch)
      → InTurn eos pad batch s
      → (t : Turn C) × (turn scores model opt s ≡ ok t)
        × AfterTurn eos pad batch s.current_length m t
  turn-AfterTurn opt s {eos} {pad} {m} batch e p l bans picks h =
      let ids = map (λ (r : Row). r.ids) s.rows in
      let output = model.forward ids (map (λ (r : Row). r.attention) s.rows) s.past in
      let (q, run) =
        process_total opt s.current_length ids output.0 bans (rows_length eos pad _ s.rows h.0) in
      let (rows, added, settled, size) =
        add_tokens-AreSettled opt s.current_length (model.pick q output.1).0 s.rows e p
          (picks q output.1 ∙ sym h.1) h.0 in
      (
        end_of_turn opt (record s { rows = rows; past = (model.pick q output.1).1 }),
        turn_run opt s run added,
        end_of_turn-AfterTurn opt (record s { rows = rows; past = (model.pick q output.1).1 }) eos
            pad batch m l settled (size ∙ h.1),
      )

  loop_run :
      (fuel : ℕ) (opt : Options) (s : State C) {t : Turn C}
      → turn scores model opt s ≡ ok t
      → generate_loop scores model (suc fuel) opt s
        ≡ elim t [ break s' ↦ ok (some s') | again s' ↦ generate_loop scores model fuel opt s' ]
  unfolding generate_loop
  loop_run fuel opt s e = rw e

  -- With an end of sequence, padding and a maximal length given, bad words that do not make the step
  -- panic, and one token picked for each sequence, fuel beyond the tokens that are left ends the loop: every
  -- sequence is settled, all are of one length, and that is within the limit or one turn away.
  pub generate_loop-Broken :
      (fuel : ℕ) (opt : Options) (s : State C) (eos : List ℕ) (pad m batch : ℕ)
      → opt.eos_token_ids ≡ some eos
      → opt.pad_token_id ≡ some pad
      → opt.max_length ≡ some m
      → BansRun scores opt
      → ((p : S) (c : C) → length (model.pick p c).0 ≡ batch)
      → InTurn eos pad batch s
      → 0 < fuel
      → m < fuel + s.current_length
      → (s' : State C) × (generate_loop scores model fuel opt s ≡ ok (some s'))
        × Broken eos pad batch s.current_length m s'
  generate_loop-Broken zero opt s eos pad m batch e p l bans picks h f k = elim f [ ]
  generate_loop-Broken (suc fuel) opt s eos pad m batch e p l bans picks h f k =
      let (t, run, after) = turn-AfterTurn opt s batch e p l bans picks h in
      (elim t
          as (λ t.
            turn scores model opt s ≡ ok t
            → AfterTurn eos pad batch s.current_length m t
            → (s' : State C) × (generate_loop scores model (suc fuel) opt s ≡ ok (some s'))
              × Broken eos pad batch s.current_length m s') [
                | break s' ↦ λ run after. (s', loop_run fuel opt s run, after)
                | again s' ↦ λ run after.
                    let (s'', rest, broken) =
                      generate_loop-Broken fuel opt s' eos pad m batch e p l bans picks after.0
                        (omega arith) (omega arith) in
                    (
                      s'',
                      loop_run fuel opt s run ∙ rest,
                      (
                        broken.0,
                        broken.1,
                        broken.2,
                        omega (arith, broken.3, after.1),
                        inr (
                            within s.current_length s'.current_length broken.0 m after.1 after.2
                              broken.4),
                      ),
                    )
              ])
        run after
    where
      within : (n n' l m : ℕ) → n' ≡ n + 1 → n + 1 < m → ((l ≡ n' + 1) ⊎ (l ≤ m)) → l ≤ m
      within n n' l m e h (inl b) = omega arith
      within n n' l m e h (inr b) = b
