-- ===== src/TokenClassification/Prediction/Batches.antt =====
-- On the batches of `predict` of the token classification.
use rust_bert.Prelude.{
  ℕ, zero, suc, ◌+◌, ◌-◌, ◌≤◌, ◌<◌, min, ◌≡◌, sym, ap, ◌∙◌, inl, inr, Bool, false, ◌&&◌, Option,
  none, some, List, [], ◌∷◌, map, arith, ltb, leb, ◌==◌, Bool-cases, length, get_elem?, take, All,
  maximum,
}
use rust_bert.Prelude.Outcome.{Outcome, ok, err, panics, >>=-eq-ok, unwrap}
use mathlib.Core.Path.{subst}
use mathlib.Core.Option.{some-injective}
use rust_bert.TokenClassification.Consolidation.{Token}
use rust_bert.TokenClassification.Prediction.Features.{IsFeature}
use rust_bert.TokenClassification.Prediction.Totals.{HasLabels, predict_loop_total}
use rust_bert.TokenClassification.Prediction.{
  InputFeature, Scored, Classifier, resize_feature, pad_range, batch_of, attention_row, flagged,
  push_at, decode_positions, decode_rows, predict_batch, predict_loop,
}

ok_injective : {A : Type 0} {a b : A} → ok a ≡ ok b → a ≡ b
ok_injective {A} {a} {b} e = ap (value_or a) e
  where
    value_or : A → Outcome A → A
    value_or d panics = d
    value_or d (err why) = d
    value_or d (ok x) = x

panics_not_ok : {A : Type 0} {a : A} → panics ≡ ok a → ⊥
panics_not_ok e = ground arith

value_of_unwrap : {A : Type 0} (o : Option A) (a : A) → unwrap o ≡ ok a → o ≡ some a
value_of_unwrap none a e = ground arith
value_of_unwrap (some b) a e = ap some (ok_injective e)

-- No feature of the list is one of the example `e`.
abbrev pub AreForeign : {M : Type 0} → ℕ → List (InputFeature M) → Type 0
AreForeign e = All (λ f. (f.example_index == e) ≡ false)

module _ {M : Type 0} where
  pad_range-AreForeign :
      (start end max_len padding i e k : ℕ) (features : List (InputFeature M))
      → AreForeign e (take k features)
      → AreForeign e (take k (pad_range start end max_len padding i features))
  unfolding pad_range resize_feature
  pad_range-AreForeign start end max_len padding i e zero features h = tt
  pad_range-AreForeign start end max_len padding i e (suc k) [] h = tt
  pad_range-AreForeign start end max_len padding i e (suc k) (f ∷ features) h =
      let rest = pad_range-AreForeign start end max_len padding (suc i) e k features h.1 in
      elim (Bool-cases (leb start i && ltb i end)) [
        | inl b ↦ (rw b h.0, rest)
        | inr b ↦ (rw b h.0, rest)
      ]

  foreign_at :
      (e i k : ℕ) (features : List (InputFeature M)) (f : InputFeature M)
      → AreForeign e (take k features)
      → i < k
      → get_elem? features i ≡ some f
      → (f.example_index == e) ≡ false
  foreign_at e i zero features f h p at_i = absurd (omega (arith, p))
  foreign_at e i (suc k) [] f h p at_i = ground arith
  foreign_at e zero (suc k) (x ∷ features) f h p at_i =
      subst (λ y. (y.example_index == e) ≡ false) (some-injective x f at_i) h.0
  foreign_at e (suc i) (suc k) (x ∷ features) f h p at_i =
      foreign_at e i k features f h.1 (omega (arith, p)) at_i

push_elsewhere :
    {A : Type 0} (i e : ℕ) (tokens : List A) (rows rows' : List (List A))
    → (i == e) ≡ false
    → push_at i tokens rows ≡ ok rows'
    → get_elem? rows' e ≡ get_elem? rows e
unfolding push_at
push_elsewhere i e tokens [] rows' n run = ground arith
push_elsewhere zero zero tokens (row ∷ rows) rows' n run = ground arith
push_elsewhere zero (suc e) tokens (row ∷ rows) rows' n run =
    ap (λ l. get_elem? l (suc e)) (sym (ok_injective run))
push_elsewhere (suc i) zero tokens (row ∷ rows) rows' n run =
    let (rows₁, _, e) = >>=-eq-ok (push_at i tokens rows) _ run in
    ap (λ l. get_elem? l zero) (sym (ok_injective e))
push_elsewhere (suc i) (suc e) tokens (row ∷ rows) rows' n run =
    let (rows₁, pushed, same) = >>=-eq-ok (push_at i tokens rows) _ run in
    ap (λ l. get_elem? l (suc e)) (sym (ok_injective same))
    ∙ push_elsewhere i e tokens rows rows₁ (ground (arith, n)) pushed

module _ {F M : Type 0} (c : Classifier F M) (return_special : Bool) (inputs : List (List ℕ))
    (e : ℕ) where
  decode_rows_elsewhere :
      (k : ℕ) (features : List (InputFeature M)) (rows : List (List ℕ)) (scores : Scored F)
      (left i : ℕ) (tokens tokens' : List (List (Token F M)))
      → AreForeign e (take k features)
      → i + left ≤ k
      → decode_rows c return_special inputs features rows scores left i tokens ≡ ok tokens'
      → get_elem? tokens' e ≡ get_elem? tokens e
  unfolding decode_rows
  decode_rows_elsewhere k features rows scores zero i tokens tokens' foreign h run =
      ap (λ l. get_elem? l e) (sym (ok_injective run))
  decode_rows_elsewhere k features rows scores (suc left) i tokens tokens' foreign h run =
      let (f, at_i, run₁) = >>=-eq-ok (unwrap (get_elem? features i)) _ run in
      let (chars, _, run₂) = >>=-eq-ok (unwrap (get_elem? inputs f.example_index)) _ run₁ in
      let (new, _, run₃) =
        >>=-eq-ok
          (decode_positions c return_special chars f rows scores i 0
            (flagged 0 f.reference_feature))
          _ run₂ in
      let (tokens₁, pushed, run₄) = >>=-eq-ok (push_at f.example_index new tokens) _ run₃ in
      let other =
        foreign_at e i k features f foreign (omega (arith, h))
          (value_of_unwrap (get_elem? features i) f at_i) in
      decode_rows_elsewhere k features rows scores left (suc i) tokens₁ tokens' foreign
        (omega (arith, h)) run₄
      ∙ push_elsewhere f.example_index e new tokens tokens₁ other pushed

  predict_batch_elsewhere :
      (start end max_len k : ℕ) (features padded : List (InputFeature M))
      (tokens tokens' : List (List (Token F M)))
      → AreForeign e (take k padded)
      → end - start ≤ k
      → predict_batch c return_special inputs start end max_len features padded tokens ≡ ok tokens'
      → get_elem? tokens' e ≡ get_elem? tokens e
  unfolding predict_batch
  predict_batch_elsewhere start end max_len k features padded tokens tokens' foreign h run =
      let rows = map (λ (f : InputFeature M). f.input_ids) (batch_of start end padded) in
      let types = map (λ (f : InputFeature M). f.token_type_ids) (batch_of start end padded) in
      let scores =
        c.forward rows (map (attention_row max_len) (batch_of start end features)) types in
      elim (Bool-cases (ltb start end)) [
        | inl t ↦
            decode_rows_elsewhere k padded rows scores (end - start) 0 tokens tokens' foreign
              (omega (arith, h)) (rw t at run)
        | inr f ↦ absurd (panics_not_ok (rw f at run))
      ]

  predict_loop_elsewhere :
      (fuel batch_size start : ℕ) (features : List (InputFeature M))
      (tokens tokens' : List (List (Token F M)))
      → AreForeign e (take batch_size features)
      → predict_loop c fuel batch_size return_special inputs start features tokens
        ≡ ok (some tokens')
      → get_elem? tokens' e ≡ get_elem? tokens e
  unfolding predict_loop
  predict_loop_elsewhere zero batch_size start features tokens tokens' foreign run = ground arith
  predict_loop_elsewhere (suc fuel) batch_size start features tokens tokens' foreign run =
      let end = start + min (length features - start) batch_size in
      let max_len =
        maximum (map (λ (f : InputFeature M). length f.input_ids) (batch_of start end features)) in
      elim (Bool-cases (ltb start (length features))) [
        | inr over ↦
            let same : tokens ≡ tokens' =
              some-injective tokens tokens' (ok_injective (rw over at run)) in
            ap (λ l. get_elem? l e) (sym same)
        | inl more ↦
            let (padding, _, run₁) = >>=-eq-ok (unwrap c.pad_id) _ (rw more at run) in
            let padded = pad_range start end max_len padding 0 features in
            let (tokens₁, decoded, rest) =
              >>=-eq-ok
                (predict_batch c return_special inputs start end max_len features padded tokens)
                (predict_loop c fuel batch_size return_special inputs end padded) run₁ in
            let foreign' =
              pad_range-AreForeign start end max_len padding 0 e batch_size features foreign in
            predict_loop_elsewhere fuel batch_size end padded tokens₁ tokens' foreign' rest
            ∙ predict_batch_elsewhere start end max_len batch_size features padded tokens tokens₁
                foreign' (omega arith) decoded
      ]

  -- Features of the inputs, all of one size, a list of tokens for each input, a padding token, a label for every index
  -- and batches that are not empty: with fuel for more batches than there are features left the loop returns, and an
  -- example that has no feature in the first batch gets no token from any batch, since each reads the features of
  -- the first.
  pub predict_loop-AreForeign :
      (fuel batch_size start size pad : ℕ) (features : List (InputFeature M))
      (tokens : List (List (Token F M)))
      → HasLabels c
      → c.pad_id ≡ some pad
      → 0 < batch_size
      → length features - start < fuel
      → All (IsFeature inputs size) features
      → length tokens ≡ length inputs
      → AreForeign e (take batch_size features)
      → (tokens' : List (List (Token F M))) × (predict_loop c fuel batch_size return_special inputs
            start features tokens
          ≡ ok (some tokens'))
        × (get_elem? tokens' e ≡ get_elem? tokens e)
  predict_loop-AreForeign fuel batch_size start size pad features tokens labels p b h good same
        foreign =
      let (tokens', run) =
        predict_loop_total c labels return_special inputs size fuel batch_size start pad features
          tokens p b h good same in
      (
        tokens',
        run,
        predict_loop_elsewhere fuel batch_size start features tokens tokens' foreign run,
      )
