-- ===== src/TokenClassification/Prediction/Totals.antt =====
-- On `predict` of the token classification: its loops return on features of one size.
use rust_bert.Prelude.{
  ℕ, zero, suc, ◌+◌, ◌-◌, ◌%◌, ◌≤◌, ◌<◌, min, String, ◌≡◌, refl, ◌∙◌, inl, inr, Bool, true, not,
  ◌&&◌, ◌||◌, Option, none, some, List, [], ◌∷◌, map, arith, ltb, leb, if◌then◌else◌, Bool-cases,
  length, get_elem?, take, drop, length-take, length-drop, All, All-take, All-drop, get_elem?-All,
  length-map, All-unit, maximum,
}
use rust_bert.Prelude.Outcome.{ok}
use rust_bert.TokenClassification.Consolidation.{Token}
use rust_bert.TokenClassification.Prediction.{
  InputFeature, Scored, Classifier, pad_range, batch_of, attention_row, flagged, text_of,
  decode_token, decode_positions, decode_rows, predict_batch, predict_loop,
}
use rust_bert.TokenClassification.Prediction.Features.{
  BeginsIn, IsFeature, pad_range-IsFeature, maximum_same, rows_same, flagged_below, push_at_total,
  step_total,
}

-- Every index stands for a label.
abbrev pub HasLabels : {F M : Type 0} → Classifier F M → Type 0
HasLabels c = (l : ℕ) → (label : String) × (c.label_mapping l ≡ some label)

module _ {F M : Type 0} (c : Classifier F M) (labels : HasLabels c) (return_special : Bool)
    (inputs : List (List ℕ)) (size : ℕ) where
  text_total :
      (chars : List ℕ) (id : ℕ) (o : Option (ℕ × ℕ))
      → BeginsIn chars o
      → (s : String) × (text_of c chars id o ≡ ok s)
  unfolding text_of
  text_total chars id none h = (c.decode id, refl)
  text_total chars id (some (begin, end)) h =
      let fits : leb begin (min end (length chars)) ≡ true = ground (arith, h) in
      (c.collect (take (min end (length chars) - begin) (drop begin chars)), rw fits)

  position_step :
      (f : InputFeature M) (chars : List ℕ) (rows : List (List ℕ)) (scores : Scored F)
      (i p word : ℕ) (mask : M) (positions : List ℕ) {t : Token F M} {rest : List (Token F M)}
      → let skipped = c.is_special mask && not return_special in
        let next = if skipped || c.is_continuation mask then word else (word + 1) % 65536 in
        get_elem? f.mask p ≡ some mask
        → decode_token c chars f rows scores i p next ≡ ok t
        → decode_positions c return_special chars f rows scores i next positions ≡ ok rest
        → decode_positions c return_special chars f rows scores i word (p ∷ positions)
          ≡ ok (if skipped then rest else t ∷ rest)
  unfolding decode_positions decode_token
  position_step f chars rows scores i p word mask positions m e r =
      rw m (step_total (c.is_special mask && not return_special) _ _ (rw m at e) r)

  module _ (f : InputFeature M) (chars : List ℕ) (rows : List (List ℕ)) (scores : Scored F) (i : ℕ)
      (row : List ℕ) (good : IsFeature inputs size f) (begins : All (BeginsIn chars) f.offsets)
      (at_row : get_elem? rows i ≡ some row) (same : length row ≡ size) where
    token_total :
        (p word : ℕ)
        → p < size
        → (t : Token F M) × (decode_token c chars f rows scores i p word ≡ ok t)
    unfolding decode_token
    token_total p word h =
        let label_id = scores.label_at i p in
        let (id, at_id, _) =
          get_elem?-All (λ (x : ℕ). Unit {0}) p row (omega (arith, h, same)) (All-unit row) in
        let (o, at_o, fits) =
          get_elem?-All (BeginsIn chars) p f.offsets (omega (arith, h, good.1)) begins in
        let (text, t) = text_total chars id o fits in
        let (label, l) = labels label_id in
        let (mask, m, _) =
          get_elem?-All (λ (x : M). Unit {0}) p f.mask (omega (arith, h, good.2))
            (All-unit f.mask) in
        (
          record {
            text = text;
            score = scores.score_at i p label_id;
            label = label;
            label_index = label_id;
            sentence = i;
            index = p % 65536;
            word_index = word;
            offset = o;
            mask = mask;
          },
          rw at_row (rw at_id (rw at_o (rw t (rw l (rw m))))),
        )

    positions_total :
        (word : ℕ) (positions : List ℕ)
        → All (λ p. p < size) positions
        → (ts : List (Token F M)) × (decode_positions c return_special chars f rows scores i word
              positions
            ≡ ok ts)
    unfolding decode_positions
    positions_total word [] h = ([], refl)
    positions_total word (p ∷ positions) (h, hs) =
        let (mask, m, _) =
          get_elem?-All (λ (x : M). Unit {0}) p f.mask (omega (arith, h, good.2))
            (All-unit f.mask) in
        let skipped = c.is_special mask && not return_special in
        let next = if skipped || c.is_continuation mask then word else (word + 1) % 65536 in
        let (t, e) = token_total p next h in
        let (rest, r) = positions_total next positions hs in
        (
          if skipped then rest else t ∷ rest,
          position_step f chars rows scores i p word mask positions m e r,
        )

  decode_rows_total :
      (features : List (InputFeature M)) (rows : List (List ℕ)) (scores : Scored F) (left i : ℕ)
      (tokens : List (List (Token F M)))
      → All (IsFeature inputs size) features
      → All (λ row. length row ≡ size) rows
      → i + left ≤ length features
      → i + left ≤ length rows
      → length tokens ≡ length inputs
      → (tokens' : List (List (Token F M))) × (decode_rows c return_special inputs features rows
            scores left i tokens
          ≡ ok tokens')
        × (length tokens' ≡ length inputs)
  unfolding decode_rows
  decode_rows_total features rows scores zero i tokens good same h k e = (tokens, refl, e)
  decode_rows_total features rows scores (suc left) i tokens good same h k e =
      let (f, at_f, feature) =
        get_elem?-All (IsFeature inputs size) i features (omega (arith, h)) good in
      let (row, at_row, size_row) =
        get_elem?-All (λ r. length r ≡ size) i rows (omega (arith, k)) same in
      let (_, _, _, flags, at, chars, found, begins) = feature in
      let (new, d) =
        positions_total f chars rows scores i row feature begins at_row size_row 0
          (flagged 0 f.reference_feature)
          (flagged_below 0 size f.reference_feature (omega (arith, flags))) in
      let (tokens₁, pushed, count) =
        push_at_total f.example_index new tokens (omega (arith, at, e)) in
      let (tokens', run, count') =
        decode_rows_total features rows scores left (suc i) tokens₁ good same (omega (arith, h))
          (omega (arith, k)) (count ∙ e) in
      (tokens', rw at_f (rw found (rw d (rw pushed (rw run)))), count')

  predict_batch_total :
      (start end : ℕ) (features padded : List (InputFeature M)) (tokens : List (List (Token F M)))
      → All (IsFeature inputs size) padded
      → start < end
      → end ≤ length padded
      → length tokens ≡ length inputs
      → (tokens' : List (List (Token F M))) × (predict_batch c return_special inputs start end size
            features padded tokens
          ≡ ok tokens')
        × (length tokens' ≡ length inputs)
  unfolding predict_batch batch_of
  predict_batch_total start end features padded tokens good some_feature h e =
      let batch = batch_of start end padded in
      let rows = map (λ (f : InputFeature M). f.input_ids) batch in
      let masks = map (attention_row size) (batch_of start end features) in
      let types = map (λ (f : InputFeature M). f.token_type_ids) batch in
      let many : length rows ≡ end - start = omega (
        arith,
        length-map (λ (f : InputFeature M). f.input_ids) batch,
        length-take (end - start) (drop start padded),
        length-drop start padded,
        some_feature,
        h,
      ) in
      let (tokens', run, count) =
        decode_rows_total padded rows (c.forward rows masks types) (end - start) 0 tokens good
          (rows_same inputs size batch (
            All-take (IsFeature inputs size) (end - start) (drop start padded)
              (All-drop (IsFeature inputs size) start padded good)))
          (omega (arith, h)) (omega (arith, many)) e in
      let not_empty : ltb start end ≡ true = ground (arith, some_feature) in
      (tokens', rw not_empty run, count)

  loop_step :
      (fuel batch_size start pad : ℕ) (features : List (InputFeature M))
      (tokens : List (List (Token F M))) {tokens₁ tokens' : List (List (Token F M))}
      → let end = start + min (length features - start) batch_size in
        let padded = pad_range start end size pad 0 features in
        ltb start (length features) ≡ true
        → c.pad_id ≡ some pad
        → maximum (map (λ (f : InputFeature M). length f.input_ids) (batch_of start end features))
          ≡ size
        → predict_batch c return_special inputs start end size features padded tokens ≡ ok tokens₁
        → predict_loop c fuel batch_size return_special inputs end padded tokens₁
          ≡ ok (some tokens')
        → predict_loop c (suc fuel) batch_size return_special inputs start features tokens
          ≡ ok (some tokens')
  unfolding predict_loop
  loop_step fuel batch_size start pad features tokens more p widest run rest =
      rw more (rw p (rw widest (rw run (rw rest))))

  -- On features of one size the loop returns, with fuel for more batches than there are features left.
  pub predict_loop_total :
      (fuel batch_size start pad : ℕ) (features : List (InputFeature M))
      (tokens : List (List (Token F M)))
      → c.pad_id ≡ some pad
      → 0 < batch_size
      → length features - start < fuel
      → All (IsFeature inputs size) features
      → length tokens ≡ length inputs
      → (tokens' : List (List (Token F M))) × (predict_loop c fuel batch_size return_special inputs
            start features tokens
          ≡ ok (some tokens'))
  unfolding predict_loop
  predict_loop_total zero batch_size start pad features tokens p b h good e =
      absurd (omega (arith, h))
  predict_loop_total (suc fuel) batch_size start pad features tokens p b h good e =
      let end = start + min (length features - start) batch_size in
      let batch = batch_of start end features in
      elim (Bool-cases (ltb start (length features))) [
        | inr over ↦ (tokens, rw over)
        | inl more ↦
            let left : start < length features = ground (arith, more) in
            let widest : maximum (map (λ (f : InputFeature M). length f.input_ids) batch) ≡ size =
              maximum_same inputs size batch
                (All-take (IsFeature inputs size) (end - start) (drop start features)
                  (All-drop (IsFeature inputs size) start features good))
                (omega (
                  arith,
                  length-take (end - start) (drop start features),
                  length-drop start features,
                  left,
                  b,
                )) in
            let padded = pad_range start end size pad 0 features in
            let (good', same) = pad_range-IsFeature inputs size start end pad 0 features good in
            let (tokens₁, run, count) =
              predict_batch_total start end features padded tokens good' (omega (arith, left, b))
                (omega (arith, same, left)) e in
            let (tokens', rest) =
              predict_loop_total fuel batch_size end pad padded tokens₁ p b
                (omega (arith, h, same, left, b)) good' count in
            (tokens', loop_step fuel batch_size start pad features tokens more p widest run rest)
      ]
