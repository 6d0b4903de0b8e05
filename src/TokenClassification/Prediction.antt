-- ===== src/TokenClassification/Prediction.antt =====
-- pipelines/token_classification.rs: `predict`, `resize_features` and `decode_token`. The classifier, the tokenizer
-- and the masks of its crate are the record `Classifier`; a text is the list of its characters.
pub mod Features
pub mod Totals
pub mod Batches
use rust_bert.Prelude.{
  ℕ, zero, suc, ◌+◌, ◌-◌, ◌%◌, min, String, Bool, false, not, ◌&&◌, ◌||◌, Option, none, some, List,
  [], ◌∷◌, ◌++◌, map, ltb, leb, if◌then◌else◌, unwrap_or, length, get_elem?, take, drop, replicate,
  last?, maximum,
}
use rust_bert.Prelude.Outcome.{Outcome, ok, panics, ◌>>=◌, unwrap}
use rust_bert.TokenClassification.Consolidation.{
  Token, Grading, LabelAggregationOption, consolidate_tokens,
}

pub record InputFeature (M : Type 0) : Type 0 where
  pub input_ids : List ℕ
  pub offsets : List (Option (ℕ × ℕ))
  pub mask : List M
  pub token_type_ids : List ℕ
  pub reference_feature : List Bool
  pub example_index : ℕ

-- The label of greatest score at a row and a position, and the score of a label there.
pub record Scored (F : Type 0) : Type 0 where
  pub label_at : ℕ → ℕ → ℕ
  pub score_at : ℕ → ℕ → ℕ → F

pub record Classifier (F M : Type 0) : Type 0 where
  pub forward : List (List ℕ) → List (List ℕ) → List (List ℕ) → Scored F
  pub is_special : M → Bool
  pub is_continuation : M → Bool
  pub decode : ℕ → String
  pub collect : List ℕ → String
  pub label_mapping : ℕ → Option String
  pub pad_id : Option ℕ

-- `Vec::resize`
pub resize : {A : Type 0} → ℕ → A → List A → List A
resize n v xs = take n xs ++ replicate (n - length xs) v

module _ {M : Type 0} where
  pub resize_feature : ℕ → ℕ → InputFeature M → InputFeature M
  unfolding resize
  resize_feature max_len padding f = record f {
    input_ids = resize max_len padding f.input_ids;
    offsets = resize max_len none f.offsets;
    token_type_ids = resize max_len (unwrap_or (last? f.token_type_ids) 0) f.token_type_ids;
    reference_feature = resize max_len false f.reference_feature;
  }

  -- The features from `start` to `end`, `i` being the index of the first of the list, are padded in place.
  pub pad_range : ℕ → ℕ → ℕ → ℕ → ℕ → List (InputFeature M) → List (InputFeature M)
  unfolding resize_feature
  pad_range start end max_len padding i [] = []
  pad_range start end max_len padding i (f ∷ features) =
      (if leb start i && ltb i end then resize_feature max_len padding f else f)
      ∷ pad_range start end max_len padding (suc i) features

  pub batch_of : ℕ → ℕ → List (InputFeature M) → List (InputFeature M)
  batch_of start end features = take (end - start) (drop start features)

  pub attention_row : ℕ → InputFeature M → List ℕ
  unfolding resize
  attention_row max_len f = resize max_len 0 (replicate (length f.input_ids) 1)

-- The positions whose flag is set.
pub flagged : ℕ → List Bool → List ℕ
flagged i [] = []
flagged i (flag ∷ flags) = let rest = flagged (suc i) flags in if flag then i ∷ rest else rest

-- `vec[i].push(token)` for the tokens in turn: out of range it panics.
pub push_at : {A : Type 0} → ℕ → List A → List (List A) → Outcome (List (List A))
push_at i tokens [] = panics
push_at zero tokens (row ∷ rows) = ok ((row ++ tokens) ∷ rows)
push_at (suc i) tokens (row ∷ rows) = do rows' ← push_at i tokens rows; ok (row ∷ rows')

module _ {F M : Type 0} (c : Classifier F M) where
  -- `original_sentence_chars[start_char..end_char]`
  pub text_of : List ℕ → ℕ → Option (ℕ × ℕ) → Outcome String
  text_of chars token_id none = ok (c.decode token_id)
  text_of chars token_id (some (begin, end)) =
      let end_char = min end (length chars) in
      if leb begin end_char
      then ok (c.collect (take (end_char - begin) (drop begin chars)))
      else panics

  pub decode_token :
      List ℕ → InputFeature M → List (List ℕ) → Scored F → ℕ → ℕ → ℕ → Outcome (Token F M)
  unfolding text_of
  decode_token chars f input_ids scores sentence_idx position_idx word_index = do
    let label_id = scores.label_at sentence_idx position_idx
    row ← unwrap (get_elem? input_ids sentence_idx)
    token_id ← unwrap (get_elem? row position_idx)
    offset ← unwrap (get_elem? f.offsets position_idx)
    text ← text_of chars token_id offset
    label ← unwrap (c.label_mapping label_id)
    mask ← unwrap (get_elem? f.mask position_idx)
    ok (record {
      text = text;
      score = scores.score_at sentence_idx position_idx label_id;
      label = label;
      label_index = label_id;
      sentence = sentence_idx;
      index = position_idx % 65536;
      word_index = word_index;
      offset = offset;
      mask = mask;
    })

  -- The loop over the flagged positions; `word_idx` is a `u16`.
  pub decode_positions :
      Bool
      → List ℕ
      → InputFeature M
      → List (List ℕ)
      → Scored F
      → ℕ
      → ℕ
      → List ℕ
      → Outcome (List (Token F M))
  unfolding decode_token
  decode_positions return_special chars f input_ids scores sentence_idx word_idx [] = ok []
  decode_positions return_special chars f input_ids scores sentence_idx word_idx (p ∷ positions) =
      do
        mask ← unwrap (get_elem? f.mask p)
        let skipped = c.is_special mask && not return_special
        let word = if skipped || c.is_continuation mask then word_idx else (word_idx + 1) % 65536
        token ←
            if skipped
            then ok []
            else (do t ← decode_token chars f input_ids scores sentence_idx p word; ok (t ∷ []))
        rest ← decode_positions return_special chars f input_ids scores sentence_idx word positions
        ok (token ++ rest)

  -- The loop over the rows of a batch: `left` of them, from `sentence_idx` on. The feature is read at the
  -- index of the row.
  pub decode_rows :
      Bool
      → List (List ℕ)
      → List (InputFeature M)
      → List (List ℕ)
      → Scored F
      → ℕ
      → ℕ
      → List (List (Token F M))
      → Outcome (List (List (Token F M)))
  unfolding decode_positions flagged push_at
  decode_rows return_special inputs features input_ids scores zero sentence_idx tokens_map =
      ok tokens_map
  decode_rows return_special inputs features input_ids scores (suc left) sentence_idx tokens_map =
      do
        f ← unwrap (get_elem? features sentence_idx)
        chars ← unwrap (get_elem? inputs f.example_index)
        tokens ←
            decode_positions return_special chars f input_ids scores sentence_idx 0
              (flagged 0 f.reference_feature)
        tokens_map' ← push_at f.example_index tokens tokens_map
        decode_rows return_special inputs features input_ids scores left (suc sentence_idx)
            tokens_map'

  -- The turn of the loop for the features from `start` to `end`, which are padded. A batch without features
  -- panics.
  pub predict_batch :
      Bool
      → List (List ℕ)
      → ℕ
      → ℕ
      → ℕ
      → List (InputFeature M)
      → List (InputFeature M)
      → List (List (Token F M))
      → Outcome (List (List (Token F M)))
  unfolding batch_of attention_row decode_rows
  predict_batch return_special inputs start end max_len features padded tokens =
      let rows = map (λ (f : InputFeature M). f.input_ids) (batch_of start end padded) in
      let masks = map (attention_row max_len) (batch_of start end features) in
      let types = map (λ (f : InputFeature M). f.token_type_ids) (batch_of start end padded) in
      if ltb start end
      then decode_rows return_special inputs padded rows (c.forward rows masks types) (end - start)
          0 tokens
      else panics

  -- The `while` loop, with fuel (`none`: it ran out).
  unfoldable pub predict_loop :
      ℕ
      → ℕ
      → Bool
      → List (List ℕ)
      → ℕ
      → List (InputFeature M)
      → List (List (Token F M))
      → Outcome (Option (List (List (Token F M))))
  unfolding batch_of pad_range predict_batch
  predict_loop zero batch_size return_special inputs start features tokens = ok none
  predict_loop (suc fuel) batch_size return_special inputs start features tokens =
      let end = start + min (length features - start) batch_size in
      let lengths =
        map (λ (f : InputFeature M). length f.input_ids) (batch_of start end features) in
      if ltb start (length features)
      then (do
        padding ← unwrap c.pad_id
        let padded = pad_range start end (maximum lengths) padding 0 features
        tokens' ←
            predict_batch return_special inputs start end (maximum lengths) features padded tokens
        predict_loop fuel batch_size return_special inputs end padded tokens')
      else ok (some tokens)

  -- `features` are those of all inputs, from `generate_features`.
  unfoldable pub predict :
      Grading F M
      → LabelAggregationOption F M
      → ℕ
      → ℕ
      → Bool
      → Bool
      → List (List ℕ)
      → List (InputFeature M)
      → Outcome (Option (List (List (Token F M))))
  unfolding predict_loop
  predict g aggregation fuel batch_size consolidate_sub_tokens return_special inputs features = do
    ended ←
        predict_loop fuel batch_size return_special inputs 0 features (replicate (length inputs) [])
    elim ended [
      | none ↦ ok none
      | some tokens ↦
          if consolidate_sub_tokens
          then (do tokens' ← consolidate_tokens g aggregation tokens; ok (some tokens'))
          else ok (some tokens)
    ]
