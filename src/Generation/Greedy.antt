-- ===== src/Generation/Greedy.antt =====
-- pipelines/generation_utils.rs: `generate_no_beam_search`. The state holds, for each sequence, the row of
-- `input_ids`, its entry of `unfinished_sentences` and of `sentence_lengths`, and its row of the attention
-- mask. The language model, its cache and the choice of the next token are the record `Decoder`.
pub mod Padding
pub mod Ends
use rust_bert.Prelude.{
  ℕ, zero, suc, ◌+◌, ◌-◌, ◌*◌, Bool, true, false, ◌&&◌, Option, none, some, List, [], ◌∷◌, ◌++◌,
  map, ltb, leb, ◌==◌, if◌then◌else◌, is_some, unwrap_or, contains,
}
use rust_bert.Prelude.Outcome.{Outcome, ok, ◌>>=◌, unwrap}
use rust_bert.Generation.BadWords.{Scores, ban_step, dynamic_mask}
use rust_bert.Generation.Ngrams.{get_banned_tokens}

pub record Row : Type 0 where
  pub ids : List ℕ
  -- 1 until an end-of-sequence token is added, then 0
  pub unfinished : ℕ
  pub sentence_length : ℕ
  pub attention : List ℕ

pub record Options : Type 0 where
  pub min_length : ℕ
  pub max_length : Option ℕ
  pub no_repeat_ngram_size : ℕ
  pub pad_token_id : Option ℕ
  pub eos_token_ids : Option (List ℕ)
  pub bad_word_ids : Option (List (List ℕ))
  pub is_encoder_decoder : Bool

-- `S` is the matrix of scores, `C` the cache with the state of the random draws.
pub record Decoder (S C : Type 0) : Type 0 where
  -- `prepare_inputs_for_generation`, `forward_t` and the scores of the last position
  pub forward : List (List ℕ) → List (List ℕ) → C → S × C
  -- `enforce_repetition_penalty`, the identity for a penalty of at most 1
  pub repetition : List (List ℕ) → S → S
  -- `apply_prefix_allowed_tokens_function`, the identity without such a function
  pub allowed : List (List ℕ) → S → S
  -- `prepare_scores_for_generation`
  pub prepare_scores : ℕ → S → S
  -- `argmax`, or top-k and top-p filtering and a draw: a token for each row
  pub pick : S → C → List ℕ × C

-- What one turn adds to a sequence: a finished one gets padding.
pub token_to_add : Options → ℕ → Row → Outcome ℕ
token_to_add opt next row = elim opt.eos_token_ids [
  | none ↦ ok next
  | some _ ↦ do
    pad ← unwrap opt.pad_token_id
    ok (next * row.unfinished + pad * (1 - row.unfinished))
]

-- The loop over the end-of-sequence tokens, `token` being the one that was added.
pub check_eos : ℕ → ℕ → List ℕ → Row → Row
check_eos current_length token [] row = row
check_eos current_length token (eos ∷ rest) row =
    let with_eos : ℕ = (if token == eos then 1 else 0) * row.unfinished in
    check_eos current_length token rest (record row {
      unfinished = row.unfinished * (1 - with_eos);
      sentence_length = if with_eos == 0 then row.sentence_length else current_length + 1;
    })

pub add_token : Options → ℕ → ℕ → Row → Outcome Row
unfolding token_to_add check_eos
add_token opt current_length next row = do
  token ← token_to_add opt next row
  ok (
      check_eos current_length token (unwrap_or opt.eos_token_ids [])
        (record row { ids = row.ids ++ token ∷ [] }))

-- All rows, with the token that was picked for each.
pub add_tokens : Options → ℕ → List ℕ → List Row → Outcome (List Row)
unfolding add_token
add_tokens opt current_length [] rows = ok []
add_tokens opt current_length (next ∷ nexts) [] = ok []
add_tokens opt current_length (next ∷ nexts) (row ∷ rows) = do
  row' ← add_token opt current_length next row
  rows' ← add_tokens opt current_length nexts rows
  ok (row' ∷ rows')

pub all_finished : List Row → Bool
all_finished [] = true
all_finished (row ∷ rows) = row.unfinished == 0 && all_finished rows

-- `break` if an end-of-sequence token is set and no sentence is unfinished.
pub stops_at_eos : Options → List Row → Bool
unfolding all_finished
stops_at_eos opt rows = is_some opt.eos_token_ids && all_finished rows

pub extend_attention : Options → Row → Row
extend_attention opt row =
    if opt.is_encoder_decoder then row else record row { attention = row.attention ++ 1 ∷ [] }

-- At the maximal length the sentences that are left take the current length.
pub cap_length : ℕ → Row → Row
cap_length current_length row =
    if row.unfinished == 0 then row else record row { sentence_length = current_length }

unfoldable pub at_max_length : Options → ℕ → Bool
at_max_length opt current_length = elim opt.max_length [
  | none ↦ false
  | some m ↦ leb m current_length
]

pub record State (C : Type 0) : Type 0 where
  pub rows : List Row
  pub past : C
  pub current_length : ℕ

-- Whether the loop goes on from the state or breaks with it.
pub data Turn (C : Type 0) : Type 0 where
  again : State C → Turn C
  break : State C → Turn C

-- The end of the body, from the tokens that were added on.
pub end_of_turn : {C : Type 0} → Options → State C → Turn C
unfolding stops_at_eos at_max_length extend_attention cap_length
end_of_turn opt s =
    if stops_at_eos opt s.rows
    then break s
    else (let rows = map (extend_attention opt) s.rows in
        let n = s.current_length + 1 in
        if at_max_length opt n
        then break (record s { rows = map (cap_length n) rows; current_length = n })
        else again (record s { rows = rows; current_length = n }))

module _ {S F : Type 0} (scores : Scores S F) where
  -- The tokens that would repeat an n-gram, where that is asked for.
  unfoldable pub ban_ngrams : Options → ℕ → List (List ℕ) → S → Outcome S
  ban_ngrams opt current_length ids s = if opt.no_repeat_ngram_size == 0 then ok s else (do
    banned ← get_banned_tokens ids opt.no_repeat_ngram_size current_length
    ok (scores.masked_fill s (dynamic_mask banned)))

  -- No end of sequence below the minimal length.
  unfoldable pub forbid_eos : Options → ℕ → S → S
  forbid_eos opt current_length s = elim opt.eos_token_ids [
    | none ↦ s
    | some eos ↦
        if ltb current_length opt.min_length
        then scores.masked_fill s (λ _ t. contains eos t)
        else s
  ]

module _ {S C F : Type 0} (scores : Scores S F) (model : Decoder S C) where
  -- The scores of the next token, in the order in which the source changes them.
  pub process : Options → ℕ → List (List ℕ) → S → Outcome S
  unfolding ban_ngrams forbid_eos
  process opt current_length ids s = do
    words ← ban_step scores opt.bad_word_ids ids (model.repetition ids s)
    ngrams ← ban_ngrams scores opt current_length ids words
    ok (
        model.prepare_scores current_length
          (forbid_eos scores opt current_length (model.allowed ids ngrams)))

  pub turn : Options → State C → Outcome (Turn C)
  unfolding process add_tokens end_of_turn
  turn opt s = do
    let ids = map (λ (r : Row). r.ids) s.rows
    let output = model.forward ids (map (λ (r : Row). r.attention) s.rows) s.past
    prepared ← process opt s.current_length ids output.0
    let picked = model.pick prepared output.1
    rows ← add_tokens opt s.current_length picked.0 s.rows
    ok (end_of_turn opt (record s { rows = rows; past = picked.1 }))

  -- `loop`, with fuel; `none`: the fuel ran out.
  pub generate_loop : ℕ → Options → State C → Outcome (Option (State C))
  unfolding turn
  generate_loop zero opt s = ok none
  generate_loop (suc fuel) opt s = do
    t ← turn opt s
    elim t [ break s' ↦ ok (some s') | again s' ↦ generate_loop fuel opt s' ]

  initial_row : List ℕ → List ℕ → Row
  initial_row ids attention = record {
    ids = ids;
    unfinished = 1;
    sentence_length = 1;
    attention = attention;
  }

  pub initial_rows : List (List ℕ) → List (List ℕ) → List Row
  unfolding initial_row
  initial_rows [] mask = []
  initial_rows (i ∷ ids) [] = []
  initial_rows (i ∷ ids) (m ∷ mask) = initial_row i m ∷ initial_rows ids mask

  pub generate_no_beam_search :
      ℕ → Options → List (List ℕ) → List (List ℕ) → ℕ → C → Outcome (Option (State C))
  unfolding generate_loop initial_rows
  generate_no_beam_search fuel opt input_ids attention_mask cur_len cache =
      generate_loop fuel opt (record {
        rows = initial_rows input_ids attention_mask;
        past = cache;
        current_length = cur_len;
      })
