-- ===== src/Generation/Repetition.antt =====
-- pipelines/generation_utils.rs: `enforce_repetition_penalty`. The logits are a row for each sequence.
pub mod Scaled
use rust_bert.Prelude.{ℕ, zero, suc, ◌*◌, Bool, List, [], ◌∷◌, if◌then◌else◌, get_elem?}
use rust_bert.Prelude.Outcome.{Outcome, ok, panics, ◌>>=◌, unwrap}

-- The operations of `f64` on a logit, for one penalty.
pub record Penalty (F : Type 0) : Type 0 where
  pub is_negative : F → Bool
  pub times : F → F
  pub divided : F → F

-- `index_fill_` of one entry.
pub fill_entry : {F : Type 0} → ℕ → F → List F → List F
fill_entry i v [] = []
fill_entry zero v (x ∷ row) = v ∷ row
fill_entry (suc i) v (x ∷ row) = x ∷ fill_entry i v row

module _ {F : Type 0} (p : Penalty F) where
  pub updated_value : F → F
  updated_value v = if p.is_negative v then p.times v else p.divided v

  -- The loop over the tokens of a sequence: a token out of range panics.
  pub penalise_row : List ℕ → List F → Outcome (List F)
  unfolding fill_entry updated_value
  penalise_row [] row = ok row
  penalise_row (token ∷ tokens) row = do
    v ← unwrap (get_elem? row token)
    penalise_row tokens (fill_entry token (updated_value v) row)

  -- The loop over the rows, `left` of them: one more than there are panics.
  pub penalise_rows : ℕ → List (List ℕ) → List (List F) → Outcome (List (List F))
  unfolding penalise_row
  penalise_rows zero tokens logits = ok logits
  penalise_rows (suc left) [] logits = panics
  penalise_rows (suc left) ([] ∷ tokens) [] = penalise_rows left tokens []
  penalise_rows (suc left) ((id ∷ ids) ∷ tokens) [] = panics
  penalise_rows (suc left) (ids ∷ tokens) (row ∷ logits) = do
    row' ← penalise_row ids row
    logits' ← penalise_rows left tokens logits
    ok (row' ∷ logits')

  unfoldable pub enforce_repetition_penalty :
      ℕ → ℕ → List (List ℕ) → List (List F) → Outcome (List (List F))
  unfolding penalise_rows
  enforce_repetition_penalty batch_size num_beams prev_output_tokens next_token_logits =
      penalise_rows (batch_size * num_beams) prev_output_tokens next_token_logits
