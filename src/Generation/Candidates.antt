-- ===== src/Generation/Candidates.antt =====
-- pipelines/generation_utils.rs: in `generate_beam_search`, from the scores and flat indices of the best
-- candidates of each input (`topk`, or a draw that is sorted) to the beams of the next turn, for one beam
-- group. A row holds the candidates of one input, in descending order of their scores.
pub mod Count
use rust_bert.Prelude.{
  ℕ, suc, ◌+◌, ◌-◌, ◌*◌, ◌/◌, Bool, false, not, ◌&&◌, Option, none, some, List, [], ◌∷◌, map, leb,
  ◌==◌, if◌then◌else◌,
}
use rust_bert.Prelude.Outcome.{Outcome, ok, panics}
use rust_bert.Float.{Floats}

pub record Candidate (F : Type 0) : Type 0 where
  pub score : F
  pub token : ℕ
  -- the row of `input_ids` that it extends
  pub beam : ℕ

-- `&gen_opt.eos_token_ids[0]`, if there are any: an empty vector panics.
unfoldable pub first_eos : Option (List ℕ) → Outcome (Option ℕ)
first_eos none = ok none
first_eos (some []) = panics
first_eos (some (eos ∷ rest)) = ok (some eos)

module _ {F : Type 0} where
  -- A flat index stands for a beam of the input and a token.
  unfoldable pub candidate_of : ℕ → ℕ → ℕ → F × ℕ → Candidate F
  candidate_of vocab_size group_size batch_index (score, next_token) =
      let beam_id = next_token / vocab_size in
      record {
        score = score;
        token = next_token - beam_id * vocab_size;
        beam = batch_index * group_size + beam_id;
      }

  -- The rows from an input on.
  unfoldable pub candidate_rows : ℕ → ℕ → ℕ → List (List (F × ℕ)) → List (List (Candidate F))
  unfolding candidate_of
  candidate_rows vocab_size group_size batch_index [] = []
  candidate_rows vocab_size group_size batch_index (row ∷ rows) =
      map (candidate_of vocab_size group_size batch_index) row
      ∷ candidate_rows vocab_size group_size (suc batch_index) rows

  unfoldable pub is_eos : Option ℕ → Candidate F → Bool
  is_eos none c = false
  is_eos (some eos) c = c.token == eos

  -- `eos_mask2`: the mask and the running sum of the mask within the group size; `count` is the sum over
  -- the candidates before.
  unfoldable pub masked_select : Option ℕ → ℕ → ℕ → List (Candidate F) → List (Candidate F)
  unfolding is_eos
  masked_select eos group_size count [] = []
  masked_select eos group_size count (c ∷ row) =
      let sum = count + (if is_eos eos c then 0 else 1) in
      let rest = masked_select eos group_size sum row in
      if leb sum group_size && not (is_eos eos c) then c ∷ rest else rest

  -- The largest score of a row, from a first one on.
  unfoldable pub max_score : Floats F → F → List (Candidate F) → F
  max_score fl best [] = best
  max_score fl best (c ∷ row) = max_score fl (if fl.ord_leb best c.score then c.score else best) row
