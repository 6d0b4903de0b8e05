-- ===== src/Generation/Repetition/Scaled.antt =====
-- On the repetition penalty: how often an entry is changed.
use rust_bert.Prelude.{
  ℕ, zero, suc, ◌*◌, ◌≤◌, ◌<◌, ◌≡◌, refl, sym, ap, ◌∙◌, inl, inr, false, Option, none, some, List,
  [], ◌∷◌, arith, ◌==◌, if◌then◌else◌, ==_iff, Bool-cases, map_option, length, get_elem?, All,
  get_elem?-All, All-unit,
}
use rust_bert.Prelude.Outcome.{ok}
use rust_bert.Generation.Repetition.{
  Penalty, fill_entry, updated_value, penalise_row, penalise_rows, enforce_repetition_penalty,
}

-- How often a token is in a sequence.
abbrev pub occurrences : ℕ → List ℕ → ℕ
occurrences t [] = 0
occurrences t (x ∷ ids) = let rest = occurrences t ids in if x == t then suc rest else rest

abbrev pub times_updated : {F : Type 0} → Penalty F → ℕ → F → F
times_updated p zero v = v
times_updated p (suc n) v = times_updated p n (updated_value p v)

-- Each entry of the row has been changed as often as its token is in the sequence.
abbrev pub IsPenalised : {F : Type 0} → Penalty F → List ℕ → List F → List F → Type 0
IsPenalised p ids row row' =
    (t : ℕ) → get_elem? row' t ≡ map_option (times_updated p (occurrences t ids)) (get_elem? row t)

-- The first rows, `left` of them, are penalised, and those behind are as they were.
abbrev pub ArePenalised :
    {F : Type 0} → Penalty F → ℕ → List (List ℕ) → List (List F) → List (List F) → Type 0
ArePenalised p zero tokens logits logits' = logits' ≡ logits
ArePenalised p (suc left) [] logits logits' = ⊥
ArePenalised p (suc left) (ids ∷ tokens) [] logits' = ⊥
ArePenalised p (suc left) (ids ∷ tokens) (row ∷ logits) [] = ⊥
ArePenalised p (suc left) (ids ∷ tokens) (row ∷ logits) (row' ∷ logits') =
    IsPenalised p ids row row' × ArePenalised p left tokens logits logits'

module _ {F : Type 0} (p : Penalty F) where
  get_elem?-fill_entry-same :
      (i : ℕ) (v w : F) (row : List F)
      → get_elem? row i ≡ some w
      → get_elem? (fill_entry i v row) i ≡ some v
  unfolding fill_entry
  get_elem?-fill_entry-same i v w [] e = ground arith
  get_elem?-fill_entry-same zero v w (x ∷ row) e = refl
  get_elem?-fill_entry-same (suc i) v w (x ∷ row) e = get_elem?-fill_entry-same i v w row e

  get_elem?-fill_entry-other :
      (i t : ℕ) (v : F) (row : List F)
      → (i == t) ≡ false
      → get_elem? (fill_entry i v row) t ≡ get_elem? row t
  unfolding fill_entry
  get_elem?-fill_entry-other i t v [] n = refl
  get_elem?-fill_entry-other zero zero v (x ∷ row) n = ground arith
  get_elem?-fill_entry-other zero (suc t) v (x ∷ row) n = refl
  get_elem?-fill_entry-other (suc i) zero v (x ∷ row) n = refl
  get_elem?-fill_entry-other (suc i) (suc t) v (x ∷ row) n =
      get_elem?-fill_entry-other i t v row (ground (arith, n))

  length-fill_entry : (i : ℕ) (v : F) (row : List F) → length (fill_entry i v row) ≡ length row
  unfolding fill_entry
  length-fill_entry i v [] = refl
  length-fill_entry zero v (x ∷ row) = refl
  length-fill_entry (suc i) v (x ∷ row) = ap suc (length-fill_entry i v row)

  below_again : (k k' : ℕ) (ids : List ℕ) → k ≡ k' → All (λ t. t < k) ids → All (λ t. t < k') ids
  below_again k k' [] e a = tt
  below_again k k' (t ∷ ids) e a = (omega (arith, e, a.0), below_again k k' ids e a.1)

  one_more :
      (token t : ℕ) (v : F) (row : List F) (ids : List ℕ)
      → get_elem? row token ≡ some v
      → map_option
          (times_updated p (occurrences t ids))
          (get_elem? (fill_entry token (updated_value p v) row) t)
        ≡ map_option (times_updated p (occurrences t (token ∷ ids))) (get_elem? row t)
  one_more token t v row ids at_token = elim (Bool-cases (token == t)) [
    | inl e ↦
        let same : token ≡ t = (==_iff token t).0 e in
        let next = fill_entry token (updated_value p v) row in
        let before : get_elem? row t ≡ some v = ap (get_elem? row) (sym same) ∙ at_token in
        let after : get_elem? next t ≡ some (updated_value p v) =
          ap (get_elem? next) (sym same)
          ∙ get_elem?-fill_entry-same token (updated_value p v) v row at_token in
        rw (e, before, after)
    | inr n ↦ rw (n, get_elem?-fill_entry-other token t (updated_value p v) row n)
  ]

  penalise_row_lem :
      (ids : List ℕ) (row : List F)
      → All (λ t. t < length row) ids
      → (row' : List F) × (penalise_row p ids row ≡ ok row') × IsPenalised p ids row row'
  unfolding penalise_row
  penalise_row_lem [] row a = (row, refl, λ t. sym (map_option-id (get_elem? row t)))
    where
      map_option-id : (o : Option F) → map_option (times_updated p 0) o ≡ o
      map_option-id none = refl
      map_option-id (some v) = refl
  penalise_row_lem (token ∷ ids) row a =
      let (v, at_token, _) = get_elem?-All (λ x. Unit {0}) token row a.0 (All-unit row) in
      let next = fill_entry token (updated_value p v) row in
      let (row', run, changed) = penalise_row_lem ids next (
        below_again (length row) (length next) ids
          (sym (length-fill_entry token (updated_value p v) row)) a.1) in
      (row', rw at_token run, λ t. changed t ∙ one_more token t v row ids at_token)

  -- The tokens of each sequence are entries of its row of logits.
  abbrev pub AreTokens : List (List ℕ) → List (List F) → Type 0
  AreTokens [] logits = Unit
  AreTokens (ids ∷ tokens) [] = Unit
  AreTokens (ids ∷ tokens) (row ∷ logits) = All (λ t. t < length row) ids × AreTokens tokens logits

  penalise_rows_lem :
      (left : ℕ) (tokens : List (List ℕ)) (logits : List (List F))
      → left ≤ length tokens
      → left ≤ length logits
      → AreTokens tokens logits
      → (logits' : List (List F)) × (penalise_rows p left tokens logits ≡ ok logits')
        × ArePenalised p left tokens logits logits'
  unfolding penalise_rows
  penalise_rows_lem zero tokens logits h k a = (logits, refl, refl)
  penalise_rows_lem (suc left) [] logits h k a = absurd (omega (arith, h))
  penalise_rows_lem (suc left) (ids ∷ tokens) [] h k a = absurd (omega (arith, k))
  penalise_rows_lem (suc left) (ids ∷ tokens) (row ∷ logits) h k a =
      let (row', run, changed) = penalise_row_lem ids row a.0 in
      let (logits', rest, others) =
        penalise_rows_lem left tokens logits (omega (arith, h)) (omega (arith, k)) a.1 in
      (row' ∷ logits', rw (run, rest), (changed, others))

  -- For at least `batch_size * num_beams` sequences, and as many rows of logits, with entries for their tokens:
  -- in that many rows each entry is changed as often as its token is in the sequence, and the rows behind
  -- them are left as they were.
  pub enforce_repetition_penalty_lem :
      (batch_size num_beams : ℕ) (tokens : List (List ℕ)) (logits : List (List F))
      → batch_size * num_beams ≤ length tokens
      → batch_size * num_beams ≤ length logits
      → AreTokens tokens logits
      → (logits' : List (List F)) × (enforce_repetition_penalty p batch_size num_beams tokens logits
          ≡ ok logits')
        × ArePenalised p (batch_size * num_beams) tokens logits logits'
  unfolding enforce_repetition_penalty
  enforce_repetition_penalty_lem batch_size num_beams tokens logits h k a =
      penalise_rows_lem (batch_size * num_beams) tokens logits h k a
