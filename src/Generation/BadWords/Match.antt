-- ===== src/Generation/BadWords/Match.antt =====
-- On `tokens_match`, and the words that a token completes.
use mathlib.Core.List.{append-nil}
use rust_bert.Prelude.{
  ℕ, ◌-◌, ◌≡◌, refl, sym, ap, ◌∙◌, ◌↔◌, true, List, [], ◌∷◌, ◌++◌, arith, length, take, drop,
  length-append, take-append-drop, drop-append, list_eq, list_eq_sound, list_eq_refl,
}
use rust_bert.Generation.BadWords.{tokens_match}

drop-suffix :
    (pre tokens : List ℕ) → drop (length (pre ++ tokens) - length tokens) (pre ++ tokens) ≡ tokens
drop-suffix pre tokens =
    let n : length (pre ++ tokens) - length tokens ≡ length pre =
      omega (arith, length-append pre tokens) in
    rw n (drop-append pre tokens)

tokens_match_sound :
    (prev tokens : List ℕ)
    → tokens_match prev tokens ≡ true
    → (pre : List ℕ) × (prev ≡ pre ++ tokens)
unfolding tokens_match
tokens_match_sound prev [] h = (prev, sym (append-nil prev))
tokens_match_sound prev (t ∷ tokens) h =
    let n = length prev - length (t ∷ tokens) in
    let same : list_eq (drop n prev) (t ∷ tokens) ≡ true = ground arith in
    (
      take n prev,
      sym (take-append-drop n prev)
          ∙ ap (λ (l : List ℕ). take n prev ++ l) (list_eq_sound (drop n prev) (t ∷ tokens) same),
    )

tokens_match_complete : (pre tokens : List ℕ) → tokens_match (pre ++ tokens) tokens ≡ true
unfolding tokens_match
tokens_match_complete pre [] = refl
tokens_match_complete pre (t ∷ tokens) =
    rw (drop-suffix pre (t ∷ tokens))
      (ground (arith, length-append pre (t ∷ tokens), list_eq_refl tokens))

-- The test holds exactly when the previous tokens end with the given ones.
pub tokens_match_iff :
    (prev tokens : List ℕ)
    → (tokens_match prev tokens ≡ true) ↔ ((pre : List ℕ) × (prev ≡ pre ++ tokens))
tokens_match_iff prev tokens =
    (tokens_match_sound prev tokens, λ (pre, e). rw e (tokens_match_complete pre tokens))
