-- ===== src/Conversation/Context/Padding.antt =====
-- On `clean_padding_indices`: the padding round a generated sequence, and its counts.
use mathlib.Core.List.{reverse, reverse-append, reverse-cons, append_assoc}
use rust_bert.Prelude.{
  ℕ, zero, suc, ◌+◌, ◌-◌, ◌≡◌, refl, ap, ◌∙◌, ◌≢◌, not, some, List, [], ◌∷◌, ◌++◌, arith, ltb, ◌==◌,
  if◌then◌else◌, length, take, drop, replicate, length-append, length-replicate, position,
}
use rust_bert.Prelude.Outcome.{ok}
use Prim.Native.Nat.add
use rust_bert.Conversation.Context.{clean_sequence}

module _ (pad : ℕ) where
  position-padded :
      (p x : ℕ) (r : List ℕ)
      → x ≢ pad
      → position (λ t. not (t == pad)) (replicate p pad ++ x ∷ r) ≡ some p
  position-padded zero x r h = ground arith
  position-padded (suc p) x r h = ground (arith, position-padded p x r h)

  replicate-snoc : (q : ℕ) → replicate q pad ++ pad ∷ [] ≡ pad ∷ replicate q pad
  replicate-snoc zero = refl
  replicate-snoc (suc q) = ap (◌∷◌ pad) (replicate-snoc q)

  reverse-replicate : (q : ℕ) → reverse (replicate q pad) ≡ replicate q pad
  reverse-replicate zero = refl
  reverse-replicate (suc q) =
      rw (reverse-cons pad (replicate q pad), reverse-replicate q) (replicate-snoc q)

  -- The sequence ends with `z` and `q` padding tokens.
  position_from_end :
      (a : List ℕ) (z q : ℕ)
      → z ≢ pad
      → position (λ t. not (t == pad)) (reverse (a ++ z ∷ replicate q pad)) ≡ some q
  position_from_end a z q h =
      rw
        (
          reverse-append a (z ∷ replicate q pad),
          reverse-cons z (replicate q pad),
          reverse-replicate q,
        )
        (rw append_assoc (position-padded q z (reverse a) h))

pub take-append_left {ℓ} :
    {A : Type ℓ} (xs ys : List A) (n : ℕ) → take (length xs + n) (xs ++ ys) ≡ xs ++ take n ys
take-append_left [] ys n = rw (add.zero n)
take-append_left (x ∷ xs) ys n = rw (add.suc (length xs) n) (ap (◌∷◌ x) (take-append_left xs ys n))

-- What is left of the padding at the end: one token, if there was any.
abbrev pub one_of : ℕ → ℕ → List ℕ
one_of pad zero = []
one_of pad (suc q) = pad ∷ []

kept_lem :
    (pad q : ℕ) (xs : List ℕ)
    → (if ltb 0 q
        then take (length (xs ++ replicate q pad) - q + 1) (xs ++ replicate q pad)
        else xs ++ replicate q pad)
      ≡ xs ++ one_of pad q
kept_lem pad zero xs = refl
kept_lem pad (suc q) xs =
    let n : length (xs ++ replicate (suc q) pad) - suc q + 1 ≡ length xs + 1 =
      omega (arith, length-append xs (replicate (suc q) pad), length-replicate (suc q) pad) in
    rw n (ground (arith, take-append_left xs (replicate (suc q) pad) 1))

pub clean_from :
    (pad : ℕ) (sequence : List ℕ) (i j : ℕ)
    → position (λ r. not (r == pad)) (reverse sequence) ≡ some j
    → position (λ r. not (r == pad)) sequence ≡ some i
    → clean_sequence pad sequence
      ≡ ok (drop i (if ltb 0 j then take (length sequence - j + 1) sequence else sequence), (i, j))
unfolding clean_sequence
clean_from pad sequence i j h k = rw h (rw k)

drop_padding : (pad p : ℕ) (xs : List ℕ) → drop p (replicate p pad ++ xs) ≡ xs
drop_padding pad zero xs = refl
drop_padding pad (suc p) xs = drop_padding pad p xs

-- The padding at the end in the two shapes that the scans want.
reshape :
    (pad p q z : ℕ) (core a : List ℕ)
    → core ≡ a ++ z ∷ []
    → replicate p pad ++ (core ++ replicate q pad) ≡ (replicate p pad ++ a) ++ z ∷ replicate q pad
reshape pad p q z core a e = rw e (simp append_assoc)

-- Text that begins and ends with other tokens than padding, in `p` padding tokens before and `q`
-- after it, is cleaned to the text with one padding token behind it if `q` is not 0; the counts are
-- `p` and `q`.
pub clean_sequence_lem :
    (pad p q x z : ℕ) (r a : List ℕ)
    → x ≢ pad
    → z ≢ pad
    → x ∷ r ≡ a ++ z ∷ []
    → clean_sequence pad (replicate p pad ++ ((x ∷ r) ++ replicate q pad))
      ≡ ok ((x ∷ r) ++ one_of pad q, (p, q))
clean_sequence_lem pad p q x z r a hx hz e =
    let from_end : position (λ t. not (t == pad))
          (reverse (replicate p pad ++ ((x ∷ r) ++ replicate q pad)))
        ≡ some q =
      rw (reshape pad p q z (x ∷ r) a e) (position_from_end pad (replicate p pad ++ a) z q hz) in
    clean_from pad (replicate p pad ++ ((x ∷ r) ++ replicate q pad)) p q from_end
      (position-padded pad p x (r ++ replicate q pad) hx)
    ∙ rw (← append_assoc (replicate p pad) (x ∷ r) (replicate q pad)) (
        rw (kept_lem pad q (replicate p pad ++ x ∷ r))
          (rw append_assoc (rw (drop_padding pad p ((x ∷ r) ++ one_of pad q)))))
