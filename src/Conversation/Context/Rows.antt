-- ===== src/Conversation/Context/Rows.antt =====
-- On `concat_input_history`: the rows of the batch, their mask and their number.
use rust_bert.Prelude.{
  ℕ, ◌-◌, ◌≤◌, ◌<◌, ◌≡◌, refl, Option, some, List, [], ◌∷◌, ◌++◌, map, arith, ==_iff, length, drop,
  replicate, length-append, length-replicate, maximum,
}
use rust_bert.Prelude.Int.{ℤ, as_usize}
use rust_bert.Prelude.Outcome.{ok, traverse}
use native.Mathlib.Nat.{le_refl}
use rust_bert.Conversation.Context.{
  truncate_input, concat_pairs, pad_left, mask_row, Batch, pad_batch, concat_input_history,
}
use rust_bert.Conversation.Context.Truncation.{KeptFrom, IsCut, truncate_input-IsCut}

abbrev AreCuts : ℕ → ℕ → List (List ℕ) → List (List ℕ) → Type 0
AreCuts b pad [] [] = Unit
AreCuts b pad [] (y ∷ ys) = ⊥
AreCuts b pad (x ∷ xs) [] = ⊥
AreCuts b pad (x ∷ xs) (y ∷ ys) = IsCut b pad x y × AreCuts b pad xs ys

truncate_all :
    (bound : ℤ) (pad : ℕ) (xs : List (List ℕ))
    → (ys : List (List ℕ)) × (traverse (truncate_input (some bound) pad) xs ≡ ok ys)
      × AreCuts (as_usize bound) pad xs ys
unfolding traverse
truncate_all bound pad [] = ([], refl, tt)
truncate_all bound pad (x ∷ xs) =
    let (y, e, cut) = truncate_input-IsCut bound pad x in
    let (ys, es, cuts) = truncate_all bound pad xs in (y ∷ ys, rw e (rw es), (cut, cuts))

width_le : (b pad : ℕ) (xs ys : List (List ℕ)) → AreCuts b pad xs ys → maximum (map length ys) ≤ b
width_le b pad [] [] h = omega arith
width_le b pad [] (y ∷ ys) h = elim h [ ]
width_le b pad (x ∷ xs) [] h = elim h [ ]
width_le b pad (x ∷ xs) (y ∷ ys) h = omega (arith, h.0.3, width_le b pad xs ys h.1)

-- Row by row: the padded end of the concatenated history and input, under its mask.
abbrev pub IsRow : ℕ → ℕ → ℕ → List ℕ → List ℕ → List ℕ → Type 0
IsRow b w pad x row mask =
    (s : ℕ) × (s ≤ length x)
    × KeptFrom b pad x s
    × (row ≡ replicate (w - length (drop s x)) pad ++ drop s x)
    × (mask ≡ replicate (w - length (drop s x)) 0 ++ replicate (length (drop s x)) 1)
    × (length row ≡ w)

abbrev pub AreRows :
    ℕ → ℕ → ℕ → List (List ℕ) → List (List ℕ) → List (List ℕ) → List (List ℕ) → Type 0
AreRows b w pad [] [] [] [] = Unit
AreRows b w pad (i ∷ inputs) (h ∷ history) (r ∷ rows) (m ∷ mask) =
    IsRow b w pad (h ++ i) r m × AreRows b w pad inputs history rows mask
AreRows b w pad _ _ _ _ = ⊥

IsRow-of_cut :
    (b w pad : ℕ) (x y : List ℕ)
    → IsCut b pad x y
    → length y ≤ w
    → IsRow b w pad x (pad_left w pad y) (mask_row w y)
IsRow-of_cut b w pad x y (s, inside, e, _, from) h = (
  s,
  inside,
  from,
  rw e,
  rw e,
  omega
      (arith, length-append (replicate (w - length y) pad) y, length-replicate (w - length y) pad),
)

rows_of_cuts :
    (b w pad : ℕ) (inputs history ys : List (List ℕ))
    → length inputs ≡ length history
    → AreCuts b pad (concat_pairs inputs history) ys
    → maximum (map length ys) ≤ w
    → AreRows b w pad inputs history (map (pad_left w pad) ys) (map (mask_row w) ys)
unfolding concat_pairs
rows_of_cuts b w pad [] [] [] e h k = tt
rows_of_cuts b w pad [] [] (y ∷ ys) e h k = elim h [ ]
rows_of_cuts b w pad [] (x ∷ history) ys e h k = absurd (omega arith)
rows_of_cuts b w pad (i ∷ inputs) [] ys e h k = absurd (omega arith)
rows_of_cuts b w pad (i ∷ inputs) (x ∷ history) [] e h k = elim h [ ]
rows_of_cuts b w pad (i ∷ inputs) (x ∷ history) (y ∷ ys) e h k = (
  IsRow-of_cut b w pad (x ++ i) y h.0 (omega (arith, k)),
  rows_of_cuts b w pad inputs history ys (omega arith) h.1 (omega (arith, k)),
)

pad_batch_lem :
    (pad : ℕ) (y : List ℕ) (ys : List (List ℕ))
    → let w = maximum (map length (y ∷ ys)) in
      pad_batch (y ∷ ys) pad
      ≡ ok (record {
        rows = map (pad_left w pad) (y ∷ ys);
        mask = map (mask_row w) (y ∷ ys);
        width = w;
      })
unfolding pad_batch
pad_batch_lem pad y ys = refl

concat_of_traversal :
    (bound : Option ℤ) (pad : ℕ) (inputs history : List (List ℕ)) {ys : List (List ℕ)}
    {batch : Batch}
    → length inputs ≡ length history
    → traverse (truncate_input bound pad) (concat_pairs inputs history) ≡ ok ys
    → pad_batch ys pad ≡ ok batch
    → concat_input_history bound pad inputs history ≡ ok batch
unfolding concat_input_history
concat_of_traversal bound pad inputs history {ys} e t p =
    rw ((==_iff (length inputs) (length history)).1 e) (rw t p)

concat_cut :
    (b pad : ℕ) (i x : List ℕ) (inputs history : List (List ℕ))
    → ¬ AreCuts b pad (concat_pairs (i ∷ inputs) (x ∷ history)) []
unfolding concat_pairs
concat_cut b pad i x inputs history h = h

-- For as many histories as inputs, and at least one, the batch is built: its width is within the
-- limit, and every row is its history and input, cut at the truncation index if they are over the limit and
-- else whole, and padded on the left to the width, with 0 in the mask over the padding and 1 over the tokens.
pub concat_input_history_lem :
    (bound : ℤ) (pad : ℕ) (inputs history : List (List ℕ))
    → length inputs ≡ length history
    → 0 < length inputs
    → (batch : Batch) × (concat_input_history (some bound) pad inputs history ≡ ok batch)
      × (batch.width ≤ as_usize bound)
      × AreRows (as_usize bound) batch.width pad inputs history batch.rows batch.mask
concat_input_history_lem bound pad [] history e h = elim h [ ]
concat_input_history_lem bound pad (i ∷ inputs) [] e h = absurd (omega arith)
concat_input_history_lem bound pad (i ∷ inputs) (x ∷ history) e h =
    go (truncate_all bound pad (concat_pairs (i ∷ inputs) (x ∷ history)))
  where
    go :
        ((ys : List (List ℕ)) × (traverse
              (truncate_input (some bound) pad)
              (concat_pairs (i ∷ inputs) (x ∷ history))
            ≡ ok ys)
          × AreCuts (as_usize bound) pad (concat_pairs (i ∷ inputs) (x ∷ history)) ys)
        → (batch : Batch) × (concat_input_history (some bound) pad (i ∷ inputs) (x ∷ history)
            ≡ ok batch)
          × (batch.width ≤ as_usize bound)
          × AreRows
              (as_usize bound)
              batch.width
              pad
              (i ∷ inputs)
              (x ∷ history)
              batch.rows
              batch.mask
    go ([], t, cuts) = absurd (concat_cut (as_usize bound) pad i x inputs history cuts)
    go (y ∷ ys, t, cuts) = (
      record {
        rows = map (pad_left (maximum (map length (y ∷ ys))) pad) (y ∷ ys);
        mask = map (mask_row (maximum (map length (y ∷ ys)))) (y ∷ ys);
        width = maximum (map length (y ∷ ys));
      },
      concat_of_traversal (some bound) pad (i ∷ inputs) (x ∷ history) e t (pad_batch_lem pad y ys),
      width_le _ pad _ (y ∷ ys) cuts,
      rows_of_cuts (as_usize bound) _ pad (i ∷ inputs) (x ∷ history) (y ∷ ys) e cuts (le_refl _),
    )
