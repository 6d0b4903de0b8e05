-- ===== src/Keywords/Tokenizer/Boundaries.antt =====
-- On the list of the words of all documents and its boundaries.
use mathlib.Core.List.{append_assoc}
use rust_bert.Prelude.{
  ℕ, ◌+◌, ◌-◌, ◌≡◌, refl, sym, ap, ◌∙◌, List, [], ◌∷◌, ◌++◌, map, arith, length, take, drop,
  length-append, take-append, drop-append, length-map,
}
use rust_bert.Keywords.Tokenizer.{Offset, Words, flatten_from, flatten_word_list}

abbrev pub keys : Words → List (List ℕ)
keys = map (λ (w : List ℕ × List Offset). w.0)

-- The part of the list of all words between two boundaries.
abbrev pub part : List (List ℕ) → ℕ × ℕ → List (List ℕ)
part flat (start, end) = take (end - start) (drop start flat)

part_between :
    (before ks after : List (List ℕ)) (c k : ℕ)
    → c ≡ length before
    → k ≡ length ks
    → part (before ++ (ks ++ after)) (c, c + k) ≡ ks
part_between before ks after c k e f =
    let size : length before + length ks - length before ≡ length ks = omega arith in
    rw (e, f) (rw (drop-append before (ks ++ after), size) (take-append ks after))

flatten_from_lem :
    (before : List (List ℕ)) (c : ℕ) (documents : List Words)
    → c ≡ length before
    → map (part (before ++ (flatten_from c documents).0)) (flatten_from c documents).1
      ≡ map keys documents
unfolding flatten_from
flatten_from_lem before c [] e = refl
flatten_from_lem before c (words ∷ documents) e =
    let rest = flatten_from (c + length words) documents in
    let size : length words ≡ length (keys words) =
      sym (length-map (λ (w : List ℕ × List Offset). w.0) words) in
    let later =
      flatten_from_lem (before ++ keys words) (c + length words) documents
        (omega (arith, e, size, length-append before (keys words))) in
    let same : map (part (before ++ (keys words ++ rest.0))) rest.1 ≡ map keys documents =
      ap (λ flat. map (part flat) rest.1) (sym (append_assoc before (keys words) rest.0)) ∙ later in
    rw (part_between before (keys words) rest.0 c (length words) e size, same)

-- Between the boundaries of a document stand its own words, in the order in which its map gives them: the
-- words of all documents are cut where they were joined.
pub flatten_word_list_lem :
    (documents : List Words)
    → map (part (flatten_word_list documents).0) (flatten_word_list documents).1
      ≡ map keys documents
unfolding flatten_word_list
flatten_word_list_lem documents = flatten_from_lem [] 0 documents refl
