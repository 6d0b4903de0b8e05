-- ===== src/TokenClassification/Consolidation/Groups.antt =====
-- On `consolidate_tokens`: what the splices make of the groups of sub-tokens.
use mathlib.Core.List.{reverse, reverse-cons, append_assoc, flatten}
use rust_bert.Prelude.{
  ℕ, ◌+◌, ◌<◌, String, ◌≡◌, refl, sym, ap, ◌∙◌, inl, inr, true, some, List, [], ◌∷◌, ◌++◌, arith,
  ltb, leb, if◌then◌else◌, Bool-cases, length, take, drop, last?, length-append, take-append,
  drop-append,
}
use rust_bert.Prelude.Outcome.{Outcome, ok, ◌>>=◌, traverse, >>=_assoc, >>=_ext}
use rust_bert.TokenClassification.Consolidation.{
  Token, Counts, Grading, LabelAggregationOption, first, last, mode, custom, count_label,
  count_labels, most_frequent, most_frequent_of, consolidate_labels, joined_offset, joined_text,
  joined_score, merge, to_replace, splice, splice_all, consolidate_sequence,
}

last?-some {ℓ} : {A : Type ℓ} (x : A) (xs : List A) → (y : A) × (last? (x ∷ xs) ≡ some y)
last?-some x [] = (x, refl)
last?-some x (z ∷ xs) = last?-some z xs

module _ {F M : Type 0} (g : Grading F M) where
  -- The order of the entries leaves out nothing if there is something.
  abbrev pub KeepsEntries : Type 0
  KeepsEntries = (counts : Counts F) → 0 < length counts → 0 < length (g.entries counts)

  count_label_some :
      (counts : Counts F) (token : Token F M) → 0 < length (count_label g counts token)
  unfolding count_label
  count_label_some [] token = omega arith
  count_label_some ((key, (count, score)) ∷ counts) token = ground (arith)

  count_labels_some :
      (counts : Counts F) (tokens : List (Token F M))
      → 0 < length counts
      → 0 < length (count_labels g counts tokens)
  unfolding count_labels
  count_labels_some counts [] h = h
  count_labels_some counts (token ∷ tokens) h =
      count_labels_some (count_label g counts token) tokens (count_label_some counts token)

  counted :
      (token : Token F M) (tokens : List (Token F M))
      → 0 < length (count_labels g [] (token ∷ tokens))
  unfolding count_labels
  counted token tokens =
      count_labels_some (count_label g [] token) tokens (count_label_some [] token)

  most_frequent_total :
      (counts : Counts F)
      → 0 < length counts
      → (l : ℕ × String) × (most_frequent_of g counts ≡ ok l)
  unfolding most_frequent_of
  most_frequent_total [] h = absurd (omega (arith, h))
  most_frequent_total (c ∷ counts) h = (most_frequent g c counts, refl)

  consolidate_labels_total :
      (aggregation : LabelAggregationOption F M) (token : Token F M) (tokens : List (Token F M))
      → KeepsEntries
      → (l : ℕ × String) × (consolidate_labels g aggregation (token ∷ tokens) ≡ ok l)
  unfolding consolidate_labels
  consolidate_labels_total first token tokens keeps = ((token.label_index, token.label), refl)
  consolidate_labels_total last token tokens keeps =
      let (y, e) = last?-some token tokens in ((y.label_index, y.label), rw e)
  consolidate_labels_total mode token tokens keeps =
      let counts = count_labels g [] (token ∷ tokens) in
      most_frequent_total (g.entries counts) (keeps counts (counted token tokens))
  consolidate_labels_total (custom function) token tokens keeps = (function (token ∷ tokens), refl)

  merge_total :
      (aggregation : LabelAggregationOption F M) (tokens : List (Token F M))
      → KeepsEntries
      → 0 < length tokens
      → (token : Token F M) × (merge g aggregation tokens ≡ ok token)
  unfolding merge
  merge_total aggregation [] keeps h = absurd (omega (arith, h))
  merge_total aggregation (token ∷ tokens) keeps h =
      let ((i, l), e) = consolidate_labels_total aggregation token tokens keeps in
      let (ending, f) = last?-some token tokens in
      (
        record {
          text = joined_text g "" (token ∷ tokens);
          score = joined_score g g.one i (token ∷ tokens);
          label = l;
          label_index = i;
          sentence = token.sentence;
          index = token.index;
          word_index = token.word_index;
          offset = joined_offset g token.offset ending.offset;
          mask = g.default_mask;
        },
        rw e (rw f),
      )

  -- What stands for a group in the end: one token for several.
  abbrev pub replaced : LabelAggregationOption F M → List (Token F M) → Outcome (List (Token F M))
  replaced aggregation tokens =
      if ltb 1 (length tokens)
      then (do token ← merge g aggregation tokens; ok (token ∷ []))
      else ok tokens

  -- The places of the replacements are those of the groups: behind `before`, the groups from there on.
  splice_all-append :
      (xs ys : List ((ℕ × ℕ) × Token F M)) (tokens : List (Token F M))
      → splice_all g (xs ++ ys) tokens ≡ (splice_all g xs tokens >>= splice_all g ys)
  unfolding splice_all
  splice_all-append [] ys tokens = refl
  splice_all-append ((range, token) ∷ xs) ys tokens =
      >>=_ext (splice g range token tokens) (splice_all g (xs ++ ys))
        (λ tokens'. splice_all g xs tokens' >>= splice_all g ys) (splice_all-append xs ys)
      ∙ >>=_assoc (splice g range token tokens) (splice_all g xs) (splice_all g ys)

  splice_lem :
      (before group after : List (Token F M)) (token : Token F M) (c : ℕ)
      → c ≡ length before
      → splice g (c, c + length group) token ((before ++ group) ++ after)
        ≡ ok (before ++ token ∷ after)
  unfolding splice
  splice_lem before group after token c e =
      let size = length-append before group in
      let whole = length-append (before ++ group) after in
      let starts : leb c (c + length group) ≡ true = ground arith in
      let ends : leb (c + length group) (length ((before ++ group) ++ after)) ≡ true =
        ground (arith, e, size, whole) in
      let front : take c ((before ++ group) ++ after) ≡ before =
        rw (e, append_assoc before group after) (take-append before (group ++ after)) in
      let back : drop (c + length group) ((before ++ group) ++ after) ≡ after =
        (let same : c + length group ≡ length (before ++ group) = omega (arith, e, size) in
          rw same (drop-append (before ++ group) after)) in
      rw (starts, ends) (rw (front, back))

  one_splice :
      (range : ℕ × ℕ) (token : Token F M) (tokens tokens' : List (Token F M))
      → splice g range token tokens ≡ ok tokens'
      → splice_all g ((range, token) ∷ []) tokens ≡ ok tokens'
  unfolding splice_all
  one_splice range token tokens tokens' e = rw e

  splice_last :
      (before group after after' : List (Token F M)) (token : Token F M) (c : ℕ)
      (rs : List ((ℕ × ℕ) × Token F M))
      → c ≡ length before
      → splice_all g (reverse rs) ((before ++ group) ++ after) ≡ ok ((before ++ group) ++ after')
      → splice_all g (reverse (((c, c + length group), token) ∷ rs)) (before ++ (group ++ after))
        ≡ ok (before ++ token ∷ after')
  splice_last before group after after' token c rs e ends =
      let r : (ℕ × ℕ) × Token F M = ((c, c + length group), token) in
      ap (λ l. splice_all g l (before ++ (group ++ after))) (reverse-cons r rs)
      ∙ splice_all-append (reverse rs) (r ∷ []) (before ++ (group ++ after))
      ∙ ap (λ l. splice_all g (reverse rs) l >>= splice_all g (r ∷ []))
          (sym (append_assoc before group after))
      ∙ ap (λ o. o >>= splice_all g (r ∷ [])) ends
      ∙ one_splice (c, c + length group) token ((before ++ group) ++ after')
          (before ++ token ∷ after') (splice_lem before group after' token c e)

  -- The ranges and tokens to replace, the parts, and what the splices give behind `before`.
  abbrev Spliced :
      LabelAggregationOption F M → List (Token F M) → ℕ → List (List (Token F M)) → Type 0
  Spliced aggregation before c groups =
      (rs : List ((ℕ × ℕ) × Token F M)) × (parts : List (List (Token F M))) × (to_replace g
          aggregation c groups
        ≡ ok rs)
      × (traverse (replaced aggregation) groups ≡ ok parts)
      × (splice_all g (reverse rs) (before ++ flatten groups) ≡ ok (before ++ flatten parts))

  spliced :
      (aggregation : LabelAggregationOption F M) (before : List (Token F M)) (c : ℕ)
      (groups : List (List (Token F M)))
      → KeepsEntries
      → c ≡ length before
      → Spliced aggregation before c groups
  unfolding to_replace traverse flatten splice_all
  spliced aggregation before c [] keeps e = ([], [], refl, refl, refl)
  spliced aggregation before c (group ∷ groups) keeps e =
      let (rs, parts, run, done, ends) =
        spliced aggregation (before ++ group) (c + length group) groups keeps
          (omega (arith, e, length-append before group)) in
      elim (Bool-cases (ltb 1 (length group))) [
        | inl several ↦
            let (token, merged) = merge_total aggregation group keeps (ground (arith, several)) in
            (
              ((c, c + length group), token) ∷ rs,
              (token ∷ []) ∷ parts,
              rw run (rw several (rw merged)),
              rw several (rw merged (rw done)),
              splice_last before group (flatten groups) (flatten parts) token c rs e ends,
            )
        | inr single ↦ (
          rs,
          group ∷ parts,
          rw run (rw single),
          rw single (rw done),
          rw (append_assoc before group (flatten groups), append_assoc before group (flatten parts))
              at ends,
        )
      ]

  -- With groups that make up the sequence, and an order of the counted labels that leaves out nothing if
  -- there is something: the splices from the last to the first succeed, and put one token for each group of
  -- several sub-tokens, in place, and keep the other groups.
  pub consolidate_sequence_lem :
      (aggregation : LabelAggregationOption F M) (tokens : List (Token F M))
      → KeepsEntries
      → flatten (g.groups tokens) ≡ tokens
      → (parts : List (List (Token F M))) × (traverse (replaced aggregation) (g.groups tokens)
          ≡ ok parts)
        × (consolidate_sequence g aggregation tokens ≡ ok (flatten parts))
  unfolding consolidate_sequence
  consolidate_sequence_lem aggregation tokens keeps e =
      let (rs, parts, run, done, ends) = spliced aggregation [] 0 (g.groups tokens) keeps refl in
      (parts, done, rw run (ap (splice_all g (reverse rs)) (sym e) ∙ ends))
