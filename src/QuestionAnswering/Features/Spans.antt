-- ===== src/QuestionAnswering/Features/Spans.antt =====
-- On the windows of a context.
use rust_bert.Prelude.{ℕ, ◌+◌, ◌-◌, ◌≤◌, ◌<◌, ◌≡◌, true, some, List, arith, leb}
use rust_bert.Prelude.Outcome.{ok}
use rust_bert.QuestionAnswering.Features.{context_spans}
use rust_bert.TokenClassification.Windows.Cover.{Chain, inside, spans_loop-Chain, Chain-inside}

-- A context that is not empty, with a positive stride of at most half the room that the special tokens and
-- the question leave: the loop ends within as many rounds as there are tokens, and one more; its windows
-- form a chain from the first token to the last, and every token lies in one of them.
pub context_spans_lem :
    (max_seq_length added query doc_stride total : ℕ)
    → 0 < doc_stride
    → added + query + doc_stride + doc_stride ≤ max_seq_length
    → 0 < total
    → (l : List (ℕ × ℕ)) × (context_spans (total + 1) max_seq_length added query doc_stride total
        ≡ ok (some l))
      × Chain total (max_seq_length - added - query) doc_stride 0 l
      × ((p : ℕ) → p < total → inside p l ≡ true)
unfolding context_spans
context_spans_lem max_seq_length added query doc_stride total h k t =
    let content = max_seq_length - added - query in
    let (l, run, c) =
      spans_loop-Chain (total + 1) total content doc_stride 0 0 h (omega arith) (omega arith) t
        (omega arith) in
    let fits : leb added max_seq_length ≡ true = ground arith in
    let fits' : leb query (max_seq_length - added) ≡ true = ground arith in
    (
      l,
      rw (fits, fits') run,
      c,
      λ p b. Chain-inside total content doc_stride 0 p l c (omega arith) b,
    )
