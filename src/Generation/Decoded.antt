-- ===== src/Generation/Decoded.antt =====
-- pipelines/generation_utils.rs: the matrix of ids that `generate_beam_search` returns, from the ids of the
-- hypotheses. A cell is `none` where `new_empty` left it and nothing was written: its value is undefined.
pub mod Filled
pub mod Unwritten
use rust_bert.Prelude.{
  ℕ, ◌+◌, min, Option, none, some, List, [], ◌∷◌, ◌++◌, map, ltb, leb, ◌==◌, if◌then◌else◌,
  unwrap_or, length, get_elem?, take, drop, replicate, maximum,
}
use rust_bert.Prelude.Outcome.{Outcome, ok, panics, ◌>>=◌, unwrap, traverse}
use rust_bert.Generation.Greedy.{Options}

abbrev pub Cells : Type 0
Cells = List (Option ℕ)

minimum_of : ℕ → List ℕ → ℕ
minimum_of least [] = least
minimum_of least (x ∷ xs) = minimum_of (min least x) xs

-- `sentence_max_length`, from the greatest of the lengths.
pub sentence_max_length : Options → ℕ → ℕ
sentence_max_length opt longest = elim opt.max_length [
  | none ↦ longest + 1
  | some max_length ↦ min (longest + 1) max_length
]

-- `gen_opt.eos_token_ids.as_ref().unwrap()[0]`
pub eos_token : Options → Outcome ℕ
eos_token opt = do ids ← unwrap opt.eos_token_ids; unwrap (get_elem? ids 0)

-- What the cells hold at first: padding, unless all the lengths are equal.
pub initial_cell : Options → List ℕ → Outcome (Option ℕ)
unfolding minimum_of eos_token
initial_cell opt [] = panics
initial_cell opt (n ∷ lengths) =
    if maximum (n ∷ lengths) == minimum_of n lengths then ok none else elim opt.pad_token_id [
      | some pad ↦ ok (some pad)
      | none ↦ do eos ← eos_token opt; ok (some eos)
    ]

-- `index_copy_` of the ids at the front, and `index_fill_` of one cell: out of range they panic.
pub copy_front : List ℕ → Cells → Outcome Cells
copy_front ids cells =
    if leb (length ids) (length cells) then ok (map some ids ++ drop (length ids) cells) else panics

pub fill_at : ℕ → ℕ → Cells → Outcome Cells
fill_at i v cells =
    if ltb i (length cells) then ok (take i cells ++ some v ∷ drop (i + 1) cells) else panics

-- The turn of the loop for one hypothesis; `longest` is the greatest of the lengths.
pub decode_row : Options → ℕ → Cells → List ℕ → Outcome Cells
unfolding copy_front fill_at eos_token
decode_row opt longest cells best_id = do
  copied ← copy_front best_id cells
  if ltb (length best_id) (unwrap_or opt.max_length longest)
      then (do eos ← eos_token opt; fill_at (length best_id) eos copied)
      else ok copied

unfoldable pub decode_hypotheses : Options → List (List ℕ) → Outcome (List Cells)
unfolding sentence_max_length initial_cell decode_row traverse
decode_hypotheses opt best_ids = do
  let lengths = map length best_ids
  let longest = maximum lengths
  cell ← initial_cell opt lengths
  traverse (decode_row opt longest (replicate (sentence_max_length opt longest) cell)) best_ids
