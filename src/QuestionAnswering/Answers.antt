-- ===== src/QuestionAnswering/Answers.antt =====
-- pipelines/question_answering.rs: `remove_duplicates`, over a type with its `PartialEq` test.
pub mod Distinct
use rust_bert.Prelude.{Bool, false, ◌||◌, List, [], ◌∷◌, ◌++◌, if◌then◌else◌}

module _ {A : Type 0} (same : A → A → Bool) where
  -- `potential_duplicates.contains(item)`
  pub seen : List A → A → Bool
  seen [] item = false
  seen (x ∷ xs) item = same x item || seen xs item

  -- `retain`, with the state of its closure.
  pub retain_new : List A → List A → List A
  unfolding seen
  retain_new potential_duplicates [] = []
  retain_new potential_duplicates (item ∷ items) =
      let kept = retain_new (potential_duplicates ++ item ∷ []) items in
      if seen potential_duplicates item then retain_new potential_duplicates items else item ∷ kept

  unfoldable pub remove_duplicates : List A → List A
  unfolding retain_new
  remove_duplicates items = retain_new [] items
