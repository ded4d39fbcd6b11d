-- ===== src/Desktop/Rows.antt =====
-- The rows of app/src/models/WorkspaceModel.cpp and app/src/models/TaskModel.cpp: `setWorkspaces` and
-- `setTasks`, which keep the rows whose identifier stays, `updateWorkspace` and `updateTask`, and `clear`.
-- The two classes have one code over the type of a row.
pub mod Found
pub mod Merge
pub mod Known
use coder_desktop_linux.Common.{
  ℕ, zero, suc, Bool, true, false, ◌||◌, Option, none, some, List, [], ◌∷◌, ◌++◌, set,
  if◌then◌else◌, String, str_eq,
}

module _ {A : Type 0} (key : A → String) where
  -- The first row of an identifier.
  unfoldable pub find_row : String → List A → Option A
  find_row id [] = none
  find_row id (x ∷ xs) = let later = find_row id xs in if str_eq (key x) id then some x else later

  -- Whether an identifier is among those of the rows.
  unfoldable pub has_id : String → List A → Bool
  has_id id [] = false
  has_id id (x ∷ xs) = str_eq (key x) id || has_id id xs

  -- The removal of the rows whose identifier is not in the new list.
  unfoldable pub keep_rows : List A → List A → List A
  unfolding has_id
  keep_rows new [] = []
  keep_rows new (x ∷ xs) =
      let later = keep_rows new xs in if has_id (key x) new then x ∷ later else later

  -- The map of the current positions: where an identifier stands twice, the last one counts.
  unfoldable pub position : String → List A → Option ℕ
  position id [] = none
  position id (x ∷ xs) = elim (position id xs) [
    | some i ↦ some (suc i)
    | none ↦ if str_eq (key x) id then some 0 else none
  ]

  -- The loop over the new list; `kept` gave the positions.
  unfoldable pub merge_rows : (kept rows new : List A) → List A
  unfolding position
  merge_rows kept rows [] = rows
  merge_rows kept rows (x ∷ xs) = elim (position (key x) kept) [
    | some i ↦ merge_rows kept (set rows i x) xs
    | none ↦ merge_rows kept (rows ++ x ∷ []) xs
  ]

  unfoldable pub set_rows : (old new : List A) → List A
  unfolding keep_rows merge_rows
  set_rows old new = let kept = keep_rows new old in merge_rows kept kept new

  -- `updateWorkspace` and `updateTask`: the first row of the identifier is replaced, or a row is appended.
  unfoldable pub update_row : A → List A → List A
  update_row x [] = x ∷ []
  update_row x (y ∷ ys) =
      let later = update_row x ys in if str_eq (key y) (key x) then x ∷ ys else y ∷ later

-- What is done to the rows; `clears` is `clear`.
pub data RowsChange (A : Type 0) : Type 0 where
  sets : List A → RowsChange A
  updates : A → RowsChange A
  clears : RowsChange A

module _ {A : Type 0} (key : A → String) where
  unfoldable pub rows_step : RowsChange A → List A → List A
  unfolding set_rows update_row
  rows_step (sets new) rows = set_rows key rows new
  rows_step (updates x) rows = update_row key x rows
  rows_step clears rows = []

  unfoldable pub rows_run : List (RowsChange A) → List A → List A
  unfolding rows_step
  rows_run [] rows = rows
  rows_run (c ∷ cs) rows = rows_run cs (rows_step c rows)
