-- ===== src/Desktop/Rows/Known.antt =====
-- The rows of app/src/models as a map from identifiers, over any changes.
use coder_desktop_linux.Common.{
  ◌≡◌, refl, ap, fun_ext, ◌∙◌, inl, inr, false, Option, none, some, List, [], ◌∷◌, if◌then◌else◌,
  arith, All, Bool-cases, String, str_eq, eq_iff,
}
use coder_desktop_linux.Desktop.Rows.{
  find_row, update_row, RowsChange, sets, updates, clears, rows_step, rows_run,
}
use coder_desktop_linux.Desktop.Rows.Found.{Absent, Distinct}
use coder_desktop_linux.Desktop.Rows.Merge.{set_rows_lem}

module _ {A : Type 0} (key : A → String) where
  find-update_row :
      (id : String) (x : A) (rows : List A)
      → find_row key id (update_row key x rows)
        ≡ (if str_eq (key x) id then some x else find_row key id rows)
  unfolding find_row update_row
  find-update_row id x [] = refl
  find-update_row id x (y ∷ ys) =
      ground (
        arith,
        find-update_row id x ys,
        eq_iff (key y) id,
        eq_iff (key x) id,
        eq_iff (key y) (key x),
      )

  Absent-update_row :
      (id : String) (x : A) (rows : List A)
      → str_eq (key x) id ≡ false
      → Absent key id rows
      → Absent key id (update_row key x rows)
  unfolding update_row
  Absent-update_row id x [] other h = (other, tt)
  Absent-update_row id x (y ∷ ys) other h = elim (Bool-cases (str_eq (key y) (key x))) [
    | inl here ↦ rw (here, update_row) (other, h.1)
    | inr further ↦ rw (further, update_row) (h.0, Absent-update_row id x ys other h.1)
  ]

  Distinct-update_row :
      (x : A) (rows : List A) → Distinct key rows → Distinct key (update_row key x rows)
  unfolding update_row
  Distinct-update_row x [] d = (tt, tt)
  Distinct-update_row x (y ∷ ys) d = elim (Bool-cases (str_eq (key y) (key x))) [
    | inl here ↦
        let e : key y ≡ key x = (eq_iff (key y) (key x)).0 here in
        rw (here, update_row) (rw (← e) d.0, d.1)
    | inr further ↦
        let other : str_eq (key x) (key y) ≡ false =
          ground (arith, eq_iff (key y) (key x), eq_iff (key x) (key y)) in
        rw (further, update_row)
          (Absent-update_row (key y) x ys other d.0, Distinct-update_row x ys d.1)
  ]

  -- No list that is set has an identifier twice.
  abbrev pub IsListed : RowsChange A → Type 0
  IsListed (sets new) = Distinct key new
  IsListed _ = Unit {0}

  -- What is known under an identifier after a change, from what was before.
  abbrev pub known : RowsChange A → (String → Option A) → String → Option A
  known (sets new) before id = find_row key id new
  known (updates x) before id = if str_eq (key x) id then some x else before id
  known clears before id = none

  unfoldable pub known_after : List (RowsChange A) → (String → Option A) → String → Option A
  known_after [] before = before
  known_after (c ∷ cs) before = known_after cs (known c before)

  known_step :
      (id : String) (c : RowsChange A) (rows : List A)
      → IsListed c
      → Distinct key rows
      → (find_row key id (rows_step key c rows) ≡ known c (λ i. find_row key i rows) id)
        × Distinct key (rows_step key c rows)
  unfolding rows_step find_row
  known_step id (sets new) rows listed d = set_rows_lem key id rows new d listed
  known_step id (updates x) rows listed d =
      (find-update_row id x rows, Distinct-update_row x rows d)
  known_step id clears rows listed d = (refl, tt)

  -- Where no list that is set has an identifier twice: after any changes no identifier stands twice in
  -- the rows, and the row of an identifier is what came for it last, since the last list or clearing.
  pub rows_run_lem :
      (cs : List (RowsChange A)) (rows : List A)
      → All IsListed cs
      → Distinct key rows
      → ((λ id. find_row key id (rows_run key cs rows))
          ≡ known_after cs (λ id. find_row key id rows))
        × Distinct key (rows_run key cs rows)
  unfolding rows_run known_after
  rows_run_lem [] rows listed d = (refl, d)
  rows_run_lem (c ∷ cs) rows (listed, more) d =
      let distinct = (known_step "" c rows listed d).1 in
      let (e, distinct') = rows_run_lem cs (rows_step key c rows) more distinct in
      let same : (λ id. find_row key id (rows_step key c rows))
          ≡ known c (λ id. find_row key id rows) =
        fun_ext (λ id. (known_step id c rows listed d).0) in
      (e ∙ ap (known_after cs) same, distinct')
