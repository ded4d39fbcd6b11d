-- ===== src/Desktop/Polling/Quiet.antt =====
-- When app/src/api/PollingController.cpp notifies, and when it does not.
use coder_desktop_linux.Common.{
  same_int_refl, ◌≡◌, refl, subst, ◌∙◌, inl, inr, Bool, none, some, List, [], ◌∷◌, arith, All,
  Bool-cases, String, str_eq, eq_iff, eq_refl,
}
use coder_desktop_linux.Desktop.Rows.{find_row, set_rows}
use coder_desktop_linux.Desktop.Rows.Merge.{set_rows_lem}
use coder_desktop_linux.Desktop.Rows.Found.{Absent, Distinct}
use coder_desktop_linux.Desktop.Polling.{
  WorkspaceInfo, Polling, last_row, workspace_id, workspace_changes, detect_workspace_changes,
  handle_workspaces_received,
}

module _ {A : Type 0} (key : A → String) where
  last_row-none : (id : String) (xs : List A) → Absent key id xs → last_row key id xs ≡ none
  unfolding last_row
  last_row-none id [] h = refl
  last_row-none id (x ∷ xs) h = rw (last_row-none id xs h.1, h.0, last_row) refl

  -- Where no identifier stands twice, the last row of one is the first.
  last_row-find_row :
      (id : String) (xs : List A) → Distinct key xs → last_row key id xs ≡ find_row key id xs
  unfolding last_row find_row
  last_row-find_row id [] d = refl
  last_row-find_row id (x ∷ xs) d = elim (Bool-cases (str_eq (key x) id)) [
    | inl here ↦
        let e : key x ≡ id = (eq_iff (key x) id).0 here in
        let rest = last_row-none id xs (subst (λ (k : String). Absent key k xs) e d.0) in
        ground arith
    | inr further ↦ ground (arith, last_row-find_row id xs d.1)
  ]

-- The rows that were received before, and all that come with the same identifiers are these.
abbrev Known : List WorkspaceInfo → List WorkspaceInfo → Type 0
Known rows new = All (λ (ws : WorkspaceInfo). last_row workspace_id ws.id rows ≡ some ws) new

nothing_new : (rows new : List WorkspaceInfo) → Known rows new → workspace_changes rows new ≡ []
unfolding workspace_changes
nothing_new rows [] k = refl
nothing_new rows (ws ∷ rest) k =
    rw (k.0, same_int_refl ws.status, workspace_changes) (nothing_new rows rest k.1)

abbrev Found : List WorkspaceInfo → List WorkspaceInfo → Type 0
Found rows new = All (λ (ws : WorkspaceInfo). find_row workspace_id ws.id rows ≡ some ws) new

Found-cons :
    (x : WorkspaceInfo) (rows new : List WorkspaceInfo)
    → Absent workspace_id x.id new
    → Found rows new
    → Found (x ∷ rows) new
unfolding find_row
Found-cons x rows [] d h = tt
Found-cons x rows (ws ∷ rest) d h =
    (ground (arith, eq_iff x.id ws.id, eq_iff ws.id x.id, h.0, d.0), Found-cons x rows rest d.1 h.1)

Distinct-Found : (rows : List WorkspaceInfo) → Distinct workspace_id rows → Found rows rows
unfolding find_row
Distinct-Found [] d = tt
Distinct-Found (x ∷ xs) d =
    (ground (arith, eq_refl x.id), Found-cons x xs xs d.0 (Distinct-Found xs d.1))

Found-Known :
    (rows whole new : List WorkspaceInfo)
    → ((id : String) → last_row workspace_id id rows ≡ find_row workspace_id id whole)
    → Found whole new
    → Known rows new
Found-Known rows whole [] same h = tt
Found-Known rows whole (ws ∷ rest) same h = (same ws.id ∙ h.0, Found-Known rows whole rest same h.1)

-- Where no identifier stands twice among the workspaces that are shown, and none among those that come:
-- once they came, the same list brings no notification when it comes again.
pub received_twice :
    (saved : Bool) (new : List WorkspaceInfo) (s : Polling)
    → Distinct workspace_id s.workspaces.rows
    → Distinct workspace_id new
    → (handle_workspaces_received saved new (handle_workspaces_received saved new s).0).1 ≡ []
unfolding handle_workspaces_received detect_workspace_changes
received_twice saved new s d d' =
    let rows = set_rows workspace_id s.workspaces.rows new in
    let same = λ (id : String).
      let l = set_rows_lem workspace_id id s.workspaces.rows new d d' in
      last_row-find_row workspace_id id rows l.1 ∙ l.0 in
    let quiet = nothing_new rows new (Found-Known rows new new same (Distinct-Found new d')) in
    ground (arith, quiet)
