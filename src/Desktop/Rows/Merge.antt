-- ===== src/Desktop/Rows/Merge.antt =====
-- What the rows of app/src/models/WorkspaceModel.cpp and app/src/models/TaskModel.cpp are after an update.
use coder_desktop_linux.Common.{
  ℕ, ◌≡◌, ◌≢◌, refl, subst, ◌⊎◌, inl, inr, false, none, some, List, [], ◌∷◌, ◌++◌, set,
  if◌then◌else◌, arith, All, Bool-cases, Option-cases, String, str_eq, eq_iff,
}
use coder_desktop_linux.Desktop.Rows.{find_row, has_id, keep_rows, position, merge_rows, set_rows}
use coder_desktop_linux.Desktop.Rows.Found.{
  Absent, Distinct, find-Absent, Absent-find, Distinct-keep, find-keep, At, position-At,
  position-none, Absent-set, Distinct-set, find-set, find-append, find-append_other, Absent-append,
  Distinct-append, At-append, At-set,
}

module _ {A : Type 0} (key : A → String) where
  -- A new row, and whether its identifier is one that was kept or is not among the rows.
  abbrev IsNew : List A → List A → A → Type 0
  IsNew kept rows x = (position key (key x) kept ≢ none) ⊎ Absent key (key x) rows

  -- The positions that were taken before the loop still hold, and the new rows that have none are not
  -- there yet.
  record IsReady (kept rows new : List A) : Type 0 where
    distinct : Distinct key rows
    aligned : (id : String) (i : ℕ) → position key id kept ≡ some i → At key rows i id
    absent : All (IsNew kept rows) new

  ready-set :
      (kept rows xs : List A) (i : ℕ) (x : A)
      → At key rows i (key x)
      → All (IsNew kept rows) xs
      → All (IsNew kept (set rows i x)) xs
  ready-set kept rows [] i x at h = tt
  ready-set kept rows (y ∷ ys) i x at (inl old, h) = (inl old, ready-set kept rows ys i x at h)
  ready-set kept rows (y ∷ ys) i x at (inr new, h) =
      (inr (Absent-set key (key y) rows i x at new), ready-set kept rows ys i x at h)

  ready-append :
      (kept rows xs : List A) (x : A)
      → Absent key (key x) xs
      → All (IsNew kept rows) xs
      → All (IsNew kept (rows ++ x ∷ [])) xs
  ready-append kept rows [] x d h = tt
  ready-append kept rows (y ∷ ys) x d (inl old, h) = (inl old, ready-append kept rows ys x d.1 h)
  ready-append kept rows (y ∷ ys) x d (inr new, h) = (
    inr (
        Absent-append key (key y) rows x new
          (ground (arith, eq_iff (key x) (key y), eq_iff (key y) (key x), d.0))),
    ready-append kept rows ys x d.1 h,
  )

  -- One row more: what is found after it, from what is found after the others.
  found_next :
      (id : String) (x : A) (xs rows rows' merged : List A)
      → Absent key (key x) xs
      → find_row key id rows' ≡ (if str_eq (key x) id then some x else find_row key id rows)
      → find_row key id merged
        ≡ (elim (find_row key id xs) [ some y ↦ some y | none ↦ find_row key id rows' ])
      → find_row key id merged
        ≡ (elim (find_row key id (x ∷ xs)) [ some y ↦ some y | none ↦ find_row key id rows ])
  unfolding find_row
  found_next id x xs rows rows' merged d next more = elim (Bool-cases (str_eq (key x) id)) [
    | inr other ↦ ground arith
    | inl mine ↦
        let e : key x ≡ id = (eq_iff (key x) id).0 mine in
        let none_later : find_row key id xs ≡ none =
          find-Absent key id xs (subst (λ (k : String). Absent key k xs) e d) in
        ground arith
  ]

  append_found :
      (id : String) (rows : List A) (x : A)
      → Absent key (key x) rows
      → find_row key id (rows ++ x ∷ [])
        ≡ (if str_eq (key x) id then some x else find_row key id rows)
  append_found id rows x h = elim (Bool-cases (str_eq (key x) id)) [
    | inr other ↦ rw (other) (find-append_other key id rows x other)
    | inl mine ↦
        let e : key x ≡ id = (eq_iff (key x) id).0 mine in
        let missing = find-Absent key id rows (subst (λ (k : String). Absent key k rows) e h) in
        ground (arith, find-append key id rows x missing)
  ]

  not_kept :
      (kept rows : List A) (x : A)
      → position key (key x) kept ≡ none
      → IsNew kept rows x
      → Absent key (key x) rows
  not_kept kept rows x e (inl old) = absurd (old e)
  not_kept kept rows x e (inr new) = new

  merge_lem :
      (id : String) (kept rows new : List A)
      → Distinct key new
      → IsReady kept rows new
      → (find_row key id (merge_rows key kept rows new)
          ≡ (elim (find_row key id new) [ some x ↦ some x | none ↦ find_row key id rows ]))
        × Distinct key (merge_rows key kept rows new)
  unfolding merge_rows find_row
  merge_lem id kept rows [] d h = (refl, h.distinct)
  merge_lem id kept rows (x ∷ xs) d h = elim (Option-cases (position key (key x) kept)) [
    | inr (i, there) ↦
        let at = h.aligned (key x) i there in
        let more = merge_lem id kept (set rows i x) xs d.1 (record {
          distinct = Distinct-set key rows i x at h.distinct;
          aligned = λ k j e. At-set key rows i j x k at (h.aligned k j e);
          absent = ready-set kept rows xs i x at h.absent.1;
        }) in
        rw (there, merge_rows)
          (
            found_next id x xs rows (set rows i x) _ d.0 (find-set key id rows i x at h.distinct)
                more.0,
            more.1,
          )
    | inl not_there ↦
        let absent : Absent key (key x) rows = not_kept kept rows x not_there h.absent.0 in
        let more = merge_lem id kept (rows ++ x ∷ []) xs d.1 (record {
          distinct = Distinct-append key rows x h.distinct absent;
          aligned = λ k j e. At-append key rows x j k (h.aligned k j e);
          absent = ready-append kept rows xs x d.0 h.absent.1;
        }) in
        rw (not_there, merge_rows)
          (
            found_next id x xs rows (rows ++ x ∷ []) _ d.0 (append_found id rows x absent) more.0,
            more.1,
          )
  ]

  ready_kept : (kept xs : List A) → All (IsNew kept kept) xs
  ready_kept kept [] = tt
  ready_kept kept (x ∷ xs) = (is_new, ready_kept kept xs)
    where
      is_new : IsNew kept kept x
      is_new = elim (Option-cases (position key (key x) kept)) [
        | inl missing ↦ inr (Absent-find key (key x) kept (position-none key (key x) kept missing))
        | inr (i, there) ↦ inl (λ e. cc)
      ]

  find-has_id : (id : String) (xs : List A) → find_row key id xs ≡ none → has_id key id xs ≡ false
  unfolding find_row has_id
  find-has_id id [] h = refl
  find-has_id id (x ∷ xs) h = ground (arith, find-has_id id xs)

  -- Where no identifier stands twice among the rows that are shown, and none among those that come: the
  -- rows that are shown after the update are, by their identifiers, exactly those that came, with what
  -- came for each; and no identifier stands twice.
  pub set_rows_lem :
      (id : String) (old new : List A)
      → Distinct key old
      → Distinct key new
      → (find_row key id (set_rows key old new) ≡ find_row key id new)
        × Distinct key (set_rows key old new)
  unfolding set_rows
  set_rows_lem id old new d d' =
      let kept = keep_rows key new old in
      let merged = merge_lem id kept kept new d' (record {
        distinct = Distinct-keep key new old d;
        aligned = λ k i e. position-At key k kept i e;
        absent = ready_kept kept new;
      }) in
      (ground (arith, merged.0, find-keep key id new old, find-has_id id new), merged.1)
