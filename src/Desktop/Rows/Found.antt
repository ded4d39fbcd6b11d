-- ===== src/Desktop/Rows/Found.antt =====
-- Lists of rows by their identifiers, for app/src/models: which row is found, and that none stands twice.
use coder_desktop_linux.Common.{
  ℕ, zero, suc, ◌≡◌, refl, sym, ap, ◌∙◌, inl, inr, false, none, some, List, [], ◌∷◌, ◌++◌, set,
  get_elem?, if◌then◌else◌, arith, All, All-append, Bool-cases, Option-cases, String, str_eq,
  eq_iff,
}
use coder_desktop_linux.Desktop.Rows.{find_row, has_id, keep_rows, position}

module _ {A : Type 0} (key : A → String) where
  -- No row has the identifier, and no two rows have one.
  abbrev pub Absent : String → List A → Type 0
  Absent id xs = All (λ (x : A). str_eq (key x) id ≡ false) xs

  abbrev pub Distinct : List A → Type 0
  Distinct [] = Unit
  Distinct (x ∷ xs) = Absent (key x) xs × Distinct xs

  pub find-Absent : (id : String) (xs : List A) → Absent id xs → find_row key id xs ≡ none
  unfolding find_row
  find-Absent id [] h = refl
  find-Absent id (x ∷ xs) h = ground (arith, find-Absent id xs h.1)

  pub Absent-find : (id : String) (xs : List A) → find_row key id xs ≡ none → Absent id xs
  unfolding find_row
  Absent-find id [] h = tt
  Absent-find id (x ∷ xs) h = elim (Bool-cases (str_eq (key x) id)) [
    | inl here ↦ absurd (ground arith)
    | inr further ↦ (further, Absent-find id xs (ground arith))
  ]

  Absent-keep : (id : String) (new xs : List A) → Absent id xs → Absent id (keep_rows key new xs)
  unfolding keep_rows
  Absent-keep id new [] h = tt
  Absent-keep id new (x ∷ xs) h = elim (Bool-cases (has_id key (key x) new)) [
    | inl stays ↦ rw (stays, keep_rows) (h.0, Absent-keep id new xs h.1)
    | inr goes ↦ rw (goes, keep_rows) (Absent-keep id new xs h.1)
  ]

  pub Distinct-keep : (new xs : List A) → Distinct xs → Distinct (keep_rows key new xs)
  unfolding keep_rows
  Distinct-keep new [] h = tt
  Distinct-keep new (x ∷ xs) h = elim (Bool-cases (has_id key (key x) new)) [
    | inl stays ↦ rw (stays, keep_rows) (Absent-keep (key x) new xs h.0, Distinct-keep new xs h.1)
    | inr goes ↦ rw (goes, keep_rows) (Distinct-keep new xs h.1)
  ]

  -- A row that is kept has its identifier in the new list.
  pub find-keep :
      (id : String) (new xs : List A)
      → has_id key id new ≡ false
      → find_row key id (keep_rows key new xs) ≡ none
  unfolding find_row keep_rows
  find-keep id new [] h = refl
  find-keep id new (x ∷ xs) h = elim (Bool-cases (has_id key (key x) new)) [
    | inr goes ↦ rw (goes, keep_rows) (find-keep id new xs h)
    | inl stays ↦ ground (arith, eq_iff (key x) id, find-keep id new xs h)
  ]

  -- The row at an index has this identifier.
  abbrev pub At : List A → ℕ → String → Type 0
  At rows i id = (x : A) × (get_elem? rows i ≡ some x) × (key x ≡ id)

  pub position-At : (id : String) (xs : List A) (i : ℕ) → position key id xs ≡ some i → At xs i id
  unfolding position
  position-At id [] i e = cc
  position-At id (x ∷ xs) i e = elim (Option-cases (position key id xs)) [
    | inl none_later ↦ elim (Bool-cases (str_eq (key x) id)) [
      | inl here ↦
          let zeroth : i ≡ 0 = ground arith in rw zeroth (x, refl, (eq_iff (key x) id).0 here)
      | inr not_here ↦ absurd (ground arith)
    ]
    | inr (j, later) ↦ let next : i ≡ suc j = ground arith in rw next (position-At id xs j later)
  ]

  pub position-none :
      (id : String) (xs : List A) → position key id xs ≡ none → find_row key id xs ≡ none
  unfolding position find_row
  position-none id [] e = refl
  position-none id (x ∷ xs) e = elim (Option-cases (position key id xs)) [
    | inl none_later ↦ ground (arith, position-none id xs none_later)
    | inr (j, later) ↦ absurd (ground arith)
  ]

  At-Absent : (k id : String) (xs : List A) (i : ℕ) → Absent k xs → At xs i id → str_eq id k ≡ false
  At-Absent k id [] i h (z, e, same) = cc
  At-Absent k id (x ∷ xs) zero h (z, e, same) = let first : x ≡ z = cc in rw (← same, ← first) h.0
  At-Absent k id (x ∷ xs) (suc i) h at = At-Absent k id xs i h.1 at

  -- A row put in the place of one with its identifier.
  pub Absent-set :
      (id : String) (rows : List A) (i : ℕ) (x : A)
      → At rows i (key x)
      → Absent id rows
      → Absent id (set rows i x)
  Absent-set id [] i x at h = h
  Absent-set id (y ∷ ys) zero x (z, e, same) h =
      let first : key y ≡ key x = ap key (the_same y z e) ∙ same in (rw (← first) h.0, h.1)
    where
      the_same : (a b : A) → some a ≡ some b → a ≡ b
      the_same a b q = cc
  Absent-set id (y ∷ ys) (suc i) x at h = (h.0, Absent-set id ys i x at h.1)

  pub Distinct-set :
      (rows : List A) (i : ℕ) (x : A) → At rows i (key x) → Distinct rows → Distinct (set rows i x)
  Distinct-set [] i x at d = d
  Distinct-set (y ∷ ys) zero x (z, e, same) d =
      let first : key y ≡ key x = ap key (the_same y z e) ∙ same in (rw (← first) d.0, d.1)
    where
      the_same : (a b : A) → some a ≡ some b → a ≡ b
      the_same a b q = cc
  Distinct-set (y ∷ ys) (suc i) x at d =
      (Absent-set (key y) ys i x at d.0, Distinct-set ys i x at d.1)

  pub find-set :
      (id : String) (rows : List A) (i : ℕ) (x : A)
      → At rows i (key x)
      → Distinct rows
      → find_row key id (set rows i x)
        ≡ (if str_eq (key x) id then some x else find_row key id rows)
  unfolding find_row
  find-set id [] i x (z, e, same) d = cc
  find-set id (y ∷ ys) zero x (z, e, same) d =
      let first : y ≡ z = cc in
      let first' : key y ≡ key x = ap key first ∙ same in ground (arith, first')
  find-set id (y ∷ ys) (suc i) x at d =
      let other : str_eq (key x) (key y) ≡ false = At-Absent (key y) (key x) ys i d.0 at in
      let more = find-set id ys i x at d.1 in
      ground (arith, more, eq_iff (key y) id, eq_iff (key x) id, eq_iff (key x) (key y))

  pub find-append :
      (id : String) (rows : List A) (x : A)
      → find_row key id rows ≡ none
      → find_row key id (rows ++ x ∷ []) ≡ (if str_eq (key x) id then some x else none)
  unfolding find_row
  find-append id [] x h = refl
  find-append id (y ∷ ys) x h = ground (arith, find-append id ys x)

  pub find-append_other :
      (id : String) (rows : List A) (x : A)
      → str_eq (key x) id ≡ false
      → find_row key id (rows ++ x ∷ []) ≡ find_row key id rows
  unfolding find_row
  find-append_other id [] x h = ground arith
  find-append_other id (y ∷ ys) x h = ground (arith, find-append_other id ys x h)

  pub Absent-append :
      (id : String) (rows : List A) (x : A)
      → Absent id rows
      → str_eq (key x) id ≡ false
      → Absent id (rows ++ x ∷ [])
  Absent-append id rows x h p =
      All-append (λ (y : A). str_eq (key y) id ≡ false) rows (x ∷ []) h (p, tt)

  pub Distinct-append :
      (rows : List A) (x : A) → Distinct rows → Absent (key x) rows → Distinct (rows ++ x ∷ [])
  Distinct-append [] x d h = (tt, tt)
  Distinct-append (y ∷ ys) x d h = (
    Absent-append (key y) ys x d.0
        (ground (arith, eq_iff (key x) (key y), eq_iff (key y) (key x), h.0)),
    Distinct-append ys x d.1 h.1,
  )

  pub At-append :
      (rows : List A) (x : A) (i : ℕ) (id : String) → At rows i id → At (rows ++ x ∷ []) i id
  At-append [] x i id (z, e, same) = cc
  At-append (y ∷ ys) x zero id at = at
  At-append (y ∷ ys) x (suc i) id at = At-append ys x i id at

  -- The identifiers of the rows stay when a row is put in the place of one with its identifier.
  pub At-set :
      (rows : List A) (i j : ℕ) (x : A) (id : String)
      → At rows i (key x)
      → At rows j id
      → At (set rows i x) j id
  At-set [] i j x id at at' = at'
  At-set (y ∷ ys) zero zero x id (z, e, same) (z', e', same') =
      let both : z ≡ z' = cc in (x, refl, sym same ∙ ap key both ∙ same')
  At-set (y ∷ ys) zero (suc j) x id at at' = at'
  At-set (y ∷ ys) (suc i) zero x id at at' = at'
  At-set (y ∷ ys) (suc i) (suc j) x id at at' = At-set ys i j x id at at'
