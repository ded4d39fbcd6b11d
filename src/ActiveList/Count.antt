-- ===== src/ActiveList/Count.antt =====
-- The list of live compositors (coder-dlp-compositor/src/compositor.c) as a bag: how often each
-- compositor stands in it.
use coder_desktop_linux.Common.{
  ℕ, ◌+◌, ◌-◌, ◌≤◌, ◌≡◌, refl, Bool, true, false, ◌&&◌, ◌||◌, not, none, some, List, [], ◌∷◌, ◌++◌,
  ◌==◌, leb, length, if◌then◌else◌, arith, length-append, ◌⊎◌, inl, inr, Bool-cases,
}
use coder_desktop_linux.ActiveList.{
  ActiveList, compositor_list_add, last_of, before_last, move_last, remove_first,
  compositor_list_remove, log_receiver,
}

-- How often a compositor stands in a list.
unfoldable pub count : ℕ → List ℕ → ℕ
count c [] = 0
count c (x ∷ xs) = (if x == c then 1 else 0) + count c xs

pub count-append : (c : ℕ) (xs ys : List ℕ) → count c (xs ++ ys) ≡ count c xs + count c ys
unfolding count
count-append c [] ys = omega arith
count-append c (x ∷ xs) ys = omega (arith, count-append c xs ys)

count-before_last :
    (c x : ℕ) (xs : List ℕ)
    → (if last_of x xs == c then 1 else 0) + count c (before_last x xs)
      ≡ (if x == c then 1 else 0) + count c xs
unfolding count last_of before_last
count-before_last c x [] = refl
count-before_last c x (y ∷ ys) = omega (arith, count-before_last c y ys)

count-move_last : (c : ℕ) (xs : List ℕ) → count c (move_last xs) ≡ count c xs
unfolding count move_last
count-move_last c [] = refl
count-move_last c (x ∷ xs) = count-before_last c x xs

pub count-remove_first :
    (c comp : ℕ) (xs : List ℕ)
    → count c (remove_first comp xs) ≡ (if comp == c then count c xs - 1 else count c xs)
unfolding count remove_first
count-remove_first c comp [] = ground arith
count-remove_first c comp (x ∷ xs) =
    ground (arith, count-remove_first c comp xs, count-move_last c xs)

-- A removal takes one entry of the compositor out, where there is one, and every other compositor stays
-- in the list as often as it was.
pub compositor_list_remove-count :
    (c comp : ℕ) (l : ActiveList)
    → count c (compositor_list_remove comp l).entries
      ≡ (if comp == c then count c l.entries - 1 else count c l.entries)
unfolding compositor_list_remove
compositor_list_remove-count c comp l = count-remove_first c comp l.entries

-- An addition that succeeds adds one entry, which fits the array, and one that fails leaves the list as
-- it was; a list that is not full does not fail.
pub compositor_list_add-count :
    (granted : Bool) (c comp : ℕ) (l : ActiveList)
    → length l.entries ≤ l.capacity
    → let (added, l') = compositor_list_add granted comp l in
      (added ≡ granted || not (leb l.capacity (length l.entries)))
      × (count c l'.entries ≡ count c l.entries + (if added && (comp == c) then 1 else 0))
      × (length l'.entries ≤ l'.capacity)
unfolding compositor_list_add count
compositor_list_add-count granted c comp l fits =
    ground (arith, count-append c l.entries (comp ∷ []), length-append l.entries (comp ∷ []))

-- A message goes to a compositor in the list that has a callback, and to none only where no compositor
-- in the list has one.
pub log_receiver_lem :
    (has_callback : ℕ → Bool) (c : ℕ) (xs : List ℕ)
    → ((log_receiver has_callback xs ≡ none) × (has_callback c && leb 1 (count c xs) ≡ false))
      ⊎ ((r : ℕ) × (log_receiver has_callback xs ≡ some r)
          × (has_callback r ≡ true)
          × (1 ≤ count r xs))
unfolding log_receiver count
log_receiver_lem has_callback c [] = inl (refl, ground arith)
log_receiver_lem has_callback c (x ∷ xs) = elim (Bool-cases (has_callback x)) [
  | inl has ↦ inr (x, rw (has, log_receiver), has, ground arith)
  | inr without ↦ elim (log_receiver_lem has_callback c xs) [
    | inl (nobody, free) ↦ inl (rw (without, log_receiver) nobody, ground arith)
    | inr (r, found, has, stands) ↦ inr (r, rw (without, log_receiver) found, has, omega arith)
  ]
]
