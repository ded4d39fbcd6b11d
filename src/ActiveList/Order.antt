-- ===== src/ActiveList/Order.antt =====
-- The order of the list of live compositors (coder-dlp-compositor/src/compositor.c), which decides what
-- `custom_wlr_log` finds first: a removal moves the last entry into the gap.
use coder_desktop_linux.Common.{
  ℕ, ◌≡◌, refl, sym, ap, ◌∙◌, List, [], ◌∷◌, ◌++◌, ◌==◌, arith, Bool-cases, inl, inr,
}
use coder_desktop_linux.ActiveList.{last_of, before_last, move_last, remove_first}

last_of-append : (x c : ℕ) (xs : List ℕ) → last_of x (xs ++ c ∷ []) ≡ c
unfolding last_of
last_of-append x c [] = refl
last_of-append x c (y ∷ ys) = last_of-append y c ys

before_last-append : (x c : ℕ) (xs : List ℕ) → before_last x (xs ++ c ∷ []) ≡ x ∷ xs
unfolding before_last
before_last-append x c [] = refl
before_last-append x c (y ∷ ys) = ap (λ zs. x ∷ zs) (before_last-append y c ys)

move_last-append : (c : ℕ) (xs : List ℕ) → move_last (xs ++ c ∷ []) ≡ c ∷ xs
unfolding move_last
move_last-append c [] = refl
move_last-append c (x ∷ xs) = rw (last_of-append x c xs, before_last-append x c xs) refl

-- A compositor that was added last is removed without a trace in the order, also where its address
-- stands in the list before.
pub remove_first-append : (c : ℕ) (xs : List ℕ) → remove_first c (xs ++ c ∷ []) ≡ xs
unfolding remove_first move_last
remove_first-append c [] = ground arith
remove_first-append c (x ∷ xs) = elim (Bool-cases (x == c)) [
  | inl same ↦
      let is : x ≡ c = ground arith in
      rw (same, remove_first) (move_last-append c xs ∙ ap (λ y. y ∷ xs) (sym is))
  | inr other ↦ rw (other, remove_first) (ap (λ ys. x ∷ ys) (remove_first-append c xs))
]
