-- ===== src/ActiveList.antt =====
-- The list of live compositors that coder-dlp-compositor/src/compositor.c keeps for its log callback:
-- `compositor_list_add`, `compositor_list_remove` and the loop of `custom_wlr_log`.
--
-- A compositor is its address.
pub mod Count
pub mod Order
use coder_desktop_linux.Common.{
  ℕ, ◌*◌, Bool, true, false, Option, none, some, List, [], ◌∷◌, ◌++◌, ◌==◌, leb, length,
  if◌then◌else◌,
}

-- `s_active_compositors`: the first `count` entries, and the capacity.
pub record ActiveList : Type 0 where
  pub entries : List ℕ
  pub capacity : ℕ

-- `granted` says whether the `realloc` of a full array succeeds.
unfoldable pub compositor_list_add : Bool → ℕ → ActiveList → Bool × ActiveList
compositor_list_add granted comp l =
    if leb l.capacity (length l.entries)
    then if granted
      then (
        true,
        record {
          entries = l.entries ++ comp ∷ [];
          capacity = if l.capacity == 0 then 4 else l.capacity * 2;
        },
      )
      else (false, l)
    else (true, record l { entries = l.entries ++ comp ∷ [] })

-- The last of `x ∷ xs`, and what stands before it.
unfoldable pub last_of : ℕ → List ℕ → ℕ
last_of x [] = x
last_of x (y ∷ ys) = last_of y ys

unfoldable pub before_last : ℕ → List ℕ → List ℕ
before_last x [] = []
before_last x (y ∷ ys) = x ∷ before_last y ys

-- `entries[i] = entries[--count]`, for the entries after the i-th.
unfoldable pub move_last : List ℕ → List ℕ
unfolding last_of before_last
move_last [] = []
move_last (x ∷ xs) = last_of x xs ∷ before_last x xs

-- The loop, from an entry on.
unfoldable pub remove_first : ℕ → List ℕ → List ℕ
unfolding move_last
remove_first comp [] = []
remove_first comp (e ∷ rest) =
    let after = remove_first comp rest in if e == comp then move_last rest else e ∷ after

unfoldable pub compositor_list_remove : ℕ → ActiveList → ActiveList
unfolding remove_first
compositor_list_remove comp l = record l { entries = remove_first comp l.entries }

-- Which compositor gets a message: `has_callback` is `c && c->log_cb`; `none` is the message on stderr.
unfoldable pub log_receiver : (ℕ → Bool) → List ℕ → Option ℕ
log_receiver has_callback [] = none
log_receiver has_callback (c ∷ rest) =
    let later = log_receiver has_callback rest in if has_callback c then some c else later
