-- ===== src/Links.antt =====
-- The links of the listeners of one object in coder-dlp-compositor/src (xwayland.c and shell.c).
--
-- `none` is a link that is added while it is in a list, or removed while it is in none: both corrupt
-- memory.
use coder_desktop_linux.Common.{ℕ, Option, none, some, List, [], ◌∷◌, ◌==◌, if◌then◌else◌, ◌>>=◌}

-- A link that is in no list (zero or removed), one that `wl_list_init` makes a list of its own, or one
-- in the list of a signal.
pub data Link : Type 0 where
  loose alone joined : Link

-- A link for each listener of the kind `L`; the listeners are told apart by a number.
module _ {L : Type 0} (index : L → ℕ) where
  abbrev pub put : L → Link → (L → Link) → L → Link
  put l link links m = if index l == index m then link else links m

  -- `wl_list_init`, `wl_signal_add` or `wl_list_insert`, and `wl_list_remove`.
  unfoldable pub init_link : L → (L → Link) → L → Link
  init_link l links = put l alone links

  unfoldable pub add_link : L → (L → Link) → Option (L → Link)
  add_link l links = elim (links l) [
    | loose ↦ some (put l joined links)
    | alone ↦ some (put l joined links)
    | joined ↦ none
  ]

  unfoldable pub remove_link : L → (L → Link) → Option (L → Link)
  remove_link l links = elim (links l) [
    | loose ↦ none
    | alone ↦ some (put l loose links)
    | joined ↦ some (put l loose links)
  ]

  unfoldable pub add_links : List L → (L → Link) → Option (L → Link)
  add_links [] links = some links
  add_links (l ∷ ls) links = add_link l links >>= add_links ls

  unfoldable pub remove_links : List L → (L → Link) → Option (L → Link)
  remove_links [] links = some links
  remove_links (l ∷ ls) links = remove_link l links >>= remove_links ls
