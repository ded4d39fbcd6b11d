-- ===== src/Shell.antt =====
-- Toplevels and popups of XDG: `dlp_compositor_handle_new_xdg_toplevel`, `handle_toplevel_destroy`,
-- `dlp_compositor_handle_new_xdg_popup` and `handle_popup_destroy` of
-- coder-dlp-compositor/src/shell.c, and the toplevels that `coder_dlp_destroy` of compositor.c, there,
-- finds.
--
-- A surface is its number. What the other handlers of the file do is in Focus and in Surfaces.
pub mod History
pub mod Objects
pub mod Steps
pub mod Windows
use coder_desktop_linux.Common.{
  ℕ, Bool, true, false, ◌&&◌, Option, none, some, List, [], ◌∷◌, ◌==◌, if◌then◌else◌, ◌>>=◌,
}
use coder_desktop_linux.Links.{Link, loose, alone, joined, add_links, remove_links}

-- The listeners of `struct coder_dlp_toplevel`, and its link in the compositor's `toplevels`.
pub data ToplevelLink : Type 0 where
  map unmap commit destroy_toplevel request_move request_resize request_maximize : ToplevelLink
  request_fullscreen in_toplevels : ToplevelLink

abbrev pub toplevel_index : ToplevelLink → ℕ
toplevel_index map = 0
toplevel_index unmap = 1
toplevel_index commit = 2
toplevel_index destroy_toplevel = 3
toplevel_index request_move = 4
toplevel_index request_resize = 5
toplevel_index request_maximize = 6
toplevel_index request_fullscreen = 7
toplevel_index in_toplevels = 8

-- In the order of `wl_signal_add` and `wl_list_insert`, which is also that of `wl_list_remove`.
abbrev pub toplevel_links : List ToplevelLink
toplevel_links =
    map ∷ unmap ∷ commit ∷ destroy_toplevel ∷ request_move ∷ request_resize ∷ request_maximize
    ∷ request_fullscreen ∷ in_toplevels ∷ []

-- The listeners of `struct coder_dlp_popup`.
pub data PopupLink : Type 0 where
  popup_commit popup_destroy : PopupLink

abbrev pub popup_index : PopupLink → ℕ
popup_index popup_commit = 0
popup_index popup_destroy = 1

abbrev pub popup_links : List PopupLink
popup_links = popup_commit ∷ popup_destroy ∷ []

-- `struct coder_dlp_toplevel` or `struct coder_dlp_popup`: the surface and the links.
pub record Linked (L : Type 0) : Type 0 where
  pub surface : ℕ
  pub links : L → Link

-- A scene tree, by the tree that it hangs in and the surface that it shows.
pub data Tree : Type 0 where
  scene_root : Tree
  below : Tree → ℕ → Tree

-- `toplevels` of the compositor, the popups that are in memory, what `data` of the xdg_surface of each
-- surface points to, and the surfaces that `surface_cb` was told of, the last one first.
pub record Shell : Type 0 where
  pub toplevels : List (Linked ToplevelLink)
  pub popups : List (Linked PopupLink)
  pub tree_of : ℕ → Option Tree
  pub told : List ℕ

abbrev pub set_tree : ℕ → Option Tree → (ℕ → Option Tree) → ℕ → Option Tree
set_tree surface tree trees s = if surface == s then tree else trees s

-- `allocated` is the answer of `calloc`, `drawn` that of `wlr_scene_xdg_surface_create`; the handler
-- writes through the latter, `none` where it is null.
unfoldable pub handle_new_xdg_toplevel :
    (allocated drawn has_callback : Bool) → ℕ → Shell → Option Shell
handle_new_xdg_toplevel false drawn has_callback surface s = some s
handle_new_xdg_toplevel true false has_callback surface s = none
handle_new_xdg_toplevel true true has_callback surface s = do
  links ← add_links toplevel_index toplevel_links (λ l. loose)
  some (record {
    toplevels = record { surface = surface; links = links } ∷ s.toplevels;
    popups = s.popups;
    tree_of = set_tree surface (some (below scene_root surface)) s.tree_of;
    told = if has_callback then surface ∷ s.told else s.told;
  })

-- `parent` is the answer of `wlr_xdg_surface_try_from_wlr_surface`.
unfoldable pub handle_new_xdg_popup :
    (allocated drawn : Bool) → (parent : Option ℕ) → ℕ → Shell → Option Shell
handle_new_xdg_popup allocated drawn none surface s = some s
handle_new_xdg_popup allocated drawn (some parent) surface s = elim (s.tree_of parent) [
  | none ↦ some s
  | some tree ↦
      if allocated
      then (add_links popup_index popup_links (λ l. loose) >>= λ links. some (record s {
        popups = record { surface = surface; links = links } ∷ s.popups;
        tree_of = set_tree surface (if drawn then some (below tree surface) else none) s.tree_of;
      }))
      else some s
]

abbrev pub is_joined : Link → Bool
is_joined joined = true
is_joined _ = false

-- The destroy signal of a surface: each object on the surface that listens to it with `destroy` takes
-- out its links, in the order `all`, and is freed.
unfoldable pub emit_destroy :
    {L : Type 0}
    → (index : L → ℕ) → (listener : L) → (all : List L) → ℕ
    → List (Linked L)
    → Option (List (Linked L))
emit_destroy index listener all surface [] = some []
emit_destroy index listener all surface (o ∷ rest) = do
  rest' ← emit_destroy index listener all surface rest
  if o.surface == surface && is_joined (o.links listener)
      then (remove_links index all o.links >>= λ _. some rest')
      else some (o ∷ rest')

unfoldable pub handle_toplevel_destroy : ℕ → Shell → Option Shell
handle_toplevel_destroy surface s = do
  left ← emit_destroy toplevel_index destroy_toplevel toplevel_links surface s.toplevels
  some (record s { toplevels = left })

unfoldable pub handle_popup_destroy : ℕ → Shell → Option Shell
handle_popup_destroy surface s = do
  left ← emit_destroy popup_index popup_destroy popup_links surface s.popups
  some (record s { popups = left })

-- The loop of `coder_dlp_destroy` over the toplevels that are left, which are freed.
unfoldable pub free_toplevels : List (Linked ToplevelLink) → Option (List (Linked ToplevelLink))
free_toplevels [] = some []
free_toplevels (t ∷ ts) =
    remove_links toplevel_index toplevel_links t.links >>= λ _. free_toplevels ts

-- What clients do, with the answers to it.
pub data ShellEvent : Type 0 where
  toplevel_comes : (allocated drawn has_callback : Bool) → ℕ → ShellEvent
  popup_comes : (allocated drawn : Bool) → (parent : Option ℕ) → ℕ → ShellEvent
  toplevel_goes popup_goes : ℕ → ShellEvent

-- wlroots frees the surface, with its `data`, after the signal.
unfoldable pub forget : ℕ → Shell → Shell
forget surface s = record s { tree_of = set_tree surface none s.tree_of }

unfoldable pub shell_step : ShellEvent → Shell → Option Shell
shell_step (toplevel_comes allocated drawn has_callback surface) s =
    handle_new_xdg_toplevel allocated drawn has_callback surface s
shell_step (popup_comes allocated drawn parent surface) s =
    handle_new_xdg_popup allocated drawn parent surface s
shell_step (toplevel_goes surface) s = do
  after ← handle_toplevel_destroy surface s
  some (forget surface after)
shell_step (popup_goes surface) s = do
  after ← handle_popup_destroy surface s
  some (forget surface after)

unfoldable pub shell_run : List ShellEvent → Shell → Option Shell
shell_run [] s = some s
shell_run (e ∷ es) s = shell_step e s >>= shell_run es

abbrev pub no_windows : Shell
no_windows = record { toplevels = []; popups = []; tree_of = λ s. none; told = [] }
