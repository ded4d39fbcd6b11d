-- ===== src/Surfaces.antt =====
-- The sizes of windows: the handlers of coder-dlp-compositor/src/xwayland.c for the surfaces of X11
-- applications, and those of shell.c, there, for XDG toplevels and popups.
pub mod Fill
use coder_desktop_linux.Common.{
  ℕ, ℤ, pos, Bool, true, false, Option, none, some, List, [], ◌∷◌, ◌++◌, if◌then◌else◌,
}
use coder_desktop_linux.Scene.{
  Window, xdg, xwayland, Call, raise_to_top, scene_enable, set_position, configure, set_size,
  set_maximized, set_fullscreen, schedule_configure,
}
use coder_desktop_linux.Focus.{Seat, focus_xwayland_surface}

-- `wlr_xwayland_surface`, as the handlers read it: `attached` says whether it has a `wlr_surface`,
-- `wants_focus` and `global` are the answers of the input model.
pub record XwaylandSurface : Type 0 where
  pub id : ℕ
  pub override_redirect : Bool
  pub attached : Bool
  pub wants_focus : Bool
  pub global : Bool
  pub x : ℤ
  pub y : ℤ

module _ {F : Type 0} where
  -- A window that fills the output, where there is one; `and_then` tells the window about it.
  unfoldable pub fill : Option (ℕ × ℕ) → Window → Call F → List (Call F)
  fill none w and_then = []
  fill (some (width, height)) w and_then = configure w (pos 0) (pos 0) width height ∷ and_then ∷ []

  unfoldable pub focus_xsurface : Seat → XwaylandSurface → List (Call F)
  focus_xsurface seat xs = focus_xwayland_surface seat xs.id xs.attached xs.global

  unfoldable pub handle_xwayland_surface_map :
      Seat → Option (ℕ × ℕ) → XwaylandSurface → List (Call F)
  handle_xwayland_surface_map seat output xs =
      scene_enable (xwayland xs.id) true
      ∷ (if xs.override_redirect
          then set_position (xwayland xs.id) xs.x xs.y
            ∷ raise_to_top (xwayland xs.id)
            ∷ (if xs.wants_focus then focus_xsurface seat xs else [])
          else fill output (xwayland xs.id) (set_maximized (xwayland xs.id))
            ++ focus_xsurface seat xs)

  unfoldable pub handle_xwayland_surface_unmap : XwaylandSurface → List (Call F)
  handle_xwayland_surface_unmap xs = scene_enable (xwayland xs.id) false ∷ []

  unfoldable pub handle_xwayland_request_configure :
      Option (ℕ × ℕ) → XwaylandSurface → (x y : ℤ) → (width height : ℕ) → List (Call F)
  handle_xwayland_request_configure output xs x y width height =
      if xs.override_redirect
      then configure (xwayland xs.id) x y width height ∷ set_position (xwayland xs.id) x y ∷ []
      else elim output [
        | none ↦ configure (xwayland xs.id) x y width height ∷ []
        | some (w, h) ↦ configure (xwayland xs.id) (pos 0) (pos 0) w h ∷ []
      ]

  unfoldable pub handle_xwayland_request_maximize : Option (ℕ × ℕ) → XwaylandSurface → List (Call F)
  handle_xwayland_request_maximize output xs =
      fill output (xwayland xs.id) (set_maximized (xwayland xs.id))

  unfoldable pub handle_xwayland_request_fullscreen :
      Option (ℕ × ℕ) → XwaylandSurface → List (Call F)
  handle_xwayland_request_fullscreen output xs =
      fill output (xwayland xs.id) (set_fullscreen (xwayland xs.id))

  unfoldable pub handle_xwayland_request_activate : Seat → XwaylandSurface → List (Call F)
  handle_xwayland_request_activate seat xs = focus_xsurface seat xs

  -- `handle_toplevel_commit`.
  unfoldable pub handle_toplevel_commit :
      (initial_commit : Bool) → Option (ℕ × ℕ) → ℕ → List (Call F)
  handle_toplevel_commit initial_commit output id =
      if initial_commit
      then elim output [
        | none ↦ set_size (xdg id) 0 0 ∷ []
        | some (width, height) ↦ set_size (xdg id) width height ∷ set_maximized (xdg id) ∷ []
      ]
      else []

  -- `handle_toplevel_request_maximize` and `handle_toplevel_request_fullscreen`.
  unfoldable pub handle_toplevel_request_maximize : (initialized : Bool) → ℕ → List (Call F)
  handle_toplevel_request_maximize initialized id =
      if initialized then schedule_configure (xdg id) ∷ [] else []

  unfoldable pub handle_toplevel_request_fullscreen : (initialized : Bool) → ℕ → List (Call F)
  handle_toplevel_request_fullscreen initialized id =
      if initialized then schedule_configure (xdg id) ∷ [] else []

  -- `handle_popup_commit`, of the popup `id`.
  unfoldable pub handle_popup_commit : (initial_commit : Bool) → ℕ → List (Call F)
  handle_popup_commit initial_commit id =
      if initial_commit then schedule_configure (xdg id) ∷ [] else []
