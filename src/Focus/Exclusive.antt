-- ===== src/Focus/Exclusive.antt =====
-- What the focus handlers of coder-dlp-compositor/src (input.c, xwayland.c, shell.c) make of the
-- activation of windows.
use coder_desktop_linux.Common.{
  ℕ, ◌≡◌, inl, inr, refl, ◌∙◌, ap, Bool, true, false, ◌&&◌, Option, none, some, ◌∷◌, ◌++◌,
  if◌then◌else◌, arith, Option-cases,
}
use coder_desktop_linux.Scene.{
  Window, xdg, xwayland, Surface, of_window, other, Owner, toplevel, xsurface, set_activated,
  offer_focus, pointer_button, same_window, active, active-append,
}
use coder_desktop_linux.Focus.{
  Seat, Node, enter, owner_above, deactivate, focus_owner, focus_node, handle_cursor_button,
  touch_focus_at, focus_xwayland_surface, handle_toplevel_map,
}

-- A window is active only if it has the focus.
abbrev pub OnlyFocused : (Window → Bool) → Option Surface → Type 0
OnlyFocused on focused = (w : Window) → on w ≡ true → focused ≡ some (of_window w)

abbrev pub window_of : Owner → Window
window_of (toplevel id) = xdg id
window_of (xsurface id attached) = xwayland id

same_window_refl : (w : Window) → same_window w w ≡ true
same_window_refl (xdg n) = ground arith
same_window_refl (xwayland n) = ground arith

pub same_window_eq : (v w : Window) → same_window v w ≡ true → v ≡ w
same_window_eq (xdg m) (xdg n) h = ground arith
same_window_eq (xdg m) (xwayland n) h = cc
same_window_eq (xwayland m) (xdg n) h = cc
same_window_eq (xwayland m) (xwayland n) h = ground arith

abbrev pub is_xwayland : Window → Bool
is_xwayland (xdg id) = false
is_xwayland (xwayland id) = true

module _ (F : Type 0) where
  -- After the deactivation of the focused window none is active.
  pub deactivate-inactive :
      (on : Window → Bool) (focused : Option Surface) (w : Window)
      → OnlyFocused on focused
      → active w (on w) (deactivate {F = F} focused) ≡ false
  unfolding active deactivate
  deactivate-inactive on none w only = ground (arith, only w)
  deactivate-inactive on (some (other id)) w only = ground (arith, only w)
  deactivate-inactive on (some (of_window v)) w only = ground (arith, only w, same_window_refl w)

  pub focus_owner-active :
      (seat : Seat) (owner : Owner) (w : Window)
      → active w false (focus_owner {F = F} seat owner) ≡ same_window (window_of owner) w
  unfolding active focus_owner
  focus_owner-active seat (toplevel id) w = ground arith
  focus_owner-active seat (xsurface id attached) w = ground arith

  pub focus_node-found :
      (seat : Seat) (node : Node F) (owner : Owner)
      → owner_above node.trees ≡ some owner
      → focus_node seat (some node) ≡ deactivate seat.focused_surface ++ focus_owner seat owner
  unfolding focus_node
  focus_node-found seat node owner found = rw (found, focus_node)

  pub focus-touch :
      (seat : Seat) (node : Option (Node F)) → focus_node seat node ≡ touch_focus_at seat node
  unfolding focus_node touch_focus_at
  focus-touch seat none = refl
  focus-touch seat (some node) = elim (Option-cases (owner_above node.trees)) [
    | inl nobody ↦ rw (nobody, focus_node, touch_focus_at)
    | inr (toplevel id, found) ↦ rw (found, focus_node, touch_focus_at)
    | inr (xsurface id attached, found) ↦ rw (found, focus_node, touch_focus_at)
  ]

  -- A press of a button over a window, where only the focused window can have been active: that
  -- window is active afterwards and no other is.
  pub button-Exclusive :
      (seat : Seat) (on : Window → Bool) (time button : ℕ) (node : Node F) (owner : Owner)
      (w : Window)
      → OnlyFocused on seat.focused_surface
      → owner_above node.trees ≡ some owner
      → active w (on w) (handle_cursor_button seat time button true (some node))
        ≡ same_window (window_of owner) w
  unfolding handle_cursor_button active
  button-Exclusive seat on time button node owner w only found =
      ap (active w (on w)) (focus_node-found seat node owner found)
      ∙ active-append w (on w) (deactivate seat.focused_surface) (focus_owner seat owner)
      ∙ rw (deactivate-inactive on seat.focused_surface w only) (focus_owner-active seat owner w)

  -- Touch takes the focus as the button does: the calls of a touch on a place are those of a press
  -- of a button there, but for the notice of the button.
  pub button-touch :
      (seat : Seat) (time button : ℕ) (node : Option (Node F))
      → handle_cursor_button seat time button true node
        ≡ pointer_button time button true ∷ touch_focus_at seat node
  unfolding handle_cursor_button
  button-touch seat time button node =
      ap (λ t. pointer_button time button true ∷ t) (focus-touch seat node)

  after_focus :
      (seat : Seat) (id : ℕ) (global : Bool) (w : Window)
      → active {F = F} w false (
          (if global then offer_focus id else set_activated (xwayland id) true)
          ∷ enter seat.has_keyboard (of_window (xwayland id)))
        ≡ (if global then false else same_window (xwayland id) w)
  unfolding active enter
  after_focus seat id global w = ground arith

  -- An Xwayland window with a surface takes the focus, where only the focused window can have been
  -- active: that window is active afterwards and no other is; none is where its input model is global,
  -- since it is then only offered the focus.
  pub xwayland-Exclusive :
      (seat : Seat) (on : Window → Bool) (id : ℕ) (global : Bool) (w : Window)
      → OnlyFocused on seat.focused_surface
      → active w (on w) (focus_xwayland_surface {F = F} seat id true global)
        ≡ (if global then false else same_window (xwayland id) w)
  unfolding focus_xwayland_surface active
  xwayland-Exclusive seat on id global w only =
      active-append w (on w) (deactivate seat.focused_surface) _
      ∙ rw (deactivate-inactive on seat.focused_surface w only) (after_focus seat id global w)

  -- A new XDG toplevel: it is active afterwards, and of the others only an Xwayland window that had
  -- the focus is still active, since that one is not deactivated.
  pub map-active :
      (seat : Seat) (on : Window → Bool) (id : ℕ) (w : Window)
      → OnlyFocused on seat.focused_surface
      → active w (on w) (handle_toplevel_map {F = F} seat id)
        ≡ (if same_window (xdg id) w then true else is_xwayland w && on w)
  unfolding handle_toplevel_map active
  map-active seat on id w only = ground (arith, only w, same_window_eq (xdg id) w)
