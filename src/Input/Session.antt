-- ===== src/Input/Session.antt =====
-- A session of input events, handled one after the other as coder-dlp-compositor/src/input.c does: at
-- every point which windows are active, and which surface has the keyboard's focus.
pub mod Passive
pub mod Invariant
use coder_desktop_linux.Common.{
  ℕ, ◌≡◌, ◌≢◌, ◌⊎◌, inl, inr, refl, sym, ◌∙◌, ap, subst, Bool, true, false, ◌&&◌, Option, none,
  some, List, [], ◌∷◌, ◌++◌, ◌==◌, if◌then◌else◌, arith, Bool-cases, Option-cases,
}
use coder_desktop_linux.Scene.{
  Window, xdg, xwayland, Surface, of_window, other, Owner, toplevel, xsurface, Call, set_activated,
  offer_focus, raise_to_top, keyboard_enter, pointer_button, same_window, active, active-append,
  focused, focused-append,
}
use coder_desktop_linux.Focus.{
  Seat, Node, enter, owner_above, deactivate, focus_owner, focus_node, handle_cursor_button,
  touch_focus_at,
}
use coder_desktop_linux.Focus.Exclusive.{
  OnlyFocused, window_of, same_window_eq, deactivate-inactive, focus_owner-active, focus_node-found,
  focus-touch, button-touch,
}
use coder_desktop_linux.Input.{
  handle_keyboard_key, handle_keyboard_modifiers, buffer_surface, process_cursor_motion,
  handle_cursor_motion, handle_cursor_motion_absolute, handle_cursor_axis, handle_cursor_frame,
  handle_request_set_cursor, touch_coords_to_layout, handle_touch_down, handle_touch_up,
  handle_touch_motion, handle_touch_cancel, handle_touch_frame,
}

module _ {F : Type 0} (times : F → ℕ → F) where
  -- An event with what its handler reads.
  pub data Event : Type 0 where
    key : (is_x11 : Bool) (k : ℕ) (logo : Bool) (time code : ℕ) (pressed : Bool) → Event
    modifiers : (k : ℕ) → Event
    motion : (dx dy : F) (node : Option (Node F)) (time : ℕ) → Event
    motion_absolute : (x y : F) (node : Option (Node F)) (time : ℕ) → Event
    button : (time code : ℕ) (pressed : Bool) (node : Option (Node F)) → Event
    axis frame : Event
    request_set_cursor : (focus client : Option ℕ) (surface : ℕ) → Event
    down :
        (output : Option (ℕ × ℕ)) (node_at node_after : F → F → Option (Node F)) (x y : F)
        (time id : ℕ)
        → Event
    up : (time id : ℕ) → Event
    touch_move :
        (output : Option (ℕ × ℕ)) (node_at : F → F → Option (Node F)) (x y : F) (time id : ℕ)
        → Event
    cancel : (points : List (Option ℕ)) → Event
    touch_frame : Event

  -- The handler of an event.
  unfoldable pub handle : Seat → Event → List (Call F)
  unfolding handle_keyboard_key handle_keyboard_modifiers handle_cursor_motion
      handle_cursor_motion_absolute handle_cursor_button handle_cursor_axis handle_cursor_frame
      handle_request_set_cursor handle_touch_down handle_touch_up handle_touch_motion
      handle_touch_cancel handle_touch_frame
  handle seat (key is_x11 k logo time code pressed) =
      handle_keyboard_key is_x11 seat k logo time code pressed
  handle seat (modifiers k) = handle_keyboard_modifiers k
  handle seat (motion dx dy node time) = handle_cursor_motion dx dy node time
  handle seat (motion_absolute x y node time) = handle_cursor_motion_absolute x y node time
  handle seat (button time code pressed node) = handle_cursor_button seat time code pressed node
  handle seat axis = handle_cursor_axis
  handle seat frame = handle_cursor_frame
  handle seat (request_set_cursor focus client surface) =
      handle_request_set_cursor focus client surface
  handle seat (down output node_at node_after x y time id) =
      handle_touch_down times output seat node_at node_after x y time id
  handle seat (up time id) = handle_touch_up time id
  handle seat (touch_move output node_at x y time id) =
      handle_touch_motion times output node_at x y time id
  handle seat (cancel points) = handle_touch_cancel points
  handle seat touch_frame = handle_touch_frame

  -- Whether the seat has a keyboard, which windows are active, and the surface with the keyboard's focus.
  pub record Activation : Type 0 where
    pub has_keyboard : Bool
    pub on : Window → Bool
    pub focus : Option Surface

  -- One event. The devices of the seat stay the same.
  unfoldable pub after : Activation → Event → Activation
  unfolding handle active focused
  after s e =
      let calls = handle (record { focused_surface = s.focus; has_keyboard = s.has_keyboard }) e in
      record {
        has_keyboard = s.has_keyboard;
        on = λ w. active w (s.on w) calls;
        focus = focused s.focus calls;
      }

  unfoldable pub session : Activation → List Event → Activation
  session s [] = s
  session s (e ∷ es) = session (after s e) es

  -- Every Xwayland window under a press has a surface.
  abbrev pub AttachedOwner : Option Owner → Type 0
  AttachedOwner none = Unit
  AttachedOwner (some (toplevel id)) = Unit
  AttachedOwner (some (xsurface id attached)) = attached ≡ true

  unfoldable pub AttachedNode : Option (Node F) → Type 0
  unfolding owner_above
  AttachedNode none = Unit
  AttachedNode (some node) = AttachedOwner (owner_above node.trees)

  unfoldable pub Attached : Event → Type 0
  unfolding touch_coords_to_layout AttachedNode
  Attached (button time code pressed node) = AttachedNode node
  Attached (down output node_at node_after x y time id) =
      let (lx, ly) = touch_coords_to_layout times output x y in AttachedNode (node_at lx ly)
  Attached _ = Unit

  -- The seat of the events of a session.
  abbrev pub seat_of : Activation → Seat
  seat_of s = record { focused_surface = s.focus; has_keyboard = s.has_keyboard }
