-- ===== src/Input.antt =====
-- coder-dlp-compositor/src/input.c: keyboards, pointers and touch screens. The focus that a press
-- takes is in `Focus`.
pub mod Devices
pub mod Session
use coder_desktop_linux.Common.{
  ℕ, ◌≡◌, refl, Bool, true, false, ◌&&◌, ◌||◌, not, Option, none, some, List, [], ◌∷◌, ◌++◌, ◌==◌,
  if◌then◌else◌,
}
use coder_desktop_linux.Scene.{
  Surface, Listener, keyboard_key, keyboard_modifiers, touch_down, touch_up, touch_motion,
  touch_cancel, touch_frame, Call, seat_set_keyboard, notify_key, notify_modifiers, set_keymap,
  set_repeat_info, pointer_enter, pointer_motion, pointer_clear_focus, default_cursor, pointer_axis,
  pointer_frame, set_cursor_surface, cursor_move, cursor_warp, attach_device, touch_notify_down,
  touch_notify_motion, touch_notify_up, touch_notify_cancel, touch_notify_frame, listen,
}
use coder_desktop_linux.Focus.{Seat, Node, touch_focus_at}

-- `wlr_input_device` with its type.
pub data Device : Type 0 where
  keyboard pointer touch : ℕ → Device
  other_device : ℕ → Device

-- `seat->capabilities`, a flag for each bit.
pub record Capabilities : Type 0 where
  pub has_pointer : Bool
  pub has_keyboard : Bool
  pub has_touch : Bool

-- The fields of the compositor that this file reads and writes, and the capabilities of its seat.
pub record InputState : Type 0 where
  pub is_x11_backend : Bool
  pub keyboard_device : Option ℕ
  pub touch_device : Option ℕ
  pub capabilities : Capabilities

-- The three flags that are added to the capabilities of the seat.
unfoldable pub add_capability : Device → Capabilities → Capabilities
add_capability (keyboard k) caps = record caps { has_keyboard = true }
add_capability (pointer p) caps = record caps { has_pointer = true }
add_capability (touch t) caps = record caps { has_touch = true }
add_capability (other_device d) caps = caps

module _ {F : Type 0} where
  -- `handle_keyboard_key`, of the keyboard `k`; `logo` is the Super modifier.
  unfoldable pub handle_keyboard_key :
      Bool → Seat → (k : ℕ) → (logo : Bool) → (time key : ℕ) → (pressed : Bool) → List (Call F)
  handle_keyboard_key is_x11 seat k logo time key pressed =
      if is_x11 && logo
      then []
      else seat_set_keyboard k
        ∷ elim seat.focused_surface [ none ↦ [] | some surface ↦ notify_key time key pressed ∷ [] ]

  unfoldable pub handle_keyboard_modifiers : ℕ → List (Call F)
  handle_keyboard_modifiers k = seat_set_keyboard k ∷ notify_modifiers k ∷ []

  -- `setup_keyboard`: `context` and `keymap` say whether XKB gives them.
  unfoldable pub setup_keyboard :
      (context keymap : Bool) → ℕ → InputState → InputState × List (Call F)
  setup_keyboard context keymap k comp =
      if not context then (comp, []) else if not keymap then (comp, []) else (
        record comp { keyboard_device = some k },
        set_keymap k
            ∷ set_repeat_info k 25 600
            ∷ listen keyboard_key
            ∷ listen keyboard_modifiers
            ∷ seat_set_keyboard k
            ∷ [],
      )

  -- The surface of a node that is a buffer.
  unfoldable pub buffer_surface : Option (Node F) → Option (Surface × F × F)
  buffer_surface none = none
  buffer_surface (some node) =
      if node.is_buffer
      then elim node.surface [ none ↦ none | some surface ↦ some (surface, node.sx, node.sy) ]
      else none

  -- `process_cursor_motion`, with what lies under the cursor.
  unfoldable pub process_cursor_motion : Option (Node F) → ℕ → List (Call F)
  unfolding buffer_surface
  process_cursor_motion node time = elim (buffer_surface node) [
    | none ↦ default_cursor ∷ pointer_clear_focus ∷ []
    | some (surface, sx, sy) ↦ pointer_enter surface sx sy ∷ pointer_motion time sx sy ∷ []
  ]

  unfoldable pub handle_cursor_motion : F → F → Option (Node F) → ℕ → List (Call F)
  unfolding process_cursor_motion
  handle_cursor_motion dx dy node time = cursor_move dx dy ∷ process_cursor_motion node time

  unfoldable pub handle_cursor_motion_absolute : F → F → Option (Node F) → ℕ → List (Call F)
  unfolding process_cursor_motion
  handle_cursor_motion_absolute x y node time = cursor_warp x y ∷ process_cursor_motion node time

  unfoldable pub handle_cursor_axis : List (Call F)
  handle_cursor_axis = pointer_axis ∷ []

  unfoldable pub handle_cursor_frame : List (Call F)
  handle_cursor_frame = pointer_frame ∷ []

  -- `dlp_handle_request_set_cursor`: clients are compared by their address, null included.
  unfoldable pub handle_request_set_cursor : Option ℕ → Option ℕ → ℕ → List (Call F)
  handle_request_set_cursor focused client surface =
      if same_client focused client then set_cursor_surface surface ∷ [] else []
    where
      same_client : Option ℕ → Option ℕ → Bool
      same_client none none = true
      same_client none (some c) = false
      same_client (some f) none = false
      same_client (some f) (some c) = f == c

  unfoldable pub setup_pointer : ℕ → List (Call F)
  setup_pointer device = attach_device device ∷ []

  -- `touch_coords_to_layout`: `times` is the product with the width or the height of the output.
  unfoldable pub touch_coords_to_layout : (F → ℕ → F) → Option (ℕ × ℕ) → F → F → F × F
  touch_coords_to_layout times none x y = (x, y)
  touch_coords_to_layout times (some (width, height)) x y = (times x width, times y height)

  -- `dlp_handle_touch_down`: `node_at` is `wlr_scene_node_at`. The second look comes after the focus
  -- has changed and the window has been raised, so it may find another node.
  unfoldable pub handle_touch_down :
      (F → ℕ → F)
      → Option (ℕ × ℕ)
      → Seat
      → (node_at node_after : F → F → Option (Node F)) → (x y : F) → (time id : ℕ) → List (Call F)
  unfolding touch_coords_to_layout buffer_surface touch_focus_at
  handle_touch_down times output seat node_at node_after x y time id =
      let (lx, ly) = touch_coords_to_layout times output x y in
      touch_focus_at seat (node_at lx ly) ++ elim (buffer_surface (node_after lx ly)) [
        | none ↦ []
        | some (surface, sx, sy) ↦ touch_notify_down surface time id sx sy ∷ []
      ]

  unfoldable pub handle_touch_up : (time id : ℕ) → List (Call F)
  handle_touch_up time id = touch_notify_up time id ∷ []

  unfoldable pub handle_touch_motion :
      (F → ℕ → F)
      → Option (ℕ × ℕ)
      → (node_at : F → F → Option (Node F)) → (x y : F) → (time id : ℕ) → List (Call F)
  unfolding touch_coords_to_layout buffer_surface
  handle_touch_motion times output node_at x y time id =
      let (lx, ly) = touch_coords_to_layout times output x y in
      elim (buffer_surface (node_at lx ly)) [
        | none ↦ []
        | some (surface, sx, sy) ↦ touch_notify_motion time id sx sy ∷ []
      ]

  -- `dlp_handle_touch_cancel`: the clients of the touch points of the seat.
  unfoldable pub handle_touch_cancel : List (Option ℕ) → List (Call F)
  handle_touch_cancel [] = []
  handle_touch_cancel (none ∷ points) = handle_touch_cancel points
  handle_touch_cancel (some client ∷ points) =
      touch_notify_cancel client ∷ handle_touch_cancel points

  unfoldable pub handle_touch_frame : List (Call F)
  handle_touch_frame = touch_notify_frame ∷ []

  unfoldable pub setup_touch : ℕ → InputState → InputState × List (Call F)
  setup_touch device comp = (
    record comp { touch_device = some device },
    attach_device device
        ∷ listen touch_down
        ∷ listen touch_up
        ∷ listen touch_motion
        ∷ listen touch_cancel
        ∷ listen touch_frame
        ∷ [],
  )

  -- The `switch` of `dlp_compositor_handle_new_input`.
  unfoldable pub setup_device :
      (context keymap : Bool) → Device → InputState → InputState × List (Call F)
  unfolding setup_keyboard setup_pointer setup_touch
  setup_device context keymap (keyboard k) comp = setup_keyboard context keymap k comp
  setup_device context keymap (pointer p) comp = (comp, setup_pointer p)
  setup_device context keymap (touch t) comp = setup_touch t comp
  setup_device context keymap (other_device d) comp = (comp, [])

  -- `dlp_compositor_handle_new_input`.
  unfoldable pub handle_new_input :
      (context keymap : Bool) → Device → InputState → InputState × List (Call F)
  unfolding setup_device add_capability
  handle_new_input context keymap device comp =
      let (comp', calls) = setup_device context keymap device comp in
      (record comp' { capabilities = add_capability device comp'.capabilities }, calls)
