-- ===== src/Scene.antt =====
-- What the handlers of coder-dlp-compositor/src read from wlroots and what they ask of it.
--
-- wlroots is not modelled. A handler is a function from the answers of wlroots to the list of its
-- calls, in order; `active` and `focused` say what a list of calls makes of the activation of a window
-- and of the keyboard's focus.
use coder_desktop_linux.Common.{
  ℤ, ℕ, ◌≡◌, refl, Bool, false, Option, some, List, [], ◌∷◌, ◌++◌, ◌==◌, if◌then◌else◌,
}

-- A window: an XDG toplevel or an Xwayland surface, by its id.
pub data Window : Type 0 where
  xdg xwayland : ℕ → Window

-- A `wlr_surface`, by what `wlr_xdg_toplevel_try_from_wlr_surface` and its Xwayland counterpart find.
pub data Surface : Type 0 where
  of_window : Window → Surface
  other : ℕ → Surface

-- `node.data` of a scene tree: the `coder_dlp_toplevel` or `coder_dlp_xwayland_surface`, told apart by
-- its first field. `attached` says whether the Xwayland surface has a `wlr_surface` now.
pub data Owner : Type 0 where
  toplevel : ℕ → Owner
  xsurface : (id : ℕ) (attached : Bool) → Owner

-- The listeners of the compositor, each with one link.
pub data Listener : Type 0 where
  client_created new_output new_input new_xdg_toplevel new_xdg_popup : Listener
  request_set_selection request_set_primary_selection security_context_commit : Listener
  xwayland_surface xwayland_ready : Listener
  cursor_motion cursor_motion_absolute cursor_button cursor_axis cursor_frame : Listener
  request_set_cursor : Listener
  output_frame output_request_state output_destroy : Listener
  keyboard_key keyboard_modifiers : Listener
  touch_down touch_up touch_motion touch_cancel touch_frame : Listener

pub data Call (F : Type 0) : Type 0 where
  set_activated : Window → Bool → Call F
  offer_focus : ℕ → Call F
  raise_to_top : Window → Call F
  keyboard_enter : Surface → Call F
  seat_set_keyboard : ℕ → Call F
  notify_key : (time key : ℕ) (pressed : Bool) → Call F
  notify_modifiers : ℕ → Call F
  set_keymap : ℕ → Call F
  set_repeat_info : ℕ → ℕ → ℕ → Call F
  pointer_enter : Surface → F → F → Call F
  pointer_motion : ℕ → F → F → Call F
  pointer_clear_focus default_cursor : Call F
  pointer_button : (time button : ℕ) (pressed : Bool) → Call F
  pointer_axis pointer_frame : Call F
  set_cursor_surface : ℕ → Call F
  cursor_move cursor_warp : F → F → Call F
  attach_device : ℕ → Call F
  touch_notify_down : Surface → (time id : ℕ) → F → F → Call F
  touch_notify_motion : (time id : ℕ) → F → F → Call F
  touch_notify_up : (time id : ℕ) → Call F
  touch_notify_cancel : ℕ → Call F
  touch_notify_frame : Call F
  listen : Listener → Call F
  scene_enable : Window → Bool → Call F
  set_position : Window → ℤ → ℤ → Call F
  configure : Window → ℤ → ℤ → ℕ → ℕ → Call F
  set_size : Window → ℕ → ℕ → Call F
  set_maximized set_fullscreen schedule_configure : Window → Call F

abbrev pub same_window : Window → Window → Bool
same_window (xdg m) (xdg n) = m == n
same_window (xwayland m) (xwayland n) = m == n
same_window _ _ = false

-- Whether a window is active after the calls.
abbrev pub active_effect : {F : Type 0} → Window → Call F → Bool → Bool
active_effect w (set_activated v b) before = if same_window v w then b else before
active_effect w _ before = before

unfoldable pub active : {F : Type 0} → Window → Bool → List (Call F) → Bool
active w before [] = before
active w before (c ∷ cs) = active w (active_effect w c before) cs

pub active-append :
    {F : Type 0} (w : Window) (before : Bool) (xs ys : List (Call F))
    → active w before (xs ++ ys) ≡ active w (active w before xs) ys
unfolding active
active-append w before [] ys = refl
active-append w before (c ∷ xs) ys = active-append w (active_effect w c before) xs ys

-- The surface with the keyboard's focus after the calls.
abbrev pub focus_effect : {F : Type 0} → Call F → Option Surface → Option Surface
focus_effect (keyboard_enter surface) before = some surface
focus_effect _ before = before

unfoldable pub focused : {F : Type 0} → Option Surface → List (Call F) → Option Surface
focused before [] = before
focused before (c ∷ cs) = focused (focus_effect c before) cs

pub focused-append :
    {F : Type 0} (before : Option Surface) (xs ys : List (Call F))
    → focused before (xs ++ ys) ≡ focused (focused before xs) ys
unfolding focused
focused-append before [] ys = refl
focused-append before (c ∷ xs) ys = focused-append (focus_effect c before) xs ys
