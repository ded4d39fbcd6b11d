-- ===== src/Wiring.antt =====
-- The links of the listeners in coder-dlp-compositor/src: `wl_signal_add` puts a link into the list of
-- a signal, `wl_list_remove` takes it out.
--
-- `none` is a link that is added to a signal a second time, or removed where it is in no list: both
-- corrupt memory.
use coder_desktop_linux.Common.{
  ℕ, Bool, true, false, Option, none, some, List, [], ◌∷◌, ◌==◌, if◌then◌else◌, ◌>>=◌,
}
use coder_desktop_linux.Scene.{
  Listener, client_created, new_output, new_input, new_xdg_toplevel, new_xdg_popup,
  request_set_selection, request_set_primary_selection, security_context_commit, xwayland_surface,
  xwayland_ready, cursor_motion, cursor_motion_absolute, cursor_button, cursor_axis, cursor_frame,
  request_set_cursor, output_frame, output_request_state, output_destroy, keyboard_key,
  keyboard_modifiers, touch_down, touch_up, touch_motion, touch_cancel, touch_frame,
}

-- A number for each listener.
abbrev pub listener_index : Listener → ℕ
listener_index client_created = 0
listener_index new_output = 1
listener_index new_input = 2
listener_index new_xdg_toplevel = 3
listener_index new_xdg_popup = 4
listener_index request_set_selection = 5
listener_index request_set_primary_selection = 6
listener_index security_context_commit = 7
listener_index xwayland_surface = 8
listener_index xwayland_ready = 9
listener_index cursor_motion = 10
listener_index cursor_motion_absolute = 11
listener_index cursor_button = 12
listener_index cursor_axis = 13
listener_index cursor_frame = 14
listener_index request_set_cursor = 15
listener_index output_frame = 16
listener_index output_request_state = 17
listener_index output_destroy = 18
listener_index keyboard_key = 19
listener_index keyboard_modifiers = 20
listener_index touch_down = 21
listener_index touch_up = 22
listener_index touch_motion = 23
listener_index touch_cancel = 24
listener_index touch_frame = 25

abbrev pub same_listener : Listener → Listener → Bool
same_listener l m = listener_index l == listener_index m

-- Which links are in the list of a signal.
abbrev pub Links : Type 0
Links = Listener → Bool

-- `wl_signal_add` and `wl_list_remove`.
unfoldable pub link : Listener → Links → Option Links
link l links = if links l then none else some (λ m. if same_listener l m then true else links m)

unfoldable pub unlink : Listener → Links → Option Links
unlink l links = if links l then some (λ m. if same_listener l m then false else links m) else none

unfoldable pub link_all : List Listener → Links → Option Links
unfolding link
link_all [] links = some links
link_all (l ∷ ls) links = link l links >>= link_all ls

unfoldable pub unlink_all : List Listener → Links → Option Links
unfolding unlink
unlink_all [] links = some links
unlink_all (l ∷ ls) links = unlink l links >>= unlink_all ls

abbrev pub unlinked : Links
unlinked l = false
