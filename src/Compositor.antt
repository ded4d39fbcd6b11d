-- ===== src/Compositor.antt =====
-- The life of a compositor: `coder_dlp_create` and `coder_dlp_destroy` of
-- coder-dlp-compositor/src/compositor.c with the listeners that they connect and disconnect, and the
-- handlers of output.c, there, and of input.c that connect more.
--
-- `none` is a link that `Wiring` refuses.
pub mod Linked
pub mod Events
pub mod Life
pub mod Failure
use coder_desktop_linux.Common.{
  ℕ, ◌+◌, Bool, true, false, not, Option, none, some, List, [], ◌∷◌, ◌++◌, ◌==◌, if◌then◌else◌,
  ◌>>=◌,
}
use coder_desktop_linux.Scene.{
  Listener, client_created, new_output, new_input, new_xdg_toplevel, new_xdg_popup,
  request_set_selection, request_set_primary_selection, security_context_commit, xwayland_surface,
  xwayland_ready, cursor_motion, cursor_motion_absolute, cursor_button, cursor_axis, cursor_frame,
  request_set_cursor, output_frame, output_request_state, output_destroy, keyboard_key,
  keyboard_modifiers, touch_down, touch_up, touch_motion, touch_cancel, touch_frame, Call, listen,
}
use coder_desktop_linux.Input.{Device, InputState, handle_new_input}
use coder_desktop_linux.ActiveList.{ActiveList, compositor_list_add, compositor_list_remove}
use coder_desktop_linux.Wiring.{
  listener_index, same_listener, Links, link, unlink, link_all, unlink_all, unlinked,
}

-- The fields of `struct coder_dlp_compositor` that decide which links are removed at the end.
pub record Compositor : Type 0 where
  pub address : ℕ
  pub input : InputState
  pub output : Option ℕ
  pub xwayland : Bool
  pub links : Links

-- The answers of the system and of wlroots to one creation, in their order.
pub record Creation : Type 0 where
  pub calloc : Option ℕ
  pub realloc : Bool
  pub display : Bool
  pub backend : Bool
  pub is_x11 : Bool
  pub renderer : Bool
  pub allocator : Bool
  pub security_context_mgr : Bool
  pub xwayland : Bool
  pub started : Bool
  pub socket : Bool

-- `dlp_security_context_init`.
unfoldable pub security_context_init : Bool → Links → Option Links
unfolding link_all
security_context_init false links = some links
security_context_init true links = link_all (security_context_commit ∷ []) links

-- `dlp_clipboard_init`, of a compositor with a seat.
unfoldable pub clipboard_init : Links → Option Links
unfolding link_all
clipboard_init links = link_all (request_set_selection ∷ request_set_primary_selection ∷ []) links

-- `dlp_xwayland_init`.
unfoldable pub xwayland_init : Bool → Links → Option Links
unfolding link_all
xwayland_init false links = some links
xwayland_init true links = link_all (xwayland_surface ∷ xwayland_ready ∷ []) links

-- The globals and the listeners, once there is a display, a backend, a renderer and an allocator.
unfoldable pub connect_globals : (security_context_mgr xwayland : Bool) → Links → Option Links
connect_globals security_context_mgr xwayland links = do
  shell ← link_all (new_xdg_toplevel ∷ new_xdg_popup ∷ []) links
  clipboard ← clipboard_init shell
  security ← security_context_init security_context_mgr clipboard
  x11 ← xwayland_init xwayland security
  link_all
      (cursor_motion ∷ cursor_motion_absolute ∷ cursor_button ∷ cursor_axis ∷ cursor_frame
        ∷ request_set_cursor ∷ new_output ∷ new_input ∷ [])
      x11

-- The compositor as it is returned. The devices and the output that the start of the backend brings
-- are events that follow.
abbrev pub created : Creation → ℕ → Links → Compositor
created c address links = record {
  address = address;
  input = record {
    is_x11_backend = c.is_x11;
    keyboard_device = none;
    touch_device = none;
    capabilities = record { has_pointer = false; has_keyboard = false; has_touch = false };
  };
  output = none;
  xwayland = c.xwayland;
  links = links;
}

-- The exit `err_display`, which takes the compositor out of the list.
unfoldable pub err_display : ℕ → ActiveList → Option Compositor × ActiveList
err_display address active = (none, compositor_list_remove address active)

-- From the globals on.
unfoldable pub create_globals :
    Creation → ℕ → ActiveList → Links → Option (Option Compositor × ActiveList)
create_globals c address active clients = do
  links ← connect_globals c.security_context_mgr c.xwayland clients
  some (
      if not c.started
      then err_display address active
      else if not c.socket
      then err_display address active
      else (some (created c address links), active))

-- From the display on.
unfoldable pub create_on_display :
    Creation → ℕ → ActiveList → Option (Option Compositor × ActiveList)
create_on_display c address active = link_all (client_created ∷ []) unlinked >>= λ clients.
    if not c.backend
    then some (err_display address active)
    else if not c.renderer
    then some (err_display address active)
    else if not c.allocator
    then some (err_display address active)
    else create_globals c address active clients

-- `coder_dlp_create`; a failed addition to the list is only reported.
unfoldable pub create : Creation → ActiveList → Option (Option Compositor × ActiveList)
create c active = elim c.calloc [
  | none ↦ some (none, active)
  | some address ↦
      let (added, active') = compositor_list_add c.realloc address active in
      if c.display then create_on_display c address active' else some (none, active')
]

-- The listeners of an output, of a keyboard and of a touch screen.
abbrev pub output_listeners : List Listener
output_listeners = output_frame ∷ output_request_state ∷ output_destroy ∷ []

abbrev pub keyboard_listeners : List Listener
keyboard_listeners = keyboard_key ∷ keyboard_modifiers ∷ []

abbrev pub touch_listeners : List Listener
touch_listeners = touch_down ∷ touch_up ∷ touch_motion ∷ touch_cancel ∷ touch_frame ∷ []

unfoldable pub unlink_if : Bool → List Listener → Links → Option Links
unfolding unlink_all
unlink_if false ls links = some links
unlink_if true ls links = unlink_all ls links

abbrev pub is_some : {A : Type 0} → Option A → Bool
is_some none = false
is_some (some a) = true

-- `dlp_xwayland_destroy`.
unfoldable pub xwayland_destroy : Bool → Links → Option Links
unfolding unlink_all
xwayland_destroy false links = some links
xwayland_destroy true links = unlink_all (xwayland_surface ∷ xwayland_ready ∷ []) links

-- The removals of links, of a compositor with or without an output, a keyboard, a touch screen and
-- Xwayland.
unfoldable pub remove_links : (output keyboard touch xwayland : Bool) → Links → Option Links
remove_links output keyboard touch xwayland links = do
  globals ←
      unlink_all
        (new_output ∷ new_input ∷ new_xdg_toplevel ∷ new_xdg_popup ∷ request_set_selection
          ∷ request_set_primary_selection ∷ security_context_commit ∷ client_created ∷ [])
        links
  outputs ← unlink_if output output_listeners globals
  keyboards ← unlink_if keyboard keyboard_listeners outputs
  touches ← unlink_if touch touch_listeners keyboards
  cursors ←
      unlink_all
        (cursor_motion ∷ cursor_motion_absolute ∷ cursor_button ∷ cursor_axis ∷ cursor_frame
          ∷ request_set_cursor ∷ [])
        touches
  xwayland_destroy xwayland cursors

-- `coder_dlp_destroy`: the links that are left, and the list of compositors.
unfoldable pub destroy : Option Compositor → ActiveList → Option (Links × ActiveList)
destroy none active = some (unlinked, active)
destroy (some comp) active = do
  links ←
      remove_links (is_some comp.output) (is_some comp.input.keyboard_device)
        (is_some comp.input.touch_device) comp.xwayland comp.links
  some (links, compositor_list_remove comp.address active)

-- The listeners that a list of calls connects.
unfoldable pub listened : {F : Type 0} → List (Call F) → List Listener
listened [] = []
listened (listen l ∷ calls) = l ∷ listened calls
listened (_ ∷ calls) = listened calls

-- What the backend brings and takes away: an output, and a device with the answers of XKB.
pub data Happening : Type 0 where
  output_comes : ℕ → Happening
  output_goes : Happening
  device_comes : Device → (context keymap : Bool) → Happening

-- `dlp_compositor_handle_new_output`, `handle_output_destroy` and `dlp_compositor_handle_new_input`.
unfoldable pub happen : Happening → Compositor → Option Compositor
happen (output_comes id) comp = do
  links ← link_all output_listeners comp.links
  some (record comp { output = some id; links = links })
happen output_goes comp = do
  links ← unlink_all output_listeners comp.links
  some (record comp { output = none; links = links })
happen (device_comes device context keymap) comp =
    let (input, calls) = handle_new_input {F = ℕ} context keymap device comp.input in
    do
      links ← link_all (listened calls) comp.links
      some (record comp { input = input; links = links })

unfoldable pub happen_all : List Happening → Compositor → Option Compositor
happen_all [] comp = some comp
happen_all (h ∷ hs) comp = happen h comp >>= happen_all hs
