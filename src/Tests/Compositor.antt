-- ===== src/Tests/Compositor.antt =====
-- Compositors, frames, windows and clients on concrete inputs (coder-dlp-compositor/src/compositor.c,
-- output.c, xwayland.c).
use coder_desktop_linux.Common.{
  ℕ, ◌≡◌, inr, refl, ◌+◌, Bool, true, false, none, some, List, [], ◌∷◌, ◌++◌, arith, length,
  replicate, pos, ◌>>=◌, get_or-lt,
}
use coder_desktop_linux.Scene.{Window, xdg, xwayland, of_window, same_window}
use coder_desktop_linux.Focus.{Seat}
use coder_desktop_linux.Focus.Exclusive.{OnlyFocused}
use coder_desktop_linux.Input.{keyboard, touch}
use coder_desktop_linux.ActiveList.{ActiveList, compositor_list_remove}
use coder_desktop_linux.Wiring.{unlinked}
use coder_desktop_linux.Compositor.{
  Compositor, Creation, create, destroy, Happening, output_comes, output_goes, device_comes,
  happen_all,
}
use coder_desktop_linux.Compositor.Events.{orderly}
use coder_desktop_linux.Compositor.Life.{IsGranted, create-destroy}
use coder_desktop_linux.Watermark.{argb8888, other, Mapping, Buffer, blue_offset}
use coder_desktop_linux.Watermark.Identity.{digest}
use coder_desktop_linux.Watermark.Apply.{IsWritable, IsWatermarked, with_pixels, blues}
use coder_desktop_linux.Output.{
  Policy, Marking, set_policy, set_watermark_identity, commit_state, frame_done,
  handle_output_frame,
}
use coder_desktop_linux.Output.Frame.{frame-IsWatermarked, frame_unmarked}
use coder_desktop_linux.Surfaces.{XwaylandSurface, handle_xwayland_surface_map}
use coder_desktop_linux.Surfaces.Fill.{
  geometry, Request, resize, fullscreen, requests, requests-fill,
}
use coder_desktop_linux.Clients.{
  get_client_count, ClientEvent, connects, disconnects, client_run, no_clients,
}
use coder_desktop_linux.Clients.Balance.{untracked, client_run-count}
use coder_desktop_linux.Links.{loose}
use coder_desktop_linux.SurfaceLinks.{new_surface, surface_destroy, turns}
use coder_desktop_linux.SurfaceLinks.SurfaceLife.{surface_life}

abbrev granted : Creation
granted = record {
  calloc = some 3;
  realloc = true;
  display = true;
  backend = true;
  is_x11 = false;
  renderer = true;
  allocator = true;
  security_context_mgr = true;
  xwayland = true;
  started = true;
  socket = true;
}

granted-IsGranted : IsGranted granted 3
granted-IsGranted = record {
  calloc = refl;
  display = refl;
  backend = refl;
  renderer = refl;
  allocator = refl;
  security = refl;
  started = refl;
  socket = refl;
}

-- Two compositors are alive.
abbrev alive : ActiveList
alive = record { entries = 1 ∷ 2 ∷ []; capacity = 4 }

abbrev happenings : List Happening
happenings =
    output_comes 7
    ∷ device_comes (keyboard 1) true true
    ∷ device_comes (touch 2) true true
    ∷ output_goes
    ∷ output_comes 8
    ∷ []

create-destroy_example :
    (comp : Compositor) × (comp' : Compositor) × (active' : ActiveList) × (create granted alive
      ≡ some (some comp, active'))
    × (happen_all happenings comp ≡ some comp')
    × (destroy (some comp') active' ≡ some (unlinked, compositor_list_remove 3 active'))
unfolding orderly
create-destroy_example = create-destroy granted alive 3 happenings granted-IsGranted refl

-- No display: the address stays in the list.
abbrev no_display : Creation
no_display = record granted { display = false }

abbrev after_failure : ActiveList
after_failure = record { entries = 1 ∷ 2 ∷ 3 ∷ []; capacity = 4 }

-- Two pixels in one row.
abbrev pub mapping : Mapping
mapping = record { pixels = 1 ∷ 2 ∷ 3 ∷ 4 ∷ 5 ∷ 6 ∷ 7 ∷ 8 ∷ []; format = argb8888; stride = 8 }

abbrev pub buffer : Buffer
buffer = record { width = 2; height = 1; mapping = some mapping; accesses = 0 }

pub writable : IsWritable buffer mapping 0
unfolding blue_offset
writable = record {
  mapped = refl;
  supported = refl;
  row_fits = omega arith;
  rows_fit = omega arith;
  bytes = get_or-lt 256 mapping.pixels (omega arith) (ground arith);
}

abbrev pub policy : Policy
policy = record {
  clipboard_block_outgoing = true;
  clipboard_block_incoming = true;
  screenshot_block = true;
  file_sandbox = true;
  network_sandbox = false;
  watermark_enabled = true;
}

abbrev pub blank : Marking
blank = record {
  policy = record policy { watermark_enabled = false };
  watermark = record { enabled = false; fingerprint = replicate 32 0; has_identity = false };
}

frame-IsWatermarked_example :
    (named marked : Marking) × (after : List ℕ) × (set_watermark_identity
        (replicate 256 7)
        (some blank)
        (some (109 ∷ 101 ∷ []))
      ≡ some (some named))
    × (set_policy (some named) (some policy) ≡ some marked)
    × (handle_output_frame true marked (some (some buffer))
        ≡ some (commit_state (some (with_pixels buffer mapping after)) ∷ frame_done ∷ []))
    × IsWatermarked (digest (109 ∷ 101 ∷ [])) (blues buffer mapping 0) mapping.pixels after
frame-IsWatermarked_example =
    frame-IsWatermarked (replicate 256 7) (109 ∷ 101 ∷ []) blank policy buffer mapping 0 refl refl
      refl writable

abbrev ten_bit : Mapping
ten_bit = record mapping { format = other 30 }

abbrev ten_bit_buffer : Buffer
ten_bit_buffer = record buffer { mapping = some ten_bit }

abbrev identified : Marking
identified = record {
  policy = policy;
  watermark = record { enabled = false; fingerprint = replicate 32 0; has_identity = true };
}

frame_unmarked_example :
    handle_output_frame true identified (some (some ten_bit_buffer))
    ≡ some (commit_state (some ten_bit_buffer) ∷ frame_done ∷ [])
unfolding blue_offset
frame_unmarked_example =
    frame_unmarked identified ten_bit_buffer ten_bit refl refl (inr (refl, refl))

abbrev seat : Seat
seat = record { focused_surface = some (of_window (xdg 1)); has_keyboard = true }

abbrev window : XwaylandSurface
window = record {
  id = 5;
  override_redirect = false;
  attached = true;
  wants_focus = true;
  global = false;
  x = pos 10;
  y = pos 20;
}

abbrev asked : List Request
asked = resize (pos 3) (pos 4) 100 100 ∷ fullscreen seat ∷ []

requests-fill_example :
    geometry (xwayland 5) none (
      handle_xwayland_surface_map {F = ℕ} seat (some (800, 600)) window
      ++ requests ℕ (some (800, 600)) window asked)
    ≡ some (record { x = pos 0; y = pos 0; width = 800; height = 600 })
requests-fill_example = requests-fill ℕ seat window 800 600 none asked refl

abbrev on_focused : Window → Bool
on_focused w = same_window (xdg 1) w

only : OnlyFocused on_focused seat.focused_surface
only (xdg n) act = ground arith
only (xwayland n) act = cc

abbrev traffic : List ClientEvent
traffic = connects true 1 ∷ connects false 2 ∷ disconnects 1 ∷ disconnects 2 ∷ connects true 3 ∷ []

client_run-count_example :
    get_client_count (some (client_run traffic no_clients))
    ≡ length (client_run traffic no_clients).wrappers + untracked traffic
client_run-count_example = client_run-count traffic

surface_life_example :
    (new_surface >>= λ links. (turns 3 false links >>= surface_destroy)) ≡ some (λ l. loose)
surface_life_example = surface_life 3
