-- ===== src/Clients.antt =====
-- The count of Wayland clients: `handle_client_created`, `handle_client_destroyed` and
-- `coder_dlp_get_client_count` of coder-dlp-compositor/src/compositor.c.
pub mod Balance
use coder_desktop_linux.Common.{
  ℕ, ◌+◌, ◌-◌, Bool, true, false, Option, none, some, List, [], ◌∷◌, ◌==◌, if◌then◌else◌,
}

-- `client_count`, and the clients for which a `client_destroy_wrapper` is there.
pub record Clients : Type 0 where
  pub client_count : ℕ
  pub wrappers : List ℕ

-- `allocated` says whether the `calloc` of the wrapper succeeds.
unfoldable pub handle_client_created : (allocated : Bool) → (client : ℕ) → Clients → Clients
handle_client_created allocated client s =
    let counted = record s { client_count = s.client_count + 1 } in
    if allocated then record counted { wrappers = client ∷ s.wrappers } else counted

abbrev pub has_wrapper : ℕ → List ℕ → Bool
has_wrapper client [] = false
has_wrapper client (w ∷ ws) =
    let later = has_wrapper client ws in if w == client then true else later

abbrev pub free_wrapper : ℕ → List ℕ → List ℕ
free_wrapper client [] = []
free_wrapper client (w ∷ ws) =
    let later = free_wrapper client ws in if w == client then ws else w ∷ later

-- What the wrapper's listener does.
unfoldable pub handle_client_destroyed : ℕ → Clients → Clients
handle_client_destroyed client s = record {
  client_count = s.client_count - 1;
  wrappers = free_wrapper client s.wrappers;
}

-- A null compositor has no clients.
unfoldable pub get_client_count : Option Clients → ℕ
get_client_count none = 0
get_client_count (some s) = s.client_count

pub data ClientEvent : Type 0 where
  connects : (allocated : Bool) → (client : ℕ) → ClientEvent
  disconnects : (client : ℕ) → ClientEvent

-- A client that disconnects is noticed only where it has a wrapper.
unfoldable pub client_step : ClientEvent → Clients → Clients
client_step (connects allocated client) s = handle_client_created allocated client s
client_step (disconnects client) s =
    if has_wrapper client s.wrappers then handle_client_destroyed client s else s

unfoldable pub client_run : List ClientEvent → Clients → Clients
client_run [] s = s
client_run (e ∷ es) s = client_run es (client_step e s)

abbrev pub no_clients : Clients
no_clients = record { client_count = 0; wrappers = [] }
