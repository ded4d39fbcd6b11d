-- ===== src/Clients/Balance.antt =====
-- The count of clients against the clients that are there (coder-dlp-compositor/src/compositor.c).
use coder_desktop_linux.Common.{ℕ, ◌+◌, ◌≡◌, refl, true, false, some, List, [], ◌∷◌, length, arith}
use coder_desktop_linux.Clients.{
  Clients, handle_client_created, has_wrapper, free_wrapper, handle_client_destroyed,
  get_client_count, ClientEvent, connects, disconnects, client_step, client_run, no_clients,
}

-- The connections for which no wrapper could be allocated.
unfoldable pub untracked : List ClientEvent → ℕ
untracked [] = 0
untracked (connects false client ∷ es) = 1 + untracked es
untracked (_ ∷ es) = untracked es

length-free_wrapper :
    (client : ℕ) (ws : List ℕ)
    → has_wrapper client ws ≡ true
    → length (free_wrapper client ws) + 1 ≡ length ws
length-free_wrapper client [] h = absurd (ground arith)
length-free_wrapper client (w ∷ ws) h = ground (arith, length-free_wrapper client ws)

run-balance :
    (es : List ClientEvent) (s : Clients) (lost : ℕ)
    → s.client_count ≡ length s.wrappers + lost
    → (client_run es s).client_count ≡ length (client_run es s).wrappers + (lost + untracked es)
unfolding client_run client_step handle_client_created handle_client_destroyed untracked
run-balance [] s lost h = omega arith
run-balance (connects true client ∷ es) s lost h = run-balance es _ lost (omega arith)
run-balance (connects false client ∷ es) s lost h = omega (
  arith,
  run-balance es (record s { client_count = s.client_count + 1 }) (lost + 1) (omega arith),
)
run-balance (disconnects client ∷ es) s lost h =
    run-balance es (client_step (disconnects client) s) lost
      (ground (arith, length-free_wrapper client s.wrappers))

-- After any connections and disconnections the count is the number of clients that are tracked, and
-- one more for each connection whose wrapper could not be allocated.
pub client_run-count :
    (es : List ClientEvent)
    → get_client_count (some (client_run es no_clients))
      ≡ length (client_run es no_clients).wrappers + untracked es
unfolding get_client_count
client_run-count es = omega (arith, run-balance es no_clients 0 refl)
