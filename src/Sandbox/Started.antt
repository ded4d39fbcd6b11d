-- ===== src/Sandbox/Started.antt =====
-- The bus of a filtered sandbox (coder-dlp-compositor/src/sandbox_launcher.c): when the proxy is up, and
-- what the sandbox gets when it is and when it is not.
use coder_desktop_linux.Common.{ℕ, ◌<◌, ◌≡◌, ◌⊎◌, true, false, some, [], ◌∷◌, String, snprintf}
use Prim.Native.Nat.{compare as compare_ℕ}
use Prim.Native.Char.{Char}
use Prim.Native.String.{slice}
use Prim.Native.String.append
use Prim.Native.String.slice
use coder_desktop_linux.Sandbox.Proxy.{Startup, find_in_path}

-- The proxy's socket has been seen: at once, or after the wait on the watch, or, where there is no watch,
-- in one of the 200 rounds of the loop.
abbrev pub SocketSeen : Startup → Type 0
SocketSeen s =
    (s.socket_there ≡ true)
    ⊎ (((s.inotify ≡ true) × (s.socket_after_wait ≡ true))
        ⊎ ((s.inotify ≡ false) × ((i : ℕ) × (i < 200) × (s.socket_at i ≡ true))))

-- The proxy is up: the host has a bus, the program is in the path, the directory `dir` was made, the
-- pipe and the process `pid` too, and the socket has been seen.
pub record IsUp (s : Startup) (dir : String) (pid : ℕ) : Type 0 where
  pub address : String
  pub ends : ℕ × ℕ
  pub bus_known : s.bus_address ≡ some address
  pub program : find_in_path s.path s.path_copied s.executable "xdg-dbus-proxy" ≡ true
  pub directory : s.mkdtemp ≡ some dir
  pub piped : s.pipe ≡ some ends
  pub forked : s.fork ≡ some pid
  pub seen : SocketSeen s

-- The socket of a proxy in this directory.
abbrev pub proxy_path : String → String
proxy_path dir = snprintf 256 (dir ∷ "/bus" ∷ [])
