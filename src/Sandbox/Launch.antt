-- ===== src/Sandbox/Launch.antt =====
-- `coder_dlp_launch_app` of coder-dlp-compositor/src/sandbox_launcher.c, and the life of the table of
-- proxies over launches, reaping and cleanup.
use coder_desktop_linux.Common.{
  ℕ, ◌*◌, Bool, Option, none, some, List, [], ◌∷◌, ◌++◌, String, ltb, leb, ◌==◌, if◌then◌else◌, ℤ,
  negsuc, is_pos, is_empty, length,
}
use coder_desktop_linux.Sandbox.Config.{SandboxConfig, Displays, Host, flag}
use coder_desktop_linux.Sandbox.Build.{build_bwrap_args}
use coder_desktop_linux.Sandbox.Effects.{Effect, remove_dir, unlink, fork_app, close, kill, reap}
use coder_desktop_linux.Sandbox.Proxy.{
  DbusProxy, Startup, start_dbus_proxy, Wait, reap_dbus_proxies,
}

-- `dbus_proxies` with `dbus_proxy_count` entries, and `dbus_proxy_capacity`.
pub record Tracker : Type 0 where
  pub proxies : List DbusProxy
  pub capacity : ℕ

-- The answers of the system to one launch: to the start of the proxy, to the allocations of the
-- command line, to the `fork` of bwrap (the id of the child) and to the `realloc` of the table.
pub record System : Type 0 where
  pub startup : Startup
  pub host : Host
  pub alloc : ℕ → Bool
  pub junk : List (Option String)
  pub fork : Option ℕ
  pub realloc : Bool

-- `memset` and the two marks.
abbrev pub no_proxy : DbusProxy
no_proxy = record { pid = negsuc 0; pipe_write_fd = negsuc 0; socket_path = ""; dir_path = "" }

-- The proxy of a launch, the socket for the command line, and the effects so far. An empty socket
-- says that there is to be no bus.
unfoldable pub open_proxy : Startup → Option SandboxConfig → DbusProxy × Option String × List Effect
open_proxy s sandbox =
    if flag (λ c. c.filter_dbus) sandbox
    then (let (started, proxy, effects) = start_dbus_proxy s no_proxy in
        (proxy, if started then some proxy.socket_path else some "", effects))
    else (no_proxy, none, [])

-- A proxy that is given up.
unfoldable pub discard : DbusProxy → List Effect
discard p =
    close p.pipe_write_fd
    ++ (kill p.pid
        ++ (reap p.pid
            ++ (unlink p.socket_path
                ∷ (if is_empty p.dir_path then [] else remove_dir p.dir_path ∷ []))))

-- The two error exits.
unfoldable pub abandon : DbusProxy → List Effect
unfolding discard
abandon p = if is_pos p.pid then discard p else []

-- The growth of a full table; a failure gives the proxy up.
unfoldable pub reserve : Bool → DbusProxy → Tracker → Tracker × List Effect
unfolding discard
reserve granted proxy t =
    if leb t.capacity (length t.proxies)
    then if granted
      then (record t { capacity = if t.capacity == 0 then 4 else t.capacity * 2 }, [])
      else (t, discard proxy)
    else (t, [])

-- The end of a successful launch.
unfoldable pub track : Bool → DbusProxy → Tracker → Tracker × List Effect
unfolding reserve
track granted proxy t =
    if is_pos proxy.pid
    then (let (t', effects) = reserve granted proxy t in
        (
          if ltb (length t'.proxies) t'.capacity
              then record t' { proxies = t'.proxies ++ proxy ∷ [] }
              else t',
          effects,
        ))
    else (t, [])

-- From the command line on. An overrun while the line is built is taken for a failure.
unfoldable pub launch_with :
    System
    → Displays
    → String
    → Option SandboxConfig
    → Tracker
    → DbusProxy
    → Option String
    → List Effect
    → Option ℕ × Tracker × List Effect
launch_with sys comp command sandbox t proxy proxy_socket effects =
    elim (build_bwrap_args sys.alloc sys.junk sys.host (some comp) (some command) sandbox
      proxy_socket) [
        | none ↦ (none, t, effects ++ abandon proxy)
        | some none ↦ (none, t, effects ++ abandon proxy)
        | some (some argv) ↦ elim sys.fork [
          | none ↦ (none, t, effects ++ abandon proxy)
          | some pid ↦
              let (t', more) = track sys.realloc proxy t in
              (some pid, t', effects ++ (fork_app pid ∷ more))
        ]
      ]

-- `coder_dlp_launch_app`: the id of the child, or `none` for -1.
unfoldable pub launch_app :
    System
    → Option Displays
    → Option String
    → Option SandboxConfig
    → Tracker
    → Option ℕ × Tracker × List Effect
unfolding open_proxy launch_with
launch_app sys none command sandbox t = (none, t, [])
launch_app sys (some comp) none sandbox t = (none, t, [])
launch_app sys (some comp) (some command) sandbox t =
    let (proxy, proxy_socket, effects) = open_proxy sys.startup sandbox in
    launch_with sys comp command sandbox t proxy proxy_socket effects

-- What can happen to the table.
pub data Event : Type 0 where
  launch : System → Option Displays → Option String → Option SandboxConfig → Event
  -- the timer of `reap_timer_cb`
  tick : (ℤ → Wait) → Event

unfoldable pub step : Event → Tracker → Tracker × List Effect
step (launch sys comp command sandbox) t =
    let (result, t', effects) = launch_app sys comp command sandbox t in (t', effects)
step (tick wait) t =
    let (proxies, effects) = reap_dbus_proxies wait t.proxies in
    (record t { proxies = proxies }, effects)

unfoldable pub run : List Event → Tracker → Tracker × List Effect
run [] t = (t, [])
run (e ∷ es) t = let (t', fs) = step e t in let (t'', gs) = run es t' in (t'', fs ++ gs)

abbrev pub no_proxies : Tracker
no_proxies = record { proxies = []; capacity = 0 }
