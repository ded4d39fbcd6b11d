-- ===== src/Sandbox/Proxy.antt =====
-- `find_in_path`, `dlp_start_dbus_proxy`, `dlp_reap_dbus_proxies` and `dlp_cleanup_dbus_proxies` of
-- coder-dlp-compositor/src/sandbox_launcher.c.
--
-- What the system answers is an argument; what the code asks of it is a list of effects.
use coder_desktop_linux.Common.{
  ℕ, zero, suc, ◌+◌, Bool, true, false, ◌&&◌, not, Option, none, some, List, [], ◌∷◌, ◌++◌, String,
  ltb, leb, if◌then◌else◌, ℤ, pos, negsuc, is_pos, is_zero, is_nonneg, snprintf, path_max, is_empty,
  length, split_on,
}
use coder_desktop_linux.Sandbox.Config.{SandboxConfig}
use coder_desktop_linux.Sandbox.Effects.{
  Effect, make_dir, remove_dir, unlink, open_fd, close_fd, fork_proxy, kill_proxy, reap_proxy,
  close, kill, reap,
}

-- The loop over the tokens of PATH.
unfoldable pub find_loop : (String → Bool) → String → List String → Bool
find_loop executable name [] = false
find_loop executable name (tok ∷ toks) =
    let rest = find_loop executable name toks in
    if executable (snprintf path_max (tok ∷ "/" ∷ name ∷ [])) then true else rest

-- `path` is `getenv("PATH")`, `copied` whether the `strdup` succeeds.
unfoldable pub find_in_path : Option String → Bool → (String → Bool) → String → Bool
unfolding find_loop
find_in_path none copied executable name = false
find_in_path (some path) copied executable name =
    if copied then find_loop executable name (split_on b':' path) else false

-- `struct dlp_dbus_proxy`.
pub record DbusProxy : Type 0 where
  pub pid : ℤ
  pub pipe_write_fd : ℤ
  pub socket_path : String
  pub dir_path : String

-- The `--talk` arguments: the loop over the names at `i`, with `ac` arguments so far.
unfoldable pub talk_loop : List (Option String) → ℕ → ℕ → List String
talk_loop [] i ac = []
talk_loop (name ∷ names) i ac =
    let more : List String = elim name [
      | none ↦ talk_loop names (i + 1) ac
      | some n ↦ snprintf 256 ("--talk=" ∷ n ∷ []) ∷ talk_loop names (i + 1) (ac + 1)
    ] in
    if ltb i 16 && ltb ac 60 then more else []

unfoldable pub talk_words : Option SandboxConfig → ℕ → List String
unfolding talk_loop
talk_words none ac = []
talk_words (some config) ac = elim config.dbus_talk_names [
  | none ↦ []
  | some names ↦ talk_loop names 0 ac
]

-- The arguments that stand for every sandbox.
abbrev pub default_words : String → String → String → List String
default_words dbus_addr socket_path fd =
    "xdg-dbus-proxy"
    ∷ dbus_addr
    ∷ socket_path
    ∷ "--filter"
    ∷ snprintf 32 ("--fd=" ∷ fd ∷ [])
    ∷ "--call=org.freedesktop.portal.Desktop=org.freedesktop.portal.Settings.*@/org/freedesktop/portal/desktop"
    ∷ "--call=org.freedesktop.portal.Desktop=org.freedesktop.portal.Inhibit.*@/org/freedesktop/portal/desktop"
    ∷ "--talk=org.a11y.Bus"
    ∷ "--see=org.freedesktop.Notifications"
    ∷ "--call=org.freedesktop.Notifications=org.freedesktop.Notifications.Notify@/org/freedesktop/Notifications"
    ∷ "--call=org.freedesktop.Notifications=org.freedesktop.Notifications.GetCapabilities@/org/freedesktop/Notifications"
    ∷ "--call=org.freedesktop.Notifications=org.freedesktop.Notifications.GetServerInformation@/org/freedesktop/Notifications"
    ∷ []

-- What the child executes; `none` is the exit with 125. `fd` is the decimal of the read end.
unfoldable pub proxy_args : String → String → String → Option SandboxConfig → Option (List String)
unfolding talk_words
proxy_args dbus_addr socket_path fd sandbox =
    let base = default_words dbus_addr socket_path fd in
    let av = base ++ talk_words sandbox (length base) in
    if leb 127 (length av) then none else some av

-- The answers of the system to one start of the proxy, in the order in which they are asked for.
-- `fork` is the id of the child, `socket_there` and the rest the checks for the socket.
pub record Startup : Type 0 where
  pub bus_address : Option String
  pub path : Option String
  pub path_copied : Bool
  pub executable : String → Bool
  pub mkdtemp : Option String
  pub pipe : Option (ℕ × ℕ)
  pub fork : Option ℕ
  pub socket_there : Bool
  pub inotify : Bool
  pub socket_after_wait : Bool
  pub socket_at : ℕ → Bool

-- The fallback loop at round `i`.
unfoldable pub poll_loop : (ℕ → Bool) → ℕ → ℕ → Bool
poll_loop socket_at zero i = false
poll_loop socket_at (suc left) i =
    let rest = poll_loop socket_at left (i + 1) in if socket_at i then true else rest

-- The wait for the socket. Both waits on the watch end with the same check.
unfoldable pub await_socket : Startup → Bool
unfolding poll_loop
await_socket s =
    if s.socket_there
    then true
    else if s.inotify
    then s.socket_after_wait
    else poll_loop s.socket_at 200 0

-- The parent after a fork.
pub await_proxy : Startup → DbusProxy → ℕ → ℕ → Bool × DbusProxy × List Effect
await_proxy s proxy pid write_end =
    if await_socket s
    then (true, record proxy { pid = pos pid; pipe_write_fd = pos write_end }, [])
    else (
      false,
      record proxy { pid = pos 0; pipe_write_fd = negsuc 0 },
      kill_proxy pid
          ∷ reap_proxy pid
          ∷ close_fd write_end
          ∷ unlink proxy.socket_path
          ∷ remove_dir proxy.dir_path
          ∷ [],
    )

-- From the directory on.
pub start_in : Startup → DbusProxy → Bool × DbusProxy × List Effect
start_in s proxy = elim s.pipe [
  | none ↦ (false, proxy, [])
  | some (read_end, write_end) ↦ elim s.fork [
    | none ↦ (
      false,
      proxy,
      open_fd read_end ∷ open_fd write_end ∷ close_fd read_end ∷ close_fd write_end ∷ [],
    )
    | some pid ↦
        let (ready, proxy', effects) = await_proxy s proxy pid write_end in
        (
          ready,
          proxy',
          open_fd read_end ∷ open_fd write_end ∷ fork_proxy pid ∷ close_fd read_end ∷ effects,
        )
  ]
]

-- `dlp_start_dbus_proxy`: true for 0.
unfoldable pub start_dbus_proxy : Startup → DbusProxy → Bool × DbusProxy × List Effect
unfolding await_proxy start_in
start_dbus_proxy s proxy = elim s.bus_address [
  | none ↦ (false, proxy, [])
  | some address ↦
      if not (find_in_path s.path s.path_copied s.executable "xdg-dbus-proxy")
      then (false, proxy, [])
      else elim s.mkdtemp [
        | none ↦ (false, record proxy { dir_path = "/tmp/coder-dlp-dbus-XXXXXX" }, [])
        | some dir ↦
            let named = record proxy {
              dir_path = dir;
              socket_path = snprintf 256 (dir ∷ "/bus" ∷ []);
            } in
            let (ready, proxy', effects) = start_in s named in
            (ready, proxy', make_dir dir ∷ effects)
      ]
]

-- The answer of `waitpid` with WNOHANG: above 0, 0, or below.
pub data Wait : Type 0 where
  exited running failed : Wait

-- The socket and the directory of a proxy, where they are named.
abbrev pub remove_files : DbusProxy → List Effect
remove_files p =
    (if is_empty p.socket_path then [] else unlink p.socket_path ∷ [])
    ++ (if is_empty p.dir_path then [] else remove_dir p.dir_path ∷ [])

-- The body of the loop of `dlp_reap_dbus_proxies`.
unfoldable pub reap_one : (ℤ → Wait) → DbusProxy → DbusProxy × List Effect
reap_one wait p = if not (is_pos p.pid) then (p, []) else elim (wait p.pid) [
  | exited ↦ (
    record p {
      pid = pos 0;
      pipe_write_fd = if is_nonneg p.pipe_write_fd then negsuc 0 else p.pipe_write_fd;
    },
    reap p.pid ++ (close p.pipe_write_fd ++ remove_files p),
  )
  | running ↦ (p, [])
  | failed ↦ (p, [])
]

unfoldable pub reap_dbus_proxies : (ℤ → Wait) → List DbusProxy → List DbusProxy × List Effect
reap_dbus_proxies wait [] = ([], [])
reap_dbus_proxies wait (p ∷ ps) =
    let (p', es) = reap_one wait p in
    let (ps', fs) = reap_dbus_proxies wait ps in (p' ∷ ps', es ++ fs)

-- What a proxy that the cleanup finds running or exited comes to.
pub stop_one : (ℤ → Wait) → ℤ → List Effect
stop_one wait pid =
    if is_pos pid
    then elim (wait pid) [ exited ↦ reap pid | running ↦ kill pid ++ reap pid | failed ↦ [] ]
    else []

unfoldable pub cleanup_one : (ℤ → Wait) → DbusProxy → List Effect
unfolding stop_one
cleanup_one wait p =
    if is_zero p.pid then [] else close p.pipe_write_fd ++ (stop_one wait p.pid ++ remove_files p)

-- `dlp_cleanup_dbus_proxies`; afterwards no proxy is tracked.
unfoldable pub cleanup_dbus_proxies : (ℤ → Wait) → List DbusProxy → List Effect
cleanup_dbus_proxies wait [] = []
cleanup_dbus_proxies wait (p ∷ ps) = cleanup_one wait p ++ cleanup_dbus_proxies wait ps
