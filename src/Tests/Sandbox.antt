-- ===== src/Tests/Sandbox.antt =====
-- The sandbox launcher on concrete configurations (coder-dlp-compositor/src/sandbox_launcher.c).
use coder_desktop_linux.Common.{
  ◌==◌, Option, ◌≡◌, ◌⊎◌, refl, true, false, not, none, some, List, [], ◌∷◌, ◌++◌, String, arith,
  length, map, ◌≤◌, All, str_eq, snprintf, skip_first, subst, false, concat,
}
use coder_desktop_linux.Sandbox.Config.{SandboxConfig, Displays, Host}
use coder_desktop_linux.Sandbox.Words.{socket_or, dbus_path, x11_socket, bwrap_words}
use coder_desktop_linux.Sandbox.Build.{build_bwrap_args, free_bwrap_args}
use coder_desktop_linux.Sandbox.Build.Exact.{free-build, build_total}
use coder_desktop_linux.Sandbox.Grammar.{Op, bind}
use coder_desktop_linux.Sandbox.Ops.{Reads, bwrap_words-Reads}
use coder_desktop_linux.Sandbox.Options.{sandbox_ops, the_bus}
use coder_desktop_linux.Sandbox.Environment.{env_value, bus_env, sandbox_environment}
use coder_desktop_linux.Sandbox.Mounts.{
  Granted, Binds, isolated-Binds, is_over, begins_with, mount_at, session_bus_mount,
}
use coder_desktop_linux.Sandbox.Effects.{held, fd_effect, child_effect}
use coder_desktop_linux.Sandbox.Proxy.{
  Startup, exited, running, proxy_args, default_words, cleanup_dbus_proxies,
}
use coder_desktop_linux.Sandbox.Launch.{System, Event, launch, tick, run, no_proxies}
use coder_desktop_linux.Sandbox.Teardown.{teardown_complete}
use coder_desktop_linux.Sandbox.Filter.{talk, allowed, proxy_args-allowed}

abbrev config : SandboxConfig
config = record {
  workspace_path = some "/work";
  network_namespace = some "dlp";
  isolate_pid = true;
  isolate_ipc = true;
  isolate_filesystem = true;
  bind_home_rw = false;
  extra_bind_paths = some (some "/data" ∷ none ∷ []);
  filter_dbus = true;
  dbus_talk_names = some (none ∷ some "org.example.Talk" ∷ []);
}

abbrev host : Host
host = record {
  xdg_runtime_dir = some "/run/user/1000";
  home = some "/home/me";
  exists = λ path. true;
}

abbrev comp : Displays
comp = record { socket = some "wayland-1"; xwayland_display = none }

-- A proxy that starts.
abbrev startup : Startup
startup = record {
  bus_address = some "unix:path=/run/user/1000/bus";
  path = some "/bin:/usr/bin";
  path_copied = true;
  executable = λ file. str_eq file "/usr/bin/xdg-dbus-proxy";
  mkdtemp = some "/tmp/coder-dlp-dbus-abcdef";
  pipe = some (5, 6);
  fork = some 42;
  socket_there = false;
  inotify = false;
  socket_after_wait = false;
  socket_at = λ i. true;
}

abbrev system : System
system = record {
  startup = startup;
  host = host;
  alloc = λ n. true;
  junk = [];
  fork = some 43;
  realloc = true;
}

abbrev events : List Event
events =
    launch system (some comp) (some "app") (some config)
    ∷ tick (λ pid. running)
    ∷ launch system (some comp) (some "app") none
    ∷ []

sandbox_environment_example :
    (ops : List Op) × Reads (bwrap_words host comp "app" (some config) (some "")) ops "app"
    × (env_value "WAYLAND_DISPLAY" ops ≡ some (some (socket_or comp.socket)))
    × (env_value "DISPLAY" ops ≡ some comp.xwayland_display)
    × (env_value "DBUS_SESSION_BUS_ADDRESS" ops ≡ bus_env (the_bus host (some "")))
sandbox_environment_example = sandbox_environment host comp "app" (some config) (some "")

isolated-Binds_example :
    (ops : List Op) × Reads
      (bwrap_words host comp "app" (some config) (some "/tmp/p/bus"))
      ops
      "app"
    × All (Binds (Granted host comp config (some "/tmp/p/bus"))) ops
isolated-Binds_example = isolated-Binds host comp config (some "/tmp/p/bus") "app" refl

abbrev displayed : Displays
displayed = record comp { xwayland_display = some "7" }

session_bus_mount_example :
    (ops : List Op) × Reads
      (bwrap_words host displayed "app" (some config) (some "/tmp/p/bus"))
      ops
      "app"
    × (mount_at (dbus_path "/run/user/1000") ops
        ≡ some (bind "/tmp/p/bus" (dbus_path "/run/user/1000")))
unfolding is_over begins_with snprintf skip_first concat
session_bus_mount_example =
    session_bus_mount host displayed "app" (some config) (some "/tmp/p/bus") "/tmp/p/bus"
      "/run/user/1000" refl apart
  where
    apart :
        (d : String)
        → some "7" ≡ some d
        → is_over (x11_socket d) (dbus_path "/run/user/1000") ≡ false
    apart d e =
        let same : "7" ≡ d = cc in
        subst (λ x. is_over (x11_socket x) (dbus_path "/run/user/1000") ≡ false) same refl

bwrap_words-Reads_example :
    Reads
      (bwrap_words host comp "--bind / /" (some config) none)
      (sandbox_ops host comp (some config) none)
      "--bind / /"
bwrap_words-Reads_example = bwrap_words-Reads host comp "--bind / /" (some config) none

free-build_example :
    let words = bwrap_words host comp "app" (some config) none in
    let cells : List (Option String) = map some words ++ none ∷ [] in
    let result =
      build_bwrap_args (λ n. not (n == 70)) [] host (some comp) (some "app") (some config) none in
    ((result ≡ some none) ⊎ (result ≡ some (some cells)))
    × (free_bwrap_args (some cells) ≡ some words)
free-build_example = free-build (λ n. not (n == 70)) [] host comp "app" (some config) none

build_total_example :
    build_bwrap_args (λ n. true) [] host (some comp) (some "app") (some config) none
    ≡ some (some (map some (bwrap_words host comp "app" (some config) none) ++ none ∷ []))
build_total_example = build_total [] host comp "app" (some config) none

teardown_complete_example :
    let (t, effects) = run events no_proxies in
    let all = effects ++ cleanup_dbus_proxies (λ pid. exited) t.proxies in
    (held (fd_effect 6) false all ≡ false) × (held (child_effect 6) false all ≡ false)
teardown_complete_example =
    teardown_complete events (λ pid. exited) 6 (omega arith, (tt, (omega arith, tt))) (λ pid e. cc)

proxy_args-allowed_example :
    (argv : List String) × (proxy_args "a" "s" "5" (some config) ≡ some argv)
    × (argv ≡ default_words "a" "s" "5" ++ map talk (allowed (some config)))
    × (length argv ≤ 28)
proxy_args-allowed_example = proxy_args-allowed "a" "s" "5" (some config)
