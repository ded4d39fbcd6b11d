-- ===== src/Sandbox/Environment.antt =====
-- What the command line of coder-dlp-compositor/src/sandbox_launcher.c makes of the environment,
-- of the session bus and of the writable paths of a sandbox.
use coder_desktop_linux.Common.{
  ◌≡◌, refl, Bool, true, false, Option, none, some, List, [], ◌∷◌, ◌++◌, String, if◌then◌else◌,
  str_eq,
}
use coder_desktop_linux.Sandbox.Config.{SandboxConfig, Displays, Host}
use coder_desktop_linux.Sandbox.Words.{socket_or, dbus_addr, bwrap_words}
use coder_desktop_linux.Sandbox.Grammar.{
  Op, unshare_pid, unshare_ipc, unshare_net, set_env, unset_env,
}
use coder_desktop_linux.Sandbox.Ops.{Reads, bwrap_words-Reads}
use coder_desktop_linux.Sandbox.Options.{
  untouched, blocked, bound, sandbox_ops, Bus, the_bus, bus_ops, filesystem_ops, runtime_ops,
  bind_each, when, wayland_ops, x11_ops, last_ops,
}

-- The options are carried out in order, so the last one that sets or unsets a variable decides it:
-- `none` is a variable that the sandbox inherits, `some none` one that is unset.
abbrev pub env_effect : String → Op → Option (Option String)
env_effect key (set_env name value) = if str_eq name key then some (some value) else none
env_effect key (unset_env name) = if str_eq name key then some none else none
env_effect key _ = none

abbrev pub or_else {ℓ} : {A : Type ℓ} → Option A → Option A → Option A
or_else none y = y
or_else (some x) y = some x

pub env_value : String → List Op → Option (Option String)
env_value key [] = none
env_value key (op ∷ ops) = or_else (env_value key ops) (env_effect key op)

or_else_assoc {ℓ} :
    {A : Type ℓ} (x y z : Option A) → or_else (or_else x y) z ≡ or_else x (or_else y z)
or_else_assoc none y z = refl
or_else_assoc (some x) y z = refl

or_else-none {ℓ} : {A : Type ℓ} (x : Option A) → or_else x none ≡ x
or_else-none none = refl
or_else-none (some x) = refl

env_value-append :
    (key : String) (xs ys : List Op)
    → env_value key (xs ++ ys) ≡ or_else (env_value key ys) (env_value key xs)
unfolding env_value
env_value-append key [] ys = elim (env_value key ys) as (λ v. v ≡ or_else v none) [
  | none ↦ refl
  | some v ↦ refl
]
env_value-append key (op ∷ xs) ys =
    rw (env_value-append key xs ys)
      (or_else_assoc (env_value key ys) (env_value key xs) (env_effect key op))

env_bind_each : (key : String) (paths : List String) → env_value key (bind_each paths) ≡ none
unfolding env_value
env_bind_each key [] = refl
env_bind_each key (path ∷ rest) = rw (env_bind_each key rest)

env_filesystem :
    (key : String) (home : Option String) (isolated rw_home : Bool)
    → env_value key (filesystem_ops home isolated rw_home) ≡ none
unfolding env_value
env_filesystem key none true rw_home = refl
env_filesystem key (some home) true true = refl
env_filesystem key (some home) true false = refl
env_filesystem key home false rw_home = refl

env_runtime :
    (key : String) (xdg socket : Option String) → env_value key (runtime_ops xdg socket) ≡ none
unfolding env_value
env_runtime key none socket = refl
env_runtime key (some xdg) none = refl
env_runtime key (some xdg) (some socket) = refl

env_pid : (key : String) (b : Bool) → env_value key (when b unshare_pid) ≡ none
unfolding env_value
env_pid key true = refl
env_pid key false = refl

env_ipc : (key : String) (b : Bool) → env_value key (when b unshare_ipc) ≡ none
unfolding env_value
env_ipc key true = refl
env_ipc key false = refl

env_net : (key : String) (b : Bool) → env_value key (when b unshare_net) ≡ none
unfolding env_value
env_net key true = refl
env_net key false = refl

abbrev pub bus_env : Bus → Option (Option String)
bus_env untouched = none
bus_env blocked = some none
bus_env (bound socket xdg) = some (some (dbus_addr xdg))

env_bus : (b : Bus) → env_value "DBUS_SESSION_BUS_ADDRESS" (bus_ops b) ≡ bus_env b
unfolding env_value
env_bus untouched = refl
env_bus blocked = refl
env_bus (bound socket xdg) = refl

env_bus_other :
    (key : String) (b : Bus)
    → str_eq "DBUS_SESSION_BUS_ADDRESS" key ≡ false
    → env_value key (bus_ops b) ≡ none
unfolding env_value
env_bus_other key untouched h = refl
env_bus_other key blocked h = rw h
env_bus_other key (bound socket xdg) h = rw h

-- The value of a variable in the whole sandbox, by those blocks that touch the environment.
env_blocks :
    (key : String) (host : Host) (comp : Displays) (sandbox : Option SandboxConfig)
    (proxy_socket : Option String)
    → env_value key (sandbox_ops host comp sandbox proxy_socket)
      ≡ or_else
          (or_else
            (or_else (env_value key last_ops) (env_value key (x11_ops comp.xwayland_display)))
            (env_value key (bus_ops (the_bus host proxy_socket))))
          (env_value key (wayland_ops host.xdg_runtime_dir comp.socket))
env_blocks key host comp sandbox proxy_socket = simp (
  env_value-append, env_filesystem, env_runtime, env_bind_each, env_pid, env_ipc, env_net,
  or_else-none,
)

-- The blocks at the three variables.
wayland_value :
    (display xdg socket : Option String)
    → or_else
        (or_else
          (or_else
            (env_value "WAYLAND_DISPLAY" last_ops)
            (env_value "WAYLAND_DISPLAY" (x11_ops display)))
          none)
        (env_value "WAYLAND_DISPLAY" (wayland_ops xdg socket))
      ≡ some (some (socket_or socket))
unfolding env_value
wayland_value none none socket = refl
wayland_value none (some xdg) socket = refl
wayland_value (some display) none socket = refl
wayland_value (some display) (some xdg) socket = refl

display_value :
    (display xdg socket : Option String)
    → or_else
        (or_else
          (or_else (env_value "DISPLAY" last_ops) (env_value "DISPLAY" (x11_ops display)))
          none)
        (env_value "DISPLAY" (wayland_ops xdg socket))
      ≡ some display
unfolding env_value
display_value none xdg socket = refl
display_value (some display) xdg socket = refl

bus_value :
    (display xdg socket : Option String) (v : Option (Option String))
    → or_else
        (or_else
          (or_else
            (env_value "DBUS_SESSION_BUS_ADDRESS" last_ops)
            (env_value "DBUS_SESSION_BUS_ADDRESS" (x11_ops display)))
          v)
        (env_value "DBUS_SESSION_BUS_ADDRESS" (wayland_ops xdg socket))
      ≡ v
unfolding env_value
bus_value none none socket v = or_else-none v
bus_value none (some xdg) socket v = or_else-none v
bus_value (some display) none socket v = or_else-none v
bus_value (some display) (some xdg) socket v = or_else-none v

-- The sandbox decides its displays for every configuration: WAYLAND_DISPLAY is the compositor's
-- socket (or wayland-0), and DISPLAY is Xwayland's display, or unset where there is none. The
-- address of the session bus is set, unset or inherited as the state of the bus says; in particular
-- it is inherited from the host wherever the runtime directory is not known.
pub sandbox_environment :
    (host : Host) (comp : Displays) (command : String) (sandbox : Option SandboxConfig)
    (proxy_socket : Option String)
    → (ops : List Op) × Reads (bwrap_words host comp command sandbox proxy_socket) ops command
      × (env_value "WAYLAND_DISPLAY" ops ≡ some (some (socket_or comp.socket)))
      × (env_value "DISPLAY" ops ≡ some comp.xwayland_display)
      × (env_value "DBUS_SESSION_BUS_ADDRESS" ops ≡ bus_env (the_bus host proxy_socket))
sandbox_environment host comp command sandbox proxy_socket = (
  sandbox_ops host comp sandbox proxy_socket,
  bwrap_words-Reads host comp command sandbox proxy_socket,
  rw (env_blocks, env_bus_other "WAYLAND_DISPLAY" (the_bus host proxy_socket) refl)
      (wayland_value comp.xwayland_display host.xdg_runtime_dir comp.socket),
  rw (env_blocks, env_bus_other "DISPLAY" (the_bus host proxy_socket) refl)
      (display_value comp.xwayland_display host.xdg_runtime_dir comp.socket),
  rw (env_blocks, env_bus (the_bus host proxy_socket))
      (bus_value comp.xwayland_display host.xdg_runtime_dir comp.socket
        (bus_env (the_bus host proxy_socket))),
)
