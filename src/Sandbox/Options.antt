-- ===== src/Sandbox/Options.antt =====
-- The options of bwrap that the launcher in coder-dlp-compositor/src/sandbox_launcher.c is to give, in their order.
use coder_desktop_linux.Common.{
  Bool, true, false, Option, none, some, List, [], ◌∷◌, ◌++◌, String, is_empty, if◌then◌else◌,
}
use coder_desktop_linux.Sandbox.Config.{SandboxConfig, Displays, Host, flag, present}
use coder_desktop_linux.Sandbox.Words.{
  socket_path, lock_path, socket_or, dbus_path, dbus_addr, x11_socket,
}
use coder_desktop_linux.Sandbox.Grammar.{
  Op, ro_bind, bind, dev_bind, dev, proc, tmpfs, unshare_pid, unshare_ipc, unshare_net, set_env,
  unset_env, die_with_parent, new_session,
}

abbrev shared : List Op
shared =
    dev "/dev"
    ∷ dev_bind "/dev/dri" "/dev/dri"
    ∷ bind "/dev/shm" "/dev/shm"
    ∷ proc "/proc"
    ∷ tmpfs "/tmp"
    ∷ []

abbrev pub home_ops : Option String → Bool → List Op
home_ops none rw_home = []
home_ops (some home) true = bind home home ∷ []
home_ops (some home) false = tmpfs home ∷ []

abbrev root_ops : Bool → List Op
root_ops true = ro_bind "/" "/" ∷ shared
root_ops false = bind "/" "/" ∷ shared

-- The home directory is touched in an isolated file system only.
abbrev pub filesystem_ops : Option String → Bool → Bool → List Op
filesystem_ops home true rw_home = root_ops true ++ home_ops home rw_home
filesystem_ops home false rw_home = root_ops false

abbrev pub runtime_ops : Option String → Option String → List Op
runtime_ops none socket = []
runtime_ops (some xdg) none = tmpfs xdg ∷ []
runtime_ops (some xdg) (some socket) =
    tmpfs xdg
    ∷ bind (socket_path xdg socket) (socket_path xdg socket)
    ∷ ro_bind (lock_path xdg socket) (lock_path xdg socket)
    ∷ []

abbrev pub bind_each : List String → List Op
bind_each [] = []
bind_each (path ∷ rest) = bind path path ∷ bind_each rest

-- The workspace of an isolated sandbox.
abbrev pub workspace : Option SandboxConfig → Option String
workspace none = none
workspace (some config) = if config.isolate_filesystem then config.workspace_path else none

abbrev pub optional : Option String → List String
optional none = []
optional (some path) = path ∷ []

abbrev pub extra_paths : Option SandboxConfig → List String
extra_paths none = []
extra_paths (some config) = present config.extra_bind_paths

abbrev network : Option SandboxConfig → Option String
network none = none
network (some config) = config.network_namespace

abbrev pub when : Bool → Op → List Op
when true op = op ∷ []
when false op = []

abbrev pub is_some : Option String → Bool
is_some none = false
is_some (some name) = true

abbrev pub namespace_ops : Option SandboxConfig → List Op
namespace_ops sandbox =
    when (flag (λ c. c.isolate_pid) sandbox) unshare_pid
    ++ (when (flag (λ c. c.isolate_ipc) sandbox) unshare_ipc
        ++ when (is_some (network sandbox)) unshare_net)

abbrev pub wayland_ops : Option String → Option String → List Op
wayland_ops none socket = set_env "WAYLAND_DISPLAY" (socket_or socket) ∷ []
wayland_ops (some xdg) socket =
    set_env "WAYLAND_DISPLAY" (socket_or socket) ∷ set_env "XDG_RUNTIME_DIR" xdg ∷ []

-- What a sandbox gets of the session bus.
pub data Bus : Type 0 where
  untouched blocked : Bus
  bound : String → String → Bus

-- The bus by the runtime directory, the proxy's socket and whether the host's bus is there.
abbrev pub bus : Option String → Option String → (String → Bool) → Bus
bus none proxy_socket exists = untouched
bus (some xdg) none exists = if exists (dbus_path xdg) then bound (dbus_path xdg) xdg else untouched
bus (some xdg) (some socket) exists = if is_empty socket then blocked else bound socket xdg

abbrev pub bus_ops : Bus → List Op
bus_ops untouched = []
bus_ops blocked = unset_env "DBUS_SESSION_BUS_ADDRESS" ∷ []
bus_ops (bound socket xdg) =
    bind socket (dbus_path xdg) ∷ set_env "DBUS_SESSION_BUS_ADDRESS" (dbus_addr xdg) ∷ []

abbrev pub x11_ops : Option String → List Op
x11_ops (some display) =
    set_env "DISPLAY" display
    ∷ bind (x11_socket display) (x11_socket display)
    ∷ set_env "ELECTRON_OZONE_PLATFORM_HINT" "wayland"
    ∷ set_env "MOZ_ENABLE_WAYLAND" "1"
    ∷ []
x11_ops none =
    unset_env "DISPLAY"
    ∷ set_env "GDK_BACKEND" "wayland"
    ∷ set_env "QT_QPA_PLATFORM" "wayland"
    ∷ set_env "SDL_VIDEODRIVER" "wayland"
    ∷ []

abbrev pub last_ops : List Op
last_ops = set_env "ELECTRON_NO_SANDBOX" "1" ∷ die_with_parent ∷ new_session ∷ []

abbrev pub the_bus : Host → Option String → Bus
the_bus host proxy_socket = bus host.xdg_runtime_dir proxy_socket host.exists

abbrev pub sandbox_ops : Host → Displays → Option SandboxConfig → Option String → List Op
sandbox_ops host comp sandbox proxy_socket =
    filesystem_ops host.home (flag (λ c. c.isolate_filesystem) sandbox)
      (flag (λ c. c.bind_home_rw) sandbox)
    ++ (runtime_ops host.xdg_runtime_dir comp.socket
        ++ (bind_each (optional (workspace sandbox))
            ++ (bind_each (extra_paths sandbox)
                ++ (namespace_ops sandbox
                    ++ (wayland_ops host.xdg_runtime_dir comp.socket
                        ++ (bus_ops (the_bus host proxy_socket)
                            ++ (x11_ops comp.xwayland_display ++ last_ops)))))))
