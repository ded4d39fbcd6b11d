-- ===== src/Sandbox/Words.antt =====
-- What `dlp_build_bwrap_args` (coder-dlp-compositor/src/sandbox_launcher.c) pushes, in order: a
-- function for each block of the code.
use coder_desktop_linux.Common.{
  ◌+◌, Bool, Option, none, some, List, [], ◌∷◌, ◌++◌, String, snprintf, path_max, is_empty,
  skip_first, if◌then◌else◌,
}
use coder_desktop_linux.Sandbox.Config.{SandboxConfig, Displays, Host, flag, present}

-- The home directory, where the file system is isolated.
unfoldable pub home_words : Option String → Bool → List String
home_words none bind_home_rw = []
home_words (some home) bind_home_rw =
    if bind_home_rw then "--bind" ∷ home ∷ home ∷ [] else "--tmpfs" ∷ home ∷ []

-- The root, the devices and `/tmp`.
unfoldable pub filesystem_words : Host → Option SandboxConfig → List String
filesystem_words host sandbox =
    if flag (λ c. c.isolate_filesystem) sandbox
    then "--ro-bind"
      ∷ "/"
      ∷ "/"
      ∷ "--dev"
      ∷ "/dev"
      ∷ "--dev-bind"
      ∷ "/dev/dri"
      ∷ "/dev/dri"
      ∷ "--bind"
      ∷ "/dev/shm"
      ∷ "/dev/shm"
      ∷ "--proc"
      ∷ "/proc"
      ∷ "--tmpfs"
      ∷ "/tmp"
      ∷ home_words host.home (flag (λ c. c.bind_home_rw) sandbox)
    else "--bind" ∷ "/" ∷ "/" ∷ "--dev" ∷ "/dev" ∷ "--dev-bind" ∷ "/dev/dri" ∷ "/dev/dri" ∷ "--bind"
      ∷ "/dev/shm" ∷ "/dev/shm" ∷ "--proc" ∷ "/proc" ∷ "--tmpfs" ∷ "/tmp" ∷ []

abbrev pub socket_path : String → String → String
socket_path xdg socket = snprintf path_max (xdg ∷ "/" ∷ socket ∷ [])

abbrev pub lock_path : String → String → String
lock_path xdg socket = snprintf path_max (xdg ∷ "/" ∷ socket ∷ ".lock" ∷ [])

-- The runtime directory, and the compositor's socket in it.
unfoldable pub runtime_words : Option String → Option String → List String
runtime_words none socket = []
runtime_words (some xdg) none = "--tmpfs" ∷ xdg ∷ []
runtime_words (some xdg) (some socket) =
    "--tmpfs"
    ∷ xdg
    ∷ "--bind"
    ∷ socket_path xdg socket
    ∷ socket_path xdg socket
    ∷ "--ro-bind"
    ∷ lock_path xdg socket
    ∷ lock_path xdg socket
    ∷ []

unfoldable pub workspace_words : Option SandboxConfig → List String
workspace_words none = []
workspace_words (some config) = elim config.workspace_path [
  | none ↦ []
  | some path ↦ if config.isolate_filesystem then "--bind" ∷ path ∷ path ∷ [] else []
]

-- The loop over the extra paths, and its guard.
unfoldable pub extra_loop : List String → List String
extra_loop [] = []
extra_loop (path ∷ rest) = "--bind" ∷ path ∷ path ∷ extra_loop rest

unfoldable pub extra_words : Option SandboxConfig → List String
extra_words none = []
extra_words (some config) = extra_loop (present config.extra_bind_paths)

unfoldable pub namespace_words : Option SandboxConfig → List String
namespace_words none = []
namespace_words (some config) =
    (if config.isolate_pid then "--unshare-pid" ∷ [] else [])
    ++ ((if config.isolate_ipc then "--unshare-ipc" ∷ [] else [])
        ++ elim config.network_namespace [ none ↦ [] | some name ↦ "--unshare-net" ∷ [] ])

abbrev pub socket_or : Option String → String
socket_or none = "wayland-0"
socket_or (some socket) = socket

unfoldable pub wayland_words : Option String → Option String → List String
wayland_words none socket = "--setenv" ∷ "WAYLAND_DISPLAY" ∷ socket_or socket ∷ []
wayland_words (some xdg) socket =
    "--setenv" ∷ "WAYLAND_DISPLAY" ∷ socket_or socket ∷ "--setenv" ∷ "XDG_RUNTIME_DIR" ∷ xdg ∷ []

abbrev pub dbus_path : String → String
dbus_path xdg = snprintf path_max (xdg ∷ "/bus" ∷ [])

abbrev pub dbus_addr : String → String
dbus_addr xdg = snprintf (path_max + 32) ("unix:path=" ∷ dbus_path xdg ∷ [])

abbrev bus_words : String → String → List String
bus_words bus xdg =
    "--bind" ∷ bus ∷ dbus_path xdg ∷ "--setenv" ∷ "DBUS_SESSION_BUS_ADDRESS" ∷ dbus_addr xdg ∷ []

-- The session bus: the proxy's socket, none at all (an empty name), or the host's own socket.
unfoldable pub dbus_words : Host → Option String → List String
dbus_words host proxy_socket = elim host.xdg_runtime_dir [
  | none ↦ []
  | some xdg ↦ elim proxy_socket [
    | none ↦ if host.exists (dbus_path xdg) then bus_words (dbus_path xdg) xdg else []
    | some socket ↦
        if is_empty socket
        then "--unsetenv" ∷ "DBUS_SESSION_BUS_ADDRESS" ∷ []
        else bus_words socket xdg
  ]
]

abbrev pub x11_socket : String → String
x11_socket display = snprintf path_max ("/tmp/.X11-unix/X" ∷ skip_first b':' display ∷ [])

-- The X11 display: Xwayland's, or none.
unfoldable pub x11_words : Option String → List String
x11_words (some display) =
    "--setenv"
    ∷ "DISPLAY"
    ∷ display
    ∷ "--bind"
    ∷ x11_socket display
    ∷ x11_socket display
    ∷ "--setenv"
    ∷ "ELECTRON_OZONE_PLATFORM_HINT"
    ∷ "wayland"
    ∷ "--setenv"
    ∷ "MOZ_ENABLE_WAYLAND"
    ∷ "1"
    ∷ []
x11_words none =
    "--unsetenv" ∷ "DISPLAY" ∷ "--setenv" ∷ "GDK_BACKEND" ∷ "wayland" ∷ "--setenv"
    ∷ "QT_QPA_PLATFORM" ∷ "wayland" ∷ "--setenv" ∷ "SDL_VIDEODRIVER" ∷ "wayland" ∷ []

unfoldable pub last_words : String → List String
last_words command =
    "--setenv" ∷ "ELECTRON_NO_SANDBOX" ∷ "1" ∷ "--die-with-parent" ∷ "--new-session" ∷ "--"
    ∷ "/bin/sh" ∷ "-c" ∷ command ∷ []

-- All blocks, in the order of the code.
unfoldable pub bwrap_words :
    Host → Displays → String → Option SandboxConfig → Option String → List String
bwrap_words host comp command sandbox proxy_socket =
    "bwrap"
    ∷ (filesystem_words host sandbox
        ++ (runtime_words host.xdg_runtime_dir comp.socket
            ++ (workspace_words sandbox
                ++ (extra_words sandbox
                    ++ (namespace_words sandbox
                        ++ (wayland_words host.xdg_runtime_dir comp.socket
                            ++ (dbus_words host proxy_socket
                                ++ (x11_words comp.xwayland_display ++ last_words command))))))))
