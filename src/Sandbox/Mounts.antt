-- ===== src/Sandbox/Mounts.antt =====
-- The mounts in the command line of coder-dlp-compositor/src/sandbox_launcher.c: which paths are
-- writable in an isolated sandbox, and what stands at the path of the session bus.
use coder_desktop_linux.Common.{
  All-append, ◌≡◌, refl, Bool, true, false, Option, none, some, List, [], ◌∷◌, ◌++◌, String,
  if◌then◌else◌, arith, str_eq, eq_refl, All, concat, ◌||◌, ◌==◌, ◌∙◌, inl, inr, Option-cases,
}
use mathlib.Core.List.{Memᴰ}
use Prim.Native.Char.{code}
use coder_desktop_linux.Sandbox.Config.{SandboxConfig, Displays, Host, flag, present}
use coder_desktop_linux.Sandbox.Words.{socket_path, dbus_path, dbus_addr, x11_socket, bwrap_words}
use coder_desktop_linux.Sandbox.Grammar.{
  Op, set_env, ro_bind, bind, dev_bind, dev, proc, tmpfs, unshare_pid, unshare_ipc, unshare_net,
}
use coder_desktop_linux.Sandbox.Ops.{Reads, bwrap_words-Reads}
use coder_desktop_linux.Sandbox.Options.{
  untouched, blocked, bound, sandbox_ops, Bus, the_bus, bus_ops, filesystem_ops, home_ops,
  runtime_ops, bind_each, optional, workspace, extra_paths, namespace_ops, when, is_some,
  wayland_ops, x11_ops, last_ops,
}

-- Why the sandbox of `config` may write to a path of the host.
pub data Granted (host : Host) (comp : Displays) (config : SandboxConfig)
    (proxy_socket : Option String) (path : String) : Type 0 where
  graphics : path ≡ "/dev/dri" → Granted host comp config proxy_socket path
  shared_memory : path ≡ "/dev/shm" → Granted host comp config proxy_socket path
  home :
      host.home ≡ some path
      → config.bind_home_rw ≡ true
      → Granted host comp config proxy_socket path
  compositor :
      (xdg socket : String)
      → host.xdg_runtime_dir ≡ some xdg
      → comp.socket ≡ some socket
      → path ≡ socket_path xdg socket
      → Granted host comp config proxy_socket path
  own_workspace : config.workspace_path ≡ some path → Granted host comp config proxy_socket path
  extra : Memᴰ path (present config.extra_bind_paths) → Granted host comp config proxy_socket path
  session_bus :
      (xdg : String)
      → the_bus host proxy_socket ≡ bound path xdg
      → Granted host comp config proxy_socket path
  xwayland :
      (display : String)
      → comp.xwayland_display ≡ some display
      → path ≡ x11_socket display
      → Granted host comp config proxy_socket path

-- A read-write bind, with access to devices or not, has its source among the `P`.
abbrev pub Binds : (String → Type 0) → Op → Type 0
Binds P (bind src dst) = P src
Binds P (dev_bind src dst) = P src
Binds P _ = Unit {0}

Binds-bind_each :
    (P : String → Type 0) (paths : List String)
    → ((path : String) → Memᴰ path paths → P path)
    → All (Binds P) (bind_each paths)
Binds-bind_each P [] h = tt
Binds-bind_each P (path ∷ rest) h =
    (h path (Memᴰ.head refl), Binds-bind_each P rest (λ p m. h p (Memᴰ.tail m)))

Binds-when :
    (P : String → Type 0) (b : Bool)
    → All (Binds P) (when b unshare_pid)
      × All (Binds P) (when b unshare_ipc)
      × All (Binds P) (when b unshare_net)
Binds-when P true = ((tt, tt), (tt, tt), (tt, tt))
Binds-when P false = (tt, tt, tt)

module _ (host : Host) (comp : Displays) (config : SandboxConfig)
    (proxy_socket : Option String) where
  abbrev Grant : String → Type 0
  Grant = Granted host comp config proxy_socket

  home_granted :
      (o : Option String) (rw_home : Bool)
      → host.home ≡ o
      → config.bind_home_rw ≡ rw_home
      → All (Binds Grant) (home_ops o rw_home)
  home_granted none rw_home e f = tt
  home_granted (some path) true e f = (Granted.home e f, tt)
  home_granted (some path) false e f = (tt, tt)

  runtime_granted :
      (xdg socket : Option String)
      → host.xdg_runtime_dir ≡ xdg
      → comp.socket ≡ socket
      → All (Binds Grant) (runtime_ops xdg socket)
  runtime_granted none socket e f = tt
  runtime_granted (some xdg) none e f = (tt, tt)
  runtime_granted (some xdg) (some socket) e f =
      (tt, (Granted.compositor xdg socket e f refl, (tt, tt)))

  filesystem_granted :
      (isolated : Bool)
      → isolated ≡ true
      → All (Binds Grant) (filesystem_ops host.home isolated config.bind_home_rw)
  filesystem_granted false e = absurd (ground arith)
  filesystem_granted true e = (
    tt,
    (
      tt,
      (
        Granted.graphics refl,
        (
          Granted.shared_memory refl,
          (tt, (tt, home_granted host.home config.bind_home_rw refl refl)),
        ),
      ),
    ),
  )

  workspace_granted :
      (isolated : Bool) (path : Option String)
      → config.workspace_path ≡ path
      → All (Binds Grant) (bind_each (optional (if isolated then path else none)))
  workspace_granted false path e = tt
  workspace_granted true none e = tt
  workspace_granted true (some path) e = (Granted.own_workspace e, tt)

  wayland_granted : (xdg socket : Option String) → All (Binds Grant) (wayland_ops xdg socket)
  wayland_granted none socket = (tt, tt)
  wayland_granted (some xdg) socket = (tt, (tt, tt))

  bus_granted : (b : Bus) → the_bus host proxy_socket ≡ b → All (Binds Grant) (bus_ops b)
  bus_granted untouched e = tt
  bus_granted blocked e = (tt, tt)
  bus_granted (bound socket xdg) e = (Granted.session_bus xdg e, (tt, tt))

  x11_granted :
      (display : Option String)
      → comp.xwayland_display ≡ display
      → All (Binds Grant) (x11_ops display)
  x11_granted none e = (tt, (tt, (tt, (tt, tt))))
  x11_granted (some display) e = (tt, (Granted.xwayland display e refl, (tt, (tt, tt))))

  -- In a sandbox with an isolated file system every path that is bound for writing, with access to
  -- devices or without, is there for one of the reasons of `Granted`.
  pub isolated-Binds :
      (command : String)
      → config.isolate_filesystem ≡ true
      → (ops : List Op) × Reads
          (bwrap_words host comp command (some config) proxy_socket)
          ops
          command
        × All (Binds (Granted host comp config proxy_socket)) ops
  isolated-Binds command isolated = (
    sandbox_ops host comp (some config) proxy_socket,
    bwrap_words-Reads host comp command (some config) proxy_socket,
    All-append _ (filesystem_ops host.home config.isolate_filesystem config.bind_home_rw) _
        (filesystem_granted config.isolate_filesystem isolated)
        (All-append _ (runtime_ops host.xdg_runtime_dir comp.socket) _
          (runtime_granted host.xdg_runtime_dir comp.socket refl refl)
          (All-append _ (bind_each (optional (workspace (some config)))) _
            (workspace_granted config.isolate_filesystem config.workspace_path refl)
            (All-append _ (bind_each (present config.extra_bind_paths)) _
              (Binds-bind_each Grant (present config.extra_bind_paths) (λ path m. Granted.extra m))
              (All-append _ (namespace_ops (some config)) _
                (All-append _ (when config.isolate_pid unshare_pid) _
                  (Binds-when Grant config.isolate_pid).0
                  (All-append _ (when config.isolate_ipc unshare_ipc) _
                    (Binds-when Grant config.isolate_ipc).1
                    (Binds-when Grant (is_some config.network_namespace)).2))
                (All-append _ (wayland_ops host.xdg_runtime_dir comp.socket) _
                  (wayland_granted host.xdg_runtime_dir comp.socket)
                  (All-append _ (bus_ops (the_bus host proxy_socket)) _
                    (bus_granted (the_bus host proxy_socket) refl)
                    (All-append _ (x11_ops comp.xwayland_display) _
                      (x11_granted comp.xwayland_display refl) (tt, (tt, (tt, tt)))))))))),
  )

unfoldable pub begins_with : (start s : String) → Bool
begins_with String.[] s = true
begins_with (String.◌∷◌ p start) String.[] = false
begins_with (String.◌∷◌ p start) (String.◌∷◌ c s) =
    let rest = begins_with start s in if code p == code c then rest else false

-- A mount at `dst` is over `path`: at it, or at a directory above it. Paths are taken as they are
-- written, without symbolic links.
unfoldable pub is_over : (dst path : String) → Bool
unfolding begins_with
is_over dst path = str_eq dst path || (str_eq dst "/" || begins_with (concat (dst ∷ "/" ∷ [])) path)

-- Options are carried out in order: the last mount over a path is the one that shows.
abbrev pub mount_effect : String → Op → Option Op
mount_effect path (ro_bind src dst) = if is_over dst path then some (ro_bind src dst) else none
mount_effect path (bind src dst) = if is_over dst path then some (bind src dst) else none
mount_effect path (dev_bind src dst) = if is_over dst path then some (dev_bind src dst) else none
mount_effect path (dev dst) = if is_over dst path then some (dev dst) else none
mount_effect path (proc dst) = if is_over dst path then some (proc dst) else none
mount_effect path (tmpfs dst) = if is_over dst path then some (tmpfs dst) else none
mount_effect path _ = none

pub mount_at : String → List Op → Option Op
mount_at path [] = none
mount_at path (op ∷ ops) = elim (mount_at path ops) [
  | none ↦ mount_effect path op
  | some m ↦ some m
]

mount_at-append_some :
    (path : String) (xs ys : List Op) (m : Op)
    → mount_at path ys ≡ some m
    → mount_at path (xs ++ ys) ≡ some m
unfolding mount_at
mount_at-append_some path [] ys m h = h
mount_at-append_some path (op ∷ xs) ys m h = rw (mount_at-append_some path xs ys m h)

is_over_refl : (path : String) → is_over path path ≡ true
unfolding is_over
is_over_refl path = rw eq_refl refl

mount_at-skip :
    (path : String) (op : Op) (ops : List Op)
    → mount_effect path op ≡ none
    → mount_at path (op ∷ ops) ≡ mount_at path ops
unfolding mount_at
mount_at-skip path op ops e = elim (Option-cases (mount_at path ops)) [
  | inl nothing ↦ rw (nothing, mount_at) e
  | inr (m, shown) ↦ rw (shown, mount_at) refl
]

mount_at-here :
    (path : String) (op : Op) (ops : List Op)
    → mount_at path ops ≡ none
    → mount_at path (op ∷ ops) ≡ mount_effect path op
unfolding mount_at
mount_at-here path op ops e = rw e refl

-- The mounts of the bus and of Xwayland, at any two paths.
bind_shown :
    (socket x p address display : String)
    → is_over x p ≡ false
    → mount_at p (
        bind socket p
        ∷ set_env "DBUS_SESSION_BUS_ADDRESS" address
        ∷ set_env "DISPLAY" display
        ∷ bind x x
        ∷ set_env "ELECTRON_OZONE_PLATFORM_HINT" "wayland"
        ∷ set_env "MOZ_ENABLE_WAYLAND" "1"
        ∷ last_ops)
      ≡ some (bind socket p)
unfolding mount_at
bind_shown socket x p address display apart =
    let hints =
      set_env "ELECTRON_OZONE_PLATFORM_HINT" "wayland"
      ∷ set_env "MOZ_ENABLE_WAYLAND" "1"
      ∷ last_ops in
    let shown = set_env "DISPLAY" display ∷ bind x x ∷ hints in
    mount_at-here p (bind socket p) (set_env "DBUS_SESSION_BUS_ADDRESS" address ∷ shown) (
      mount_at-skip p (set_env "DBUS_SESSION_BUS_ADDRESS" address) shown refl
      ∙ mount_at-skip p (set_env "DISPLAY" display) (bind x x ∷ hints) refl
      ∙ mount_at-here p (bind x x) hints no_more
      ∙ kept_out (is_over x p) apart)
    ∙ kept_in (is_over p p) (is_over_refl p)
  where
    no_more :
        mount_at p (
          set_env "ELECTRON_OZONE_PLATFORM_HINT" "wayland"
          ∷ set_env "MOZ_ENABLE_WAYLAND" "1"
          ∷ last_ops)
        ≡ none
    no_more = refl

    kept_out : (b : Bool) → b ≡ false → (if b then some (bind x x) else none) ≡ none
    kept_out b e = rw e refl

    kept_in :
        (b : Bool) → b ≡ true → (if b then some (bind socket p) else none) ≡ some (bind socket p)
    kept_in b e = rw e refl

bus_mount :
    (socket xdg : String) (display : Option String)
    → ((d : String) → display ≡ some d → is_over (x11_socket d) (dbus_path xdg) ≡ false)
    → mount_at (dbus_path xdg) (bus_ops (bound socket xdg) ++ (x11_ops display ++ last_ops))
      ≡ some (bind socket (dbus_path xdg))
unfolding mount_at
bus_mount socket xdg none apart = rw is_over_refl refl
bus_mount socket xdg (some d) apart =
    bind_shown socket (x11_socket d) (dbus_path xdg) (dbus_addr xdg) d (apart d refl)

-- Where the bus is bound to a socket, the last mount at the path of the bus or at a directory above it
-- is that bind: no empty directory, workspace or path of the configuration is mounted over it later, if
-- the socket of Xwayland is neither that path nor above it.
pub session_bus_mount :
    (host : Host) (comp : Displays) (command : String) (sandbox : Option SandboxConfig)
    (proxy_socket : Option String) (socket xdg : String)
    → the_bus host proxy_socket ≡ bound socket xdg
    → ((d : String)
        → comp.xwayland_display ≡ some d
        → is_over (x11_socket d) (dbus_path xdg) ≡ false)
    → (ops : List Op) × Reads (bwrap_words host comp command sandbox proxy_socket) ops command
      × (mount_at (dbus_path xdg) ops ≡ some (bind socket (dbus_path xdg)))
session_bus_mount host comp command sandbox proxy_socket socket xdg b apart = (
  sandbox_ops host comp sandbox proxy_socket,
  bwrap_words-Reads host comp command sandbox proxy_socket,
  past
      (filesystem_ops host.home (flag (λ c. c.isolate_filesystem) sandbox)
        (flag (λ c. c.bind_home_rw) sandbox))
      _
      (past (runtime_ops host.xdg_runtime_dir comp.socket) _ (
        past (bind_each (optional (workspace sandbox))) _ (
          past (bind_each (extra_paths sandbox)) _ (
            past (namespace_ops sandbox) _ (
              past (wayland_ops host.xdg_runtime_dir comp.socket) _
                (rw b (bus_mount socket xdg comp.xwayland_display apart))))))),
)
  where
    past :
        (xs ys : List Op)
        → mount_at (dbus_path xdg) ys ≡ some (bind socket (dbus_path xdg))
        → mount_at (dbus_path xdg) (xs ++ ys) ≡ some (bind socket (dbus_path xdg))
    past xs ys h = mount_at-append_some (dbus_path xdg) xs ys (bind socket (dbus_path xdg)) h
