-- ===== src/Sandbox/Ops.antt =====
-- The command line of `dlp_build_bwrap_args` (coder-dlp-compositor/src/sandbox_launcher.c) as a
-- sequence of bwrap options: a description of what the sandbox is to be, block by block.
use coder_desktop_linux.Common.{
  ◌≡◌, refl, Bool, true, false, Option, none, some, List, [], ◌∷◌, ◌++◌, String, append_assoc,
  Bool-cases, inl, inr, arith, length,
}
use coder_desktop_linux.Sandbox.Config.{SandboxConfig, Displays, Host, flag, present}
use coder_desktop_linux.Sandbox.Words.{
  home_words, filesystem_words, runtime_words, workspace_words, extra_loop, extra_words,
  namespace_words, wayland_words, dbus_words, x11_words, last_words, bwrap_words,
}
use coder_desktop_linux.Sandbox.Grammar.{Op, print_ops, print_ops-append, parse, parse-print_ops}
use coder_desktop_linux.Sandbox.Options.{
  home_ops, filesystem_ops, runtime_ops, bind_each, workspace, optional, extra_paths, namespace_ops,
  wayland_ops, bus_ops, x11_ops, the_bus, sandbox_ops,
}

home_print :
    (home : Option String) (rw_home : Bool)
    → home_words home rw_home ≡ print_ops (home_ops home rw_home)
unfolding home_words
home_print none rw_home = refl
home_print (some home) true = refl
home_print (some home) false = refl

filesystem_print :
    (host : Host) (sandbox : Option SandboxConfig)
    → filesystem_words host sandbox
      ≡ print_ops (
          filesystem_ops host.home
            (flag (λ c. c.isolate_filesystem) sandbox)
            (flag (λ c. c.bind_home_rw) sandbox))
unfolding filesystem_words
filesystem_print host none = refl
filesystem_print host (some config) = elim (Bool-cases config.isolate_filesystem) [
  | inl isolated ↦ rw (isolated, home_print)
  | inr open_root ↦ rw open_root
]

runtime_print :
    (xdg socket : Option String) → runtime_words xdg socket ≡ print_ops (runtime_ops xdg socket)
unfolding runtime_words
runtime_print none socket = refl
runtime_print (some xdg) none = refl
runtime_print (some xdg) (some socket) = refl

extra_print : (paths : List String) → extra_loop paths ≡ print_ops (bind_each paths)
unfolding extra_loop
extra_print [] = refl
extra_print (path ∷ rest) = rw (extra_print rest)

workspace_print :
    (sandbox : Option SandboxConfig)
    → workspace_words sandbox ≡ print_ops (bind_each (optional (workspace sandbox)))
unfolding workspace_words
workspace_print none = refl
workspace_print (some config) = ground arith

extra_words_print :
    (sandbox : Option SandboxConfig)
    → extra_words sandbox ≡ print_ops (bind_each (extra_paths sandbox))
unfolding extra_words
extra_words_print none = refl
extra_words_print (some config) = extra_print (present config.extra_bind_paths)

namespace_print :
    (sandbox : Option SandboxConfig) → namespace_words sandbox ≡ print_ops (namespace_ops sandbox)
unfolding namespace_words
namespace_print none = refl
namespace_print (some config) = ground arith

wayland_print :
    (xdg socket : Option String) → wayland_words xdg socket ≡ print_ops (wayland_ops xdg socket)
unfolding wayland_words
wayland_print none socket = refl
wayland_print (some xdg) socket = refl

dbus_print :
    (host : Host) (proxy_socket : Option String)
    → dbus_words host proxy_socket ≡ print_ops (bus_ops (the_bus host proxy_socket))
unfolding dbus_words
dbus_print host proxy_socket = ground arith

x11_print : (display : Option String) → x11_words display ≡ print_ops (x11_ops display)
unfolding x11_words
x11_print none = refl
x11_print (some display) = refl

-- The words are the options of `sandbox_ops`, and behind them the command for the shell.
pub bwrap_words-print :
    (host : Host) (comp : Displays) (command : String) (sandbox : Option SandboxConfig)
    (proxy_socket : Option String)
    → bwrap_words host comp command sandbox proxy_socket
      ≡ "bwrap"
        ∷ (print_ops (sandbox_ops host comp sandbox proxy_socket)
            ++ "--" ∷ "/bin/sh" ∷ "-c" ∷ command ∷ [])
unfolding bwrap_words last_words
bwrap_words-print host comp command sandbox proxy_socket =
    rw
      (
        filesystem_print host sandbox,
        runtime_print host.xdg_runtime_dir comp.socket,
        workspace_print sandbox,
        extra_words_print sandbox,
        namespace_print sandbox,
        wayland_print host.xdg_runtime_dir comp.socket,
        dbus_print host proxy_socket,
        x11_print comp.xwayland_display,
      )
      (simp (print_ops-append, append_assoc))

-- The words are a call of bwrap whose options are `ops` and which runs `command` in a shell.
abbrev pub Reads : List String → List Op → String → Type 0
Reads words ops command =
    (rest : List String) × (words ≡ "bwrap" ∷ rest)
    × (parse (length ops) rest ≡ some (ops, "/bin/sh" ∷ "-c" ∷ command ∷ []))

-- The command line reads back as the options of `sandbox_ops` and the shell command, for every
-- configuration: no path, name or command is taken for an option of bwrap, also where it looks like one.
pub bwrap_words-Reads :
    (host : Host) (comp : Displays) (command : String) (sandbox : Option SandboxConfig)
    (proxy_socket : Option String)
    → Reads
        (bwrap_words host comp command sandbox proxy_socket)
        (sandbox_ops host comp sandbox proxy_socket)
        command
bwrap_words-Reads host comp command sandbox proxy_socket = (
  print_ops (sandbox_ops host comp sandbox proxy_socket) ++ "--" ∷ "/bin/sh" ∷ "-c" ∷ command ∷ [],
  bwrap_words-print host comp command sandbox proxy_socket,
  parse-print_ops (sandbox_ops host comp sandbox proxy_socket) ("/bin/sh" ∷ "-c" ∷ command ∷ []),
)
