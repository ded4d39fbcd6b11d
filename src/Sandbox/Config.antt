-- ===== src/Sandbox/Config.antt =====
-- `coder_dlp_sandbox_config` of coder-dlp-compositor/include/coder_dlp.h, the fields of the
-- compositor that the launcher reads, and what it asks of its environment.
use coder_desktop_linux.Common.{Bool, false, Option, none, some, List, [], ◌∷◌, String}

-- A pointer to a counted array is the entries up to the count; an entry may be null.
pub record SandboxConfig : Type 0 where
  pub workspace_path : Option String
  pub network_namespace : Option String
  pub isolate_pid : Bool
  pub isolate_ipc : Bool
  pub isolate_filesystem : Bool
  pub bind_home_rw : Bool
  pub extra_bind_paths : Option (List (Option String))
  pub filter_dbus : Bool
  pub dbus_talk_names : Option (List (Option String))

-- `socket`, and the answer of `coder_dlp_get_xwayland_display`.
pub record Displays : Type 0 where
  pub socket : Option String
  pub xwayland_display : Option String

-- `getenv` of two variables, and `access(path, F_OK) == 0`.
pub record Host : Type 0 where
  pub xdg_runtime_dir : Option String
  pub home : Option String
  pub exists : String → Bool

-- `sandbox && sandbox->field`.
abbrev pub flag : (SandboxConfig → Bool) → Option SandboxConfig → Bool
flag field none = false
flag field (some config) = field config

-- The entries of an array that are not null.
unfoldable pub present : Option (List (Option String)) → List String
present none = []
present (some []) = []
present (some (none ∷ rest)) = present (some rest)
present (some (some name ∷ rest)) = name ∷ present (some rest)
