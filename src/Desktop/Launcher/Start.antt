-- ===== src/Desktop/Launcher/Start.antt =====
-- `launchApp` of app/src/dlp/DlpCompositorManager.cpp.
use coder_desktop_linux.Common.{
  ℕ, Bool, true, false, Option, none, some, List, [], ◌∷◌, ◌++◌, map, replicate, if◌then◌else◌, ℤ,
  negsuc, is_nonneg, String, is_empty, concat, ◌>>=◌,
}
use coder_desktop_linux.Output.{Policy, Marking, set_policy, set_watermark_identity}
use coder_desktop_linux.Sandbox.Config.{SandboxConfig}
use coder_desktop_linux.Desktop.Launcher.State.{
  Launcher, LauncherCall, set_log_callback, set_output_title, destroy_compositor, error_occurred,
  app_count_changed, running_changed, add_entry, no_apps,
}

-- The arguments of `launchApp`.
pub record LaunchRequest : Type 0 where
  pub command : String
  pub app_name : String
  pub workspace_path : String
  pub isolate_pid : Bool
  pub isolate_ipc : Bool
  pub isolate_network : Bool
  pub isolate_filesystem : Bool
  pub bind_home_rw : Bool
  pub extra_bind_paths : List String
  pub filter_dbus : Bool
  pub dbus_allowed_names : List String

abbrev pub pointers : List String → Option (List (Option String))
pointers [] = none
pointers (s ∷ ss) = some (map (λ t. some t) (s ∷ ss))

-- The configuration that `launchApp` hands to the library.
unfoldable pub sandbox_of : LaunchRequest → SandboxConfig
sandbox_of r = record {
  workspace_path = if is_empty r.workspace_path then none else some r.workspace_path;
  network_namespace = if r.isolate_network then some "dlp_net" else none;
  isolate_pid = r.isolate_pid;
  isolate_ipc = r.isolate_ipc;
  isolate_filesystem = r.isolate_filesystem;
  bind_home_rw = r.bind_home_rw;
  extra_bind_paths = pointers r.extra_bind_paths;
  filter_dbus = r.filter_dbus;
  dbus_talk_names = pointers r.dbus_allowed_names;
}

-- What `calloc` leaves in a compositor that was just created.
abbrev pub fresh_marking : Marking
fresh_marking = record {
  policy = record {
    clipboard_block_outgoing = false;
    clipboard_block_incoming = false;
    screenshot_block = false;
    file_sandbox = false;
    network_sandbox = false;
    watermark_enabled = false;
  };
  watermark = record { enabled = false; fingerprint = replicate 32 0; has_identity = false };
}

-- The answers to one `launchApp`: `coder_dlp_is_available`, the address that `coder_dlp_create`
-- gives, and `coder_dlp_launch_app` of a command in a sandbox. `scratch` is the memory that the
-- library finds where it fingerprints an identity.
pub record LaunchAnswers : Type 0 where
  pub is_available : Bool
  pub created : Option ℕ
  pub launch : String → SandboxConfig → ℤ
  pub scratch : List ℕ

abbrev pub shown_name : LaunchRequest → String
shown_name r = if is_empty r.app_name then r.command else r.app_name

abbrev pub no_bytes : List ℕ → Bool
no_bytes [] = true
no_bytes (b ∷ bs) = false

-- The policy and the identity that a new compositor is given.
unfoldable pub prepare : List ℕ → Policy → List ℕ → Option (Option Marking)
prepare scratch policy identity =
    let comp = set_policy (some fresh_marking) (some policy) in
    if no_bytes identity then some comp else set_watermark_identity scratch comp (some identity)

-- The rest of `launchApp`, with the compositor ready.
unfoldable pub launch_in :
    LaunchAnswers → LaunchRequest → ℕ → Option Marking → Launcher → ℤ × Launcher × List LauncherCall
launch_in a r address comp s =
    let opened =
      set_log_callback address
      ∷ set_output_title address (concat ("Coder Secure - " ∷ shown_name r ∷ []))
      ∷ [] in
    let pid = a.launch r.command (sandbox_of r) in
    let (entries, changes) =
      add_entry (record { pid = pid; app_name = shown_name r; command = r.command }) s.entries in
    if is_nonneg pid
    then (
      pid,
      record s {
        apps =
            s.apps
            ++ record {
              pid = pid;
              app_name = shown_name r;
              command = r.command;
              address = address;
              compositor = comp;
              bwrap_exited = false;
            }
              ∷ [];
        entries = entries;
      },
      opened
          ++ (changes ++ app_count_changed ∷ (if no_apps s.apps then running_changed ∷ [] else [])),
    )
    else (
      negsuc 0,
      s,
      opened
          ++ error_occurred (concat ("Failed to launch app: " ∷ r.command ∷ []))
            ∷ destroy_compositor address
            ∷ [],
    )

-- `launchApp`: the process id or -1.
unfoldable pub launch_app :
    LaunchAnswers → LaunchRequest → Launcher → Option (ℤ × Launcher × List LauncherCall)
launch_app a r s =
    if a.is_available
    then elim a.created [
      | none ↦ some (
        negsuc 0,
        s,
        error_occurred (concat ("Failed to create DLP compositor for: " ∷ r.command ∷ [])) ∷ [],
      )
      | some address ↦ do
        comp ← prepare a.scratch s.current_policy s.watermark_identity
        some (launch_in a r address comp s)
    ]
    else some (negsuc 0, s, error_occurred "DLP compositor requires a Wayland or X11 session" ∷ [])
