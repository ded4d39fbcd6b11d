-- ===== src/Desktop/Launcher/State.antt =====
-- What app/src/dlp/DlpCompositorManager.cpp keeps, with the rows of app/src/apps/RunningAppModel.cpp, and
-- how an application is removed.
use coder_desktop_linux.Common.{
  ℕ, zero, suc, Bool, true, false, ◌||◌, Option, none, some, List, [], ◌∷◌, ◌++◌, get_elem?,
  if◌then◌else◌, ℤ, same_int, String, str_eq,
}
use coder_desktop_linux.Output.{Policy, Marking}

-- An entry of `m_entries` of the model.
pub record Entry : Type 0 where
  pub pid : ℤ
  pub app_name : String
  pub command : String

-- `RunningApp`; `address` is the compositor's, and `compositor` its policy and watermark, which the
-- pointer leads to.
pub record RunningApp : Type 0 where
  pub pid : ℤ
  pub app_name : String
  pub command : String
  pub address : ℕ
  pub compositor : Option Marking
  pub bwrap_exited : Bool

pub data LogLevel : Type 0 where
  log_debug log_info log_error : LogLevel

-- The fields of the manager, and `m_entries` of its model.
pub record Launcher : Type 0 where
  pub apps : List RunningApp
  pub entries : List Entry
  pub log_level : LogLevel
  pub current_policy : Policy
  pub watermark_identity : List ℕ

-- What the manager asks of the library and of the system, and the signals that it emits.
pub data LauncherCall : Type 0 where
  set_log_callback : ℕ → LauncherCall
  set_output_title : ℕ → String → LauncherCall
  destroy_compositor : ℕ → LauncherCall
  sigterm : ℤ → LauncherCall
  error_occurred : String → LauncherCall
  app_count_changed running_changed count_changed : LauncherCall

-- `setLogLevel`.
unfoldable pub set_log_level : String → Launcher → Launcher
set_log_level level s = record s {
  log_level =
      if str_eq level "trace" || str_eq level "debug"
      then log_debug
      else if str_eq level "info"
      then log_info
      else log_error;
}

-- `RunningAppModel::addApp`, `removeApp` and `clear`.
unfoldable pub add_entry : Entry → List Entry → List Entry × List LauncherCall
add_entry e entries = (entries ++ e ∷ [], count_changed ∷ [])

unfoldable pub without_pid : ℤ → List Entry → List Entry
without_pid pid [] = []
without_pid pid (e ∷ es) =
    let later = without_pid pid es in if same_int e.pid pid then es else e ∷ later

unfoldable pub has_pid : ℤ → List Entry → Bool
has_pid pid [] = false
has_pid pid (e ∷ es) = same_int e.pid pid || has_pid pid es

unfoldable pub remove_entry : ℤ → List Entry → List Entry × List LauncherCall
remove_entry pid entries =
    (without_pid pid entries, if has_pid pid entries then count_changed ∷ [] else [])

unfoldable pub clear_entries : List Entry → List Entry × List LauncherCall
clear_entries [] = ([], [])
clear_entries (e ∷ es) = ([], count_changed ∷ [])

abbrev pub remove_at {ℓ} : {A : Type ℓ} → ℕ → List A → List A
remove_at i [] = []
remove_at zero (x ∷ xs) = xs
remove_at (suc i) (x ∷ xs) = x ∷ remove_at i xs

abbrev pub no_apps {ℓ} : {A : Type ℓ} → List A → Bool
no_apps [] = true
no_apps (x ∷ xs) = false

abbrev pub destroy_if : Option Marking → ℕ → List LauncherCall
destroy_if none address = []
destroy_if (some marking) address = destroy_compositor address ∷ []

-- `removeApp` of the manager, at an index in range.
unfoldable pub remove_found : ℕ → RunningApp → Launcher → Launcher × List LauncherCall
remove_found i app s =
    let apps = remove_at i s.apps in
    let (entries, changes) = remove_entry app.pid s.entries in
    (
      record s { apps = apps; entries = entries },
      destroy_if app.compositor app.address
          ++ (changes ++ app_count_changed ∷ (if no_apps apps then running_changed ∷ [] else [])),
    )

unfoldable pub remove_app : ℕ → Launcher → Launcher × List LauncherCall
remove_app i s = elim (get_elem? s.apps i) [ none ↦ (s, []) | some app ↦ remove_found i app s ]
