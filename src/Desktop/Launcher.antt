-- ===== src/Desktop/Launcher.antt =====
-- app/src/dlp/DlpCompositorManager.cpp and app/src/apps/RunningAppModel.cpp: the launched applications,
-- a compositor for each, and the rows that the user interface shows.
--
-- The outer `none` is an access out of bounds in the library that the manager calls.
mod State
mod Start
pub mod Marks
pub mod Enforced
pub mod Frames
pub mod EntryRows
pub mod Tracks
use coder_desktop_linux.Common.{
  ℕ, zero, suc, ◌+◌, Bool, true, false, not, ◌&&◌, ◌||◌, Option, none, some, List, [], ◌∷◌, ◌++◌,
  map, length, get_elem?, set, replicate, ◌==◌, if◌then◌else◌, ℤ, pos, negsuc, is_pos, is_nonneg,
  same_int, String, str_eq, is_empty, concat, ◌>>=◌,
}
use coder_desktop_linux.Watermark.{WatermarkState}
use coder_desktop_linux.Output.{Policy, Marking, set_policy, set_watermark_identity}
use coder_desktop_linux.Clients.{Clients, get_client_count}
use coder_desktop_linux.Sandbox.Config.{SandboxConfig}
unfoldable pub use coder_desktop_linux.Desktop.Launcher.State.*
unfoldable pub use coder_desktop_linux.Desktop.Launcher.Start.*

-- `stopApp`: the apps from index `i` on.
unfoldable pub find_pid : ℤ → ℕ → List RunningApp → Option ℕ
find_pid pid i [] = none
find_pid pid i (app ∷ apps) =
    let later = find_pid pid (i + 1) apps in if same_int app.pid pid then some i else later

unfoldable pub stop_app : ℤ → Launcher → Launcher × List LauncherCall
stop_app pid s = elim (find_pid pid 0 s.apps) [
  | none ↦ (s, [])
  | some i ↦ let (s', calls) = remove_app i s in (s', sigterm pid ∷ calls)
]

-- `stopAll`.
unfoldable pub signals_all : List RunningApp → List LauncherCall
signals_all [] = []
signals_all (app ∷ apps) =
    let later = signals_all apps in if is_pos app.pid then sigterm app.pid ∷ later else later

unfoldable pub destroys_all : List RunningApp → List LauncherCall
destroys_all [] = []
destroys_all (app ∷ apps) = destroy_if app.compositor app.address ++ destroys_all apps

unfoldable pub stop_all : Launcher → Launcher × List LauncherCall
stop_all s =
    let (entries, changes) = clear_entries s.entries in
    (
      record s { apps = []; entries = entries },
      signals_all s.apps
          ++ (destroys_all s.apps
              ++ (changes
                  ++ (if no_apps s.apps then [] else app_count_changed ∷ running_changed ∷ []))),
    )

-- `updatePolicy`.
unfoldable pub update_policy : Policy → Launcher → Launcher
update_policy policy s = record s {
  current_policy = policy;
  apps =
      map
        (λ (app : RunningApp). record app { compositor = set_policy app.compositor (some policy) })
        s.apps;
}

-- `setWatermarkIdentity`, of the bytes that `toUtf8` gives.
unfoldable pub identify_apps : List ℕ → List ℕ → List RunningApp → Option (List RunningApp)
identify_apps scratch identity [] = some []
identify_apps scratch identity (app ∷ apps) = do
  comp ← set_watermark_identity scratch app.compositor (some identity)
  rest ← identify_apps scratch identity apps
  some (record app { compositor = comp } ∷ rest)

unfoldable pub set_identity_of : List ℕ → List ℕ → Launcher → Option Launcher
set_identity_of scratch identity s = do
  apps ← identify_apps scratch identity s.apps
  some (record s { apps = apps; watermark_identity = identity })

-- One round of `checkChildProcesses`, at the app of an index. `exited` says whether `waitpid`
-- collects a child, `clients` gives the clients of a compositor.
unfoldable pub check_app :
    (exited : ℤ → Bool) → (clients : ℕ → Clients) → ℕ → Launcher → Launcher × List LauncherCall
check_app exited clients i s = elim (get_elem? s.apps i) [
  | none ↦ (s, [])
  | some app ↦
      let app' : RunningApp = record app { bwrap_exited = exited app.pid || app.bwrap_exited } in
      let s' : Launcher = record s { apps = set s.apps i app' } in
      if app'.bwrap_exited && get_client_count (some (clients app.address)) == 0
      then remove_app i s'
      else (s', [])
]

-- The rounds from the last index down; `n` are left.
unfoldable pub check_apps :
    (exited : ℤ → Bool) → (clients : ℕ → Clients) → ℕ → Launcher → Launcher × List LauncherCall
check_apps exited clients zero s = (s, [])
check_apps exited clients (suc i) s =
    let (s', calls) = check_app exited clients i s in
    let (s'', more) = check_apps exited clients i s' in (s'', calls ++ more)

unfoldable pub check_child_processes :
    (exited : ℤ → Bool) → (clients : ℕ → Clients) → Launcher → Launcher × List LauncherCall
check_child_processes exited clients s = check_apps exited clients (length s.apps) s

-- What the application and the timers ask of the manager.
pub data LauncherEvent : Type 0 where
  launches : LaunchAnswers → LaunchRequest → LauncherEvent
  stops : ℤ → LauncherEvent
  stops_all : LauncherEvent
  policy_changes : Policy → LauncherEvent
  identity_changes : (scratch identity : List ℕ) → LauncherEvent
  level_changes : String → LauncherEvent
  monitor_ticks : (exited : ℤ → Bool) → (clients : ℕ → Clients) → LauncherEvent

unfoldable pub launcher_step : LauncherEvent → Launcher → Option (Launcher × List LauncherCall)
launcher_step (launches a r) s = do (pid, s', calls) ← launch_app a r s; some (s', calls)
launcher_step (stops pid) s = some (stop_app pid s)
launcher_step stops_all s = some (stop_all s)
launcher_step (policy_changes policy) s = some (update_policy policy s, [])
launcher_step (identity_changes scratch identity) s = do
  s' ← set_identity_of scratch identity s
  some (s', [])
launcher_step (level_changes level) s = some (set_log_level level s, [])
launcher_step (monitor_ticks exited clients) s = some (check_child_processes exited clients s)

unfoldable pub launcher_run : List LauncherEvent → Launcher → Option (Launcher × List LauncherCall)
launcher_run [] s = some (s, [])
launcher_run (e ∷ es) s = do
  (s', calls) ← launcher_step e s
  (s'', more) ← launcher_run es s'
  some (s'', calls ++ more)
