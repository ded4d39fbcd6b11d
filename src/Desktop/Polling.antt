-- ===== src/Desktop/Polling.antt =====
-- app/src/api/PollingController.cpp over the models of app/src/models: the polls for workspaces and
-- tasks, the notifications on what changed, and the cache on disk.
pub mod Quiet
use coder_desktop_linux.Common.{
  ℕ, ◌*◌, Bool, true, false, not, ◌&&◌, ◌||◌, Option, none, some, List, [], ◌∷◌, ◌++◌, ltb, ◌==◌,
  if◌then◌else◌, ℤ, pos, negsuc, same_int, String, str_eq, is_empty, concat,
}
use coder_desktop_linux.Desktop.Rows.{set_rows}

-- `WorkspaceInfo` and `TaskInfo`, as far as they are compared and shown; `details` is the rest.
pub record WorkspaceInfo : Type 0 where
  pub id : String
  pub name : String
  pub status : ℤ
  pub details : String

pub record TaskInfo : Type 0 where
  pub id : String
  pub name : String
  pub display_name : String
  pub status : ℤ
  pub current_state : ℤ
  pub details : String

-- The arguments of `notify`.
pub record Notification : Type 0 where
  pub title : String
  pub message : String
  pub category : String

-- A model and its file in the cache of the deployment in use; `loading` and `error` are what the model shows.
pub record Model (A : Type 0) : Type 0 where
  pub rows : List A
  pub loading : Bool
  pub error : String
  pub file : Option (List A)

pub record Polling : Type 0 where
  pub refresh_interval_sec : ℕ
  pub first_fetch : Bool
  pub timer_active : Bool
  pub notifications_enabled : Bool
  pub disable_data_cache : Bool
  pub workspaces : Model WorkspaceInfo
  pub tasks : Model TaskInfo

pub data PollingCall : Type 0 where
  fetch_workspaces fetch_tasks polling_changed refresh_interval_changed : PollingCall
  set_interval : (milliseconds : ℕ) → PollingCall
  notify : Notification → PollingCall

-- `std::clamp` to the range of the interval.
unfoldable pub clamp_interval : ℤ → ℕ
clamp_interval (pos n) = if ltb n 5 then 5 else if ltb 300 n then 300 else n
clamp_interval (negsuc n) = 5

-- `setRefreshIntervalSec`.
unfoldable pub set_refresh_interval_sec : ℤ → Polling → Polling × List PollingCall
unfolding clamp_interval
set_refresh_interval_sec sec s =
    let n = clamp_interval sec in
    if n == s.refresh_interval_sec then (s, []) else (
      record s { refresh_interval_sec = n },
      set_interval (n * 1000) ∷ refresh_interval_changed ∷ [],
    )

-- The hash of the rows by identifier: the last row of one counts.
unfoldable pub last_row : {A : Type 0} → (A → String) → String → List A → Option A
last_row key id [] = none
last_row key id (x ∷ xs) = elim (last_row key id xs) [
  | some y ↦ some y
  | none ↦ if str_eq (key x) id then some x else none
]

abbrev pub workspace_id : WorkspaceInfo → String
workspace_id ws = ws.id

abbrev pub task_id : TaskInfo → String
task_id task = task.id

-- The loops over the new list, against what the hash holds.
unfoldable pub workspace_changes : (old new : List WorkspaceInfo) → List PollingCall
unfolding last_row
workspace_changes old [] = []
workspace_changes old (ws ∷ rest) =
    let later = workspace_changes old rest in
    elim (last_row workspace_id ws.id old) [
      | none ↦ later
      | some before ↦
          if same_int before.status ws.status
          then later
          else notify (record {
            title = concat ("Workspace: " ∷ ws.name ∷ []);
            message = "Status changed";
            category = "WorkspaceState";
          })
            ∷ later
    ]

unfoldable pub task_changes : (old new : List TaskInfo) → List PollingCall
unfolding last_row
task_changes old [] = []
task_changes old (task ∷ rest) =
    let later = task_changes old rest in
    elim (last_row task_id task.id old) [
      | none ↦ later
      | some before ↦
          if same_int before.status task.status && same_int before.current_state task.current_state
          then later
          else notify (record {
            title = concat (
                "Task: "
                ∷ (if is_empty task.display_name then task.name else task.display_name)
                ∷ []);
            message = "Status changed";
            category = "TaskUpdate";
          })
            ∷ later
    ]

unfoldable pub detect_workspace_changes : List WorkspaceInfo → Polling → List PollingCall
detect_workspace_changes new s =
    if s.first_fetch || not s.notifications_enabled
    then []
    else workspace_changes s.workspaces.rows new

unfoldable pub detect_task_changes : List TaskInfo → Polling → List PollingCall
detect_task_changes new s =
    if s.first_fetch || not s.notifications_enabled then [] else task_changes s.tasks.rows new

-- What a reply does to a model; `saved` says whether the file can be written.
abbrev pub received :
    {A : Type 0} → (A → String) → (cached saved : Bool) → List A → Model A → Model A
received key cached saved new m = record {
  rows = set_rows key m.rows new;
  loading = false;
  error = "";
  file = if cached && saved then some new else m.file;
}

-- `handleWorkspacesReceived` and `handleTasksReceived`.
unfoldable pub handle_workspaces_received :
    (saved : Bool) → List WorkspaceInfo → Polling → Polling × List PollingCall
unfolding detect_workspace_changes
handle_workspaces_received saved new s = (
  record s {
    workspaces = received workspace_id (not s.disable_data_cache) saved new s.workspaces;
    first_fetch = false;
  },
  detect_workspace_changes new s,
)

unfoldable pub handle_tasks_received :
    (saved : Bool) → List TaskInfo → Polling → Polling × List PollingCall
unfolding detect_task_changes
handle_tasks_received saved new s = (
  record s { tasks = received task_id (not s.disable_data_cache) saved new s.tasks },
  detect_task_changes new s,
)

-- `loadCache`; a file that is there and is an array is read.
abbrev pub loaded : {A : Type 0} → (A → String) → Model A → Model A
loaded key m = elim m.file [ none ↦ m | some list ↦ record m { rows = set_rows key m.rows list } ]

unfoldable pub load_cache : Polling → Polling
load_cache s =
    if s.disable_data_cache
    then s
    else record s { workspaces = loaded workspace_id s.workspaces; tasks = loaded task_id s.tasks }

unfoldable pub refresh_now : List PollingCall
refresh_now = fetch_workspaces ∷ fetch_tasks ∷ []

unfoldable pub start : Polling → Polling × List PollingCall
unfolding load_cache refresh_now
start s = (
  record (load_cache (record s { first_fetch = true })) { timer_active = true },
  refresh_now ++ polling_changed ∷ [],
)

unfoldable pub stop : Polling → Polling × List PollingCall
stop s = (record s { timer_active = false }, polling_changed ∷ [])

-- `purgeCache`; `removed` says of each file whether it can be removed.
abbrev pub purged : {A : Type 0} → Bool → Model A → Model A
purged removed m = if removed then record m { file = none } else m

unfoldable pub purge_cache : (removed : Bool × Bool) → Polling → Polling
purge_cache (first, second) s = record s {
  workspaces = purged first s.workspaces;
  tasks = purged second s.tasks;
}

-- The handler of `settingsChanged`, with what the settings then say.
unfoldable pub settings_changed :
    (removed : Bool × Bool)
    → (interval : ℤ) → (notifications no_cache : Bool) → Polling
    → Polling × List PollingCall
unfolding set_refresh_interval_sec purge_cache
settings_changed removed interval notifications no_cache s =
    let s' : Polling = record s {
      notifications_enabled = notifications;
      disable_data_cache = no_cache;
    } in
    let (s'', calls) = set_refresh_interval_sec interval s' in
    (if no_cache then purge_cache removed s'' else s'', calls)
