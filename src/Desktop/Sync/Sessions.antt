-- ===== src/Desktop/Sync/Sessions.antt =====
-- The sessions that Mutagen lists: app/src/filesync/FileSyncSession.cpp, and how
-- app/src/filesync/FileSyncManager.cpp reads and summarises them.
use coder_desktop_linux.Common.{
  ℕ, Bool, true, false, not, none, some, List, [], ◌∷◌, map, length, ◌==◌, if◌then◌else◌, ℤ, String,
  str_eq, concat, Dict, lookup,
}

-- `FileSyncStatus`.
pub data SyncStatus : Type 0 where
  unknown connecting_alpha connecting_beta scanning reconciling staging_alpha : SyncStatus
  staging_beta transitioning saving watching disconnected halted_on_root_emptied : SyncStatus
  halted_on_root_deletion halted_on_root_type_change waiting_for_rescan paused : SyncStatus

pub data SyncMode : Type 0 where
  two_way one_way_local_to_remote one_way_remote_to_local : SyncMode

-- `FileSyncSession`.
pub record SyncSession : Type 0 where
  pub session_id : String
  pub local_path : String
  pub workspace : String
  pub remote_path : String
  pub status : SyncStatus
  pub mode : SyncMode
  pub size_bytes : ℤ
  pub conflict_count : ℕ
  pub paused : Bool
  pub last_error : String

-- `statusCategory`.
unfoldable pub status_category : SyncStatus → String
status_category watching = "ok"
status_category connecting_alpha = "working"
status_category connecting_beta = "working"
status_category scanning = "working"
status_category reconciling = "working"
status_category staging_alpha = "working"
status_category staging_beta = "working"
status_category transitioning = "working"
status_category saving = "working"
status_category disconnected = "error"
status_category halted_on_root_emptied = "error"
status_category halted_on_root_deletion = "error"
status_category halted_on_root_type_change = "error"
status_category waiting_for_rescan = "error"
status_category paused = "paused"
status_category unknown = "error"

-- The table of `parseStatus`.
abbrev pub status_table : Dict SyncStatus
status_table =
    ("connectingAlpha", connecting_alpha)
    ∷ ("connectingBeta", connecting_beta)
    ∷ ("scanning", scanning)
    ∷ ("reconciling", reconciling)
    ∷ ("stagingAlpha", staging_alpha)
    ∷ ("stagingBeta", staging_beta)
    ∷ ("transitioning", transitioning)
    ∷ ("saving", saving)
    ∷ ("watching", watching)
    ∷ ("disconnected", disconnected)
    ∷ ("haltedOnRootEmptied", halted_on_root_emptied)
    ∷ ("haltedOnRootDeletion", halted_on_root_deletion)
    ∷ ("haltedOnRootTypeChange", halted_on_root_type_change)
    ∷ ("waitingForRescan", waiting_for_rescan)
    ∷ ("paused", paused)
    ∷ []

unfoldable pub parse_status : String → SyncStatus
parse_status name = elim (lookup status_table name) [ none ↦ unknown | some status ↦ status ]

-- The fields that are read of an object of the list, as Qt converts them.
pub record SessionObject : Type 0 where
  pub identifier : String
  pub alpha_path : String
  pub beta_path : String
  pub beta_host : String
  pub paused : Bool
  pub status : String
  pub size_bytes : ℤ
  pub conflicts : ℕ
  pub last_error : String

-- What the parser makes of the output; of an object, what is in its field `sessions`.
pub data ListDocument : Type 0 where
  an_array an_object : List SessionObject → ListDocument
  neither : ListDocument

unfoldable pub parse_session : SessionObject → SyncSession
parse_session o = record {
  session_id = o.identifier;
  local_path = o.alpha_path;
  workspace = o.beta_host;
  remote_path = o.beta_path;
  status = if o.paused then paused else parse_status o.status;
  mode = two_way;
  size_bytes = o.size_bytes;
  conflict_count = o.conflicts;
  paused = o.paused;
  last_error = o.last_error;
}

unfoldable pub parse_session_list : ListDocument → List SyncSession
unfolding parse_session
parse_session_list (an_array objects) = map parse_session objects
parse_session_list (an_object objects) = map parse_session objects
parse_session_list neither = []

-- The loop of `statusSummary`: `allSynced` and `anyError`.
unfoldable pub summary_loop : List SyncSession → (all_synced any_error : Bool) → Bool × Bool
summary_loop [] all_synced any_error = (all_synced, any_error)
summary_loop (s ∷ ss) all_synced any_error =
    let error = summary_loop ss false true in
    let other = summary_loop ss false any_error in
    let fine = summary_loop ss all_synced any_error in
    if str_eq (status_category s.status) "error"
    then error
    else if not (str_eq (status_category s.status) "ok")
    then other
    else fine

-- `statusSummary`; `show` is the text of a number.
unfoldable pub status_summary : (show : ℕ → String) → List SyncSession → String
status_summary show sessions =
    let count = length sessions in
    let (all_synced, any_error) = summary_loop sessions true false in
    let noun = if count == 1 then "session" else "sessions" in
    if count == 0
    then "No sync sessions"
    else concat (
        show count
        ∷ " "
        ∷ noun
        ∷ (if any_error then " (error)" else if all_synced then " (synced)" else " (syncing)")
        ∷ [])
