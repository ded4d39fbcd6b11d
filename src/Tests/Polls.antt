-- ===== src/Tests/Polls.antt =====
-- File synchronisation, polling and updates of app/src on concrete inputs.
use coder_desktop_linux.Common.{
  ℕ, ◌≡◌, ◌↔◌, ◌⊎◌, refl, true, false, none, List, [], ◌∷◌, arith, ℤ, pos, String,
}
use coder_desktop_linux.Desktop.Sync.{
  ListDocument, Sync, listing, an_array, finishes, cannot_start, refreshes, changes, SyncEvent,
  command_finished, run_mutagen, sync_step, sync_run,
}
use coder_desktop_linux.Desktop.Sync.Poll.{IsSingle, sync_run-IsSingle}
use coder_desktop_linux.Desktop.Sync.Returns.{Answered, refresh_sessions-Answered}
use coder_desktop_linux.Desktop.Sync.Stuck.{listings, unstarted_poll}
use coder_desktop_linux.Desktop.Rows.{find_row, RowsChange, sets, updates, rows_run}
use coder_desktop_linux.Desktop.Rows.Known.{known_after, rows_run_lem}
use coder_desktop_linux.Desktop.Rows.Found.{Distinct}
use coder_desktop_linux.Desktop.Polling.{
  WorkspaceInfo, Polling, workspace_id, handle_workspaces_received,
}
use coder_desktop_linux.Desktop.Polling.Quiet.{received_twice}
use coder_desktop_linux.Desktop.Updates.{Version, parse_semver, is_newer_version}
use coder_desktop_linux.Desktop.Updates.Newer.{Below, is_newer_version_order}

abbrev pub sync : Sync
sync = record {
  disable_file_upload = false;
  disable_file_download = false;
  daemon = record { binary_path = "/usr/bin/mutagen"; running = true; intentional_stop = false };
  polling = true;
  vpn_connected = true;
  poll_in_flight = true;
  sessions = [];
  commands = listing ∷ [];
}

abbrev output : ListDocument
output = an_array (
    record {
      identifier = "s1";
      alpha_path = "/home/me/work";
      beta_path = "/work";
      beta_host = "dev";
      paused = false;
      status = "watching";
      size_bytes = pos 10;
      conflicts = 0;
      last_error = "";
    }
    ∷ [])

-- A listing ends badly, a workspace's session is paused, and the next refresh is answered.
abbrev paused : List SyncEvent
paused = finishes 0 (pos 1) output ∷ changes "pause" ∷ []

paused_running : (sync_run (λ n. "1") paused sync).0.daemon.running ≡ true
unfolding sync_run sync_step command_finished run_mutagen
paused_running = refl

refresh_sessions-Answered_example :
    let asked = (sync_step (λ n. "1") refreshes (sync_run (λ n. "1") paused sync).0).0 in
    (asked.poll_in_flight ≡ true) × Answered (λ n. "1") asked
unfolding listings
refresh_sessions-Answered_example =
    refresh_sessions-Answered (λ n. "1") paused sync (refl, (refl, tt))
      (record { waits = refl; there = refl }) paused_running

unstarted_poll_example :
    (sync_run (λ n. "1") (cannot_start 0 "No such file" ∷ refreshes ∷ []) sync).0.sessions ≡ []
unfolding listings
unstarted_poll_example =
    unstarted_poll (λ n. "1") 0 "No such file" (refreshes ∷ []) sync refl refl refl

sync_run-IsSingle_example :
    IsSingle (sync_run (λ n. "1") (refreshes ∷ finishes 0 (pos 0) output ∷ refreshes ∷ []) sync).0
unfolding listings
sync_run-IsSingle_example =
    sync_run-IsSingle (λ n. "1") (refreshes ∷ finishes 0 (pos 0) output ∷ refreshes ∷ []) sync
      (omega arith)

abbrev workspace : String → ℤ → WorkspaceInfo
workspace id status = record { id = id; name = id; status = status; details = "" }

abbrev shown : List WorkspaceInfo
shown = workspace "a" (pos 1) ∷ workspace "b" (pos 1) ∷ []

abbrev fetched : List WorkspaceInfo
fetched = workspace "c" (pos 1) ∷ workspace "b" (pos 2) ∷ []

-- A list comes, then one row, and a row that was not there.
abbrev row_changes : List (RowsChange WorkspaceInfo)
row_changes = sets fetched ∷ updates (workspace "c" (pos 3)) ∷ updates (workspace "d" (pos 4)) ∷ []

rows_run_lem_example :
    ((λ id. find_row workspace_id id (rows_run workspace_id row_changes shown))
      ≡ known_after workspace_id row_changes (λ id. find_row workspace_id id shown))
    × Distinct workspace_id (rows_run workspace_id row_changes shown)
rows_run_lem_example =
    rows_run_lem workspace_id row_changes shown (((refl, tt), (tt, tt)), (tt, (tt, tt)))
      ((refl, tt), (tt, tt))

abbrev pub polling : Polling
polling = record {
  refresh_interval_sec = 10;
  first_fetch = false;
  timer_active = true;
  notifications_enabled = true;
  disable_data_cache = false;
  workspaces = record { rows = shown; loading = false; error = ""; file = none };
  tasks = record { rows = []; loading = false; error = ""; file = none };
}

received_twice_example :
    (handle_workspaces_received true fetched (handle_workspaces_received true fetched polling).0).1
    ≡ []
received_twice_example =
    received_twice true fetched polling ((refl, tt), (tt, tt)) ((refl, tt), (tt, tt))

abbrev version : ℕ → ℕ → ℕ → Version
version major minor patch = record { major = major; minor = minor; patch = patch }

is_newer_version_order_example :
    let is_newer = is_newer_version (λ a b. false) in
    ((is_newer "v1.2.3" "1.10.0" ≡ true) ↔ Below (version 1 2 3) (version 1 10 0))
    × (is_newer "v1.2.3" "v1.2.3" ≡ false)
    × ((is_newer "v1.2.3" "1.10.0" ≡ false) ⊎ (is_newer "1.10.0" "v1.2.3" ≡ false))
    × ((is_newer "v1.2.3" "1.10.0" ≡ false)
        ⊎ ((is_newer "1.10.0" "2.0.0-rc1" ≡ false) ⊎ (is_newer "v1.2.3" "2.0.0-rc1" ≡ true)))
    × ((is_newer "v1.2.3" "1.10.0" ≡ true)
        ⊎ ((is_newer "1.10.0" "v1.2.3" ≡ true) ⊎ (version 1 2 3 ≡ version 1 10 0)))
unfolding parse_semver
is_newer_version_order_example =
    is_newer_version_order (λ a b. false) "v1.2.3" "1.10.0" "2.0.0-rc1" refl refl refl
