-- ===== src/Desktop/Sync.antt =====
-- app/src/filesync/FileSyncManager.cpp, FileSyncSession.cpp and MutagenDaemon.cpp: the sessions that
-- Mutagen keeps, its daemon, and the commands that ask it for them.
mod Sessions
mod Daemon
pub mod Stuck
pub mod Poll
pub mod Returns
pub mod Summary
use coder_desktop_linux.Common.{
  ℕ, zero, suc, ◌+◌, Bool, true, false, not, ◌&&◌, ◌||◌, Option, none, some, List, [], ◌∷◌, ◌++◌,
  map, length, get_elem?, ◌==◌, if◌then◌else◌, ℤ, pos, same_int, String, str_eq, is_empty, concat,
  Dict, lookup,
}
use coder_desktop_linux.Desktop.Launcher.{remove_at}
unfoldable pub use coder_desktop_linux.Desktop.Sync.Sessions.*
unfoldable pub use coder_desktop_linux.Desktop.Sync.Daemon.*

-- A command that was started, for which a callback waits.
pub data Command : Type 0 where
  listing : Command
  creating : Command
  changing : (verb : String) → Command

pub record Sync : Type 0 where
  pub disable_file_upload : Bool
  pub disable_file_download : Bool
  pub daemon : DaemonState
  pub polling : Bool
  pub vpn_connected : Bool
  pub poll_in_flight : Bool
  pub sessions : List SyncSession
  pub commands : List Command

unfoldable pub is_available : Sync → Bool
is_available s = s.vpn_connected && (not s.disable_file_upload || not s.disable_file_download)

unfoldable pub effective_sync_mode : (no_upload no_download : Bool) → SyncMode
effective_sync_mode no_upload no_download =
    if no_upload && not no_download
    then one_way_remote_to_local
    else if no_download && not no_upload
    then one_way_local_to_remote
    else two_way

abbrev pub is_one_way : SyncMode → Bool
is_one_way two_way = false
is_one_way one_way_local_to_remote = true
is_one_way one_way_remote_to_local = true

-- The arguments of `mutagen` that `createSession` builds.
unfoldable pub create_args :
    (no_upload no_download : Bool) → (local_path workspace remote_path : String) → List String
unfolding effective_sync_mode
create_args no_upload no_download local_path workspace remote_path =
    "sync"
    ∷ "create"
    ∷ local_path
    ∷ concat (workspace ∷ ":" ∷ remote_path ∷ [])
    ∷ "--ignore-vcs"
    ∷ (if is_one_way (effective_sync_mode no_upload no_download)
        then "--mode=one-way-replica" ∷ []
        else [])

-- `runMutagenAsync`: the callback waits for the command, unless there is no binary.
unfoldable pub run_mutagen : Command → Sync → Sync × List SyncSignal
run_mutagen command s =
    if is_empty s.daemon.binary_path
    then (s, sync_error "Mutagen binary not found" ∷ [])
    else (record s { commands = s.commands ++ command ∷ [] }, [])

unfoldable pub refresh_sessions : Sync → Sync × List SyncSignal
unfolding run_mutagen
refresh_sessions s =
    if s.daemon.running
    then if s.poll_in_flight
      then (s, [])
      else run_mutagen listing (record s { poll_in_flight = true })
    else (s, [])

-- `createSession`.
unfoldable pub create_session : StartAnswer → Sync → Sync × List SyncSignal
unfolding start_daemon run_mutagen
create_session answer s =
    let (up, daemon, signals) = start_daemon answer s.daemon in
    let (s', more) = run_mutagen creating (record s { daemon = daemon; polling = true }) in
    if s.disable_file_upload && s.disable_file_download
    then (s, sync_error "File sync is disabled by policy" ∷ [])
    else if up
    then (s', signals ++ more)
    else (record s { daemon = daemon }, signals ++ sync_error "Failed to start Mutagen daemon" ∷ [])

-- `setVpnConnected`. The first refresh follows as an event.
unfoldable pub set_vpn_connected :
    StartAnswer → StopAnswers → (connected : Bool) → Sync → Sync × List SyncSignal
unfolding start_daemon stop_daemon
set_vpn_connected start stop true s =
    let (up, daemon, signals) = start_daemon start s.daemon in
    if s.vpn_connected then (s, []) else (
      record s { vpn_connected = true; daemon = daemon; polling = up || s.polling },
      available_changed ∷ signals,
    )
set_vpn_connected start stop false s =
    let (daemon, signals) = stop_daemon stop s.daemon in
    if s.vpn_connected
    then (
      record s { vpn_connected = false; daemon = daemon; polling = false },
      available_changed ∷ signals,
    )
    else (s, [])

module _ (show : ℕ → String) where
  unfoldable pub update_model : List SyncSession → Sync → Sync × List SyncSignal
  unfolding status_summary
  update_model new_sessions s = (
    record s { sessions = new_sessions },
    (if length s.sessions == length new_sessions then [] else session_count_changed ∷ [])
        ++ (if str_eq (status_summary show new_sessions) (status_summary show s.sessions)
            then []
            else status_summary_changed ∷ []),
  )

  -- The callbacks: of a listing, of a creation and of the commands on one session.
  unfoldable pub command_finished :
      Command → (exit_code : ℤ) → ListDocument → Sync → Sync × List SyncSignal
  unfolding update_model refresh_sessions
  command_finished listing exit_code output s =
      let s' : Sync = record s { poll_in_flight = false } in
      let updated = update_model (parse_session_list output) s' in
      if same_int exit_code (pos 0) then updated else (s', [])
  command_finished creating exit_code output s =
      let (s', signals) = refresh_sessions s in
      (
        s',
        (if same_int exit_code (pos 0)
              then []
              else sync_error "Failed to create sync session (see logs)" ∷ [])
            ++ signals,
      )
  command_finished (changing verb) exit_code output s =
      let (s', signals) = refresh_sessions s in
      (
        s',
        (if same_int exit_code (pos 0)
              then []
              else sync_error (concat ("Failed to " ∷ verb ∷ " session" ∷ [])) ∷ [])
            ++ signals,
      )

-- What the user, the network, the timers and the processes do; a command is named by its place among
-- those that wait.
pub data SyncEvent : Type 0 where
  vpn_changes : StartAnswer → StopAnswers → (connected : Bool) → SyncEvent
  creates : StartAnswer → SyncEvent
  changes : (verb : String) → SyncEvent
  refreshes : SyncEvent
  finishes : ℕ → (exit_code : ℤ) → ListDocument → SyncEvent
  cannot_start : ℕ → (reason : String) → SyncEvent
  daemon_exits : SyncEvent
  policy_changes : (no_upload no_download : Bool) → SyncEvent

module _ (show : ℕ → String) where
  unfoldable pub sync_step : SyncEvent → Sync → Sync × List SyncSignal
  sync_step (vpn_changes start stop connected) s = set_vpn_connected start stop connected s
  sync_step (creates answer) s = create_session answer s
  sync_step (changes verb) s = run_mutagen (changing verb) s
  sync_step refreshes s = refresh_sessions s
  sync_step (finishes i exit_code output) s = elim (get_elem? s.commands i) [
    | none ↦ (s, [])
    | some command ↦
        command_finished show command exit_code output
          (record s { commands = remove_at i s.commands })
  ]
  sync_step (cannot_start i reason) s = elim (get_elem? s.commands i) [
    | none ↦ (s, [])
    | some command ↦ (
      record s { commands = remove_at i s.commands },
      sync_error (concat ("Failed to start mutagen: " ∷ reason ∷ [])) ∷ [],
    )
  ]
  sync_step daemon_exits s =
      let (daemon, signals) = daemon_exited s.daemon in (record s { daemon = daemon }, signals)
  sync_step (policy_changes no_upload no_download) s = (
    record s { disable_file_upload = no_upload; disable_file_download = no_download },
    policy_changed ∷ available_changed ∷ [],
  )

  unfoldable pub sync_run : List SyncEvent → Sync → Sync × List SyncSignal
  sync_run [] s = (s, [])
  sync_run (e ∷ es) s =
      let (s', signals) = sync_step e s in
      let (s'', more) = sync_run es s' in (s'', signals ++ more)
