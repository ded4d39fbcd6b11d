-- ===== src/Desktop/Sync/Daemon.antt =====
-- app/src/filesync/MutagenDaemon.cpp: the process of the daemon.
use coder_desktop_linux.Common.{
  Bool, true, false, not, ◌&&◌, ◌||◌, List, [], ◌∷◌, if◌then◌else◌, String, is_empty,
}

-- The daemon: `running` is a process that is not over.
pub record DaemonState : Type 0 where
  pub binary_path : String
  pub running : Bool
  pub intentional_stop : Bool

pub data SyncSignal : Type 0 where
  running_changed daemon_error available_changed policy_changed : SyncSignal
  session_count_changed status_summary_changed : SyncSignal
  sync_error : String → SyncSignal

-- How the start of the process ends.
pub data StartAnswer : Type 0 where
  comes_up fails_to_start times_out : StartAnswer

-- `start` of the daemon. A process that fails is also reported by `onProcessError`.
unfoldable pub start_process : StartAnswer → DaemonState → Bool × DaemonState × List SyncSignal
start_process comes_up d =
    (true, record d { running = true; intentional_stop = false }, running_changed ∷ [])
start_process fails_to_start d = (
  false,
  record d { running = false; intentional_stop = false },
  daemon_error ∷ daemon_error ∷ [],
)
start_process times_out d =
    (false, record d { running = false; intentional_stop = false }, daemon_error ∷ [])

unfoldable pub start_daemon : StartAnswer → DaemonState → Bool × DaemonState × List SyncSignal
unfolding start_process
start_daemon answer d =
    if d.running
    then (true, d, [])
    else if is_empty d.binary_path
    then (false, d, daemon_error ∷ [])
    else start_process answer d

-- The answers to one `stop`: whether `mutagen daemon stop` ends in time, whether the daemon then does,
-- and whether it does once it is killed.
pub record StopAnswers : Type 0 where
  pub stop_finishes : Bool
  pub daemon_exits : Bool
  pub dies : Bool

unfoldable pub stop_daemon : StopAnswers → DaemonState → DaemonState × List SyncSignal
stop_daemon a d =
    let over = (not (is_empty d.binary_path) && (a.stop_finishes && a.daemon_exits)) || a.dies in
    if d.running
    then (
      record d { running = not over; intentional_stop = true },
      if over then running_changed ∷ [] else [],
    )
    else (d, [])

-- `onProcessFinished`, of a daemon that ends by itself.
unfoldable pub daemon_exited : DaemonState → DaemonState × List SyncSignal
daemon_exited d =
    if d.running
    then (
      record d { running = false },
      running_changed ∷ (if d.intentional_stop then [] else daemon_error ∷ []),
    )
    else (d, [])
