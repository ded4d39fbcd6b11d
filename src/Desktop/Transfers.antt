-- ===== src/Desktop/Transfers.antt =====
-- app/src/filesync/FileTransferManager.cpp: uploads and downloads, one `scp` process for each.
--
-- Identifiers and byte counts are taken to stay within `int` and `qint64`.
mod Table
mod Output
mod Cleanup
pub mod Valid
pub mod Life
pub mod Purge
pub mod Progress
pub mod States
pub mod Over
pub mod Fate
use coder_desktop_linux.Common.{
  ℕ, zero, suc, ◌+◌, ◌-◌, ◌*◌, ◌/◌, Bool, true, false, not, ◌&&◌, ◌||◌, Option, none, some, List,
  [], ◌∷◌, ◌++◌, length, ◌==◌, ltb, leb, if◌then◌else◌, ℤ, pos, same_int, String, is_empty, concat,
  ◌>>=◌,
}
unfoldable pub use coder_desktop_linux.Desktop.Transfers.Table.*
unfoldable pub use coder_desktop_linux.Desktop.Transfers.Output.*
unfoldable pub use coder_desktop_linux.Desktop.Transfers.Cleanup.*

-- The arguments of `scp`.
unfoldable pub scp_args : Transfer → List String
scp_args info =
    let remote_spec = concat (info.agent_hostname ∷ ":" ∷ info.remote_path ∷ []) in
    "-o"
    ∷ "StrictHostKeyChecking=no"
    ∷ "-o"
    ∷ "UserKnownHostsFile=/dev/null"
    ∷ "-o"
    ∷ "LogLevel=ERROR"
    ∷ (if info.is_upload
        then info.local_path ∷ remote_spec ∷ []
        else remote_spec ∷ info.local_path ∷ [])

-- What `download` and `upload` queue.
abbrev pub queued_transfer :
    (id : ℕ) → (agent_hostname local_path remote_path : String) → (is_upload : Bool) → ℕ → Transfer
queued_transfer id agent_hostname local_path remote_path is_upload bytes_total = record {
  id = id;
  agent_hostname = agent_hostname;
  local_path = local_path;
  remote_path = remote_path;
  is_upload = is_upload;
  bytes_transferred = 0;
  bytes_total = bytes_total;
  state = queued;
  error_message = "";
}

-- `startScpProcess`.
abbrev pub started : RunningTransfer → RunningTransfer
started t = record t { alive = true; info = record t.info { state = running } }

-- The part that `download` and `upload` share, with the identifier that they return. A process that cannot
-- be started is taken to report it by an event of its own, after the signals of this one.
unfoldable pub start_transfer : Transfer → Transfers → ℕ × Transfers × List TransferSignal
start_transfer info s =
    let t : RunningTransfer = record { info = info; alive = false; stderr_buffer = [] } in
    let after = s.transfers ++ started t ∷ [] in
    (
      s.next_id,
      record { next_id = s.next_id + 1; transfers = after },
      transfer_started info.id ∷ emit_active_count_if_changed s.transfers after,
    )

unfoldable pub download :
    (agent_hostname remote_path local_path : String)
    → Transfers
    → ℕ × Transfers × List TransferSignal
unfolding start_transfer
download agent_hostname remote_path local_path s =
    start_transfer (queued_transfer s.next_id agent_hostname local_path remote_path false 0) s

-- `size` is that of the local file, where it is one.
unfoldable pub upload :
    (size : Option ℕ)
    → (agent_hostname local_path remote_path : String) → Transfers
    → ℕ × Transfers × List TransferSignal
unfolding start_transfer
upload size agent_hostname local_path remote_path s =
    let bytes_total : ℕ = elim size [ none ↦ 0 | some n ↦ n ] in
    start_transfer
      (queued_transfer s.next_id agent_hostname local_path remote_path true bytes_total) s

-- `cancelTransfer`; `ends` says whether the process ends while it waits.
abbrev pub cancel_found : (ends : Bool) → RunningTransfer → RunningTransfer
cancel_found ends t = record t {
  info = record t.info { state = cancelled };
  alive = t.alive && not ends;
}

unfoldable pub cancel_transfer : (ends : Bool) → ℕ → Transfers → Transfers × List TransferSignal
cancel_transfer ends id s = elim (find_transfer id s.transfers) [
  | none ↦ (s, [])
  | some t ↦
      let after = update_transfer id (cancel_found ends) s.transfers in
      if active t
      then (
        record s { transfers = after },
        transfer_cancelled id ∷ emit_active_count_if_changed s.transfers after,
      )
      else (s, [])
]

-- The message of a failed process: its code as text, and what is left on its error output, if
-- anything is, trimmed.
unfoldable pub exit_message : (code : String) → (remaining : Option String) → String
exit_message code remaining = concat (
    "scp exited with code "
    ∷ code
    ∷ (elim remaining [ none ↦ [] | some trimmed ↦ ": " ∷ trimmed ∷ [] ]))

-- How a process ends: `code_text` is the exit code as text.
pub record Ending : Type 0 where
  pub exit_code : ℤ
  pub code_text : String
  pub crashed : Bool
  pub remaining : Option String

-- The handler of `finished`, on a transfer that is not cancelled.
abbrev pub end_found : Ending → RunningTransfer → RunningTransfer
end_found e t = record t {
  alive = false;
  info =
      if is_cancelled t.info.state
      then t.info
      else if e.crashed || not (same_int e.exit_code (pos 0))
      then record t.info { state = failed; error_message = exit_message e.code_text e.remaining }
      else record t.info { state = completed; bytes_transferred = t.info.bytes_total };
}

unfoldable pub ending_signals : Ending → RunningTransfer → List TransferSignal
ending_signals e t =
    if is_cancelled t.info.state
    then []
    else if e.crashed || not (same_int e.exit_code (pos 0))
    then transfer_failed t.info.id (exit_message e.code_text e.remaining) ∷ []
    else transfer_completed t.info.id ∷ []

-- A process ends: `finished` is emitted for one that is alive, once.
unfoldable pub process_finished : Ending → ℕ → Transfers → Transfers × List TransferSignal
process_finished e id s = elim (find_transfer id s.transfers) [
  | none ↦ (s, [])
  | some t ↦
      let after = update_transfer id (end_found e) s.transfers in
      if t.alive
      then (
        record s { transfers = after },
        ending_signals e t
            ++ (if is_cancelled t.info.state
                then []
                else emit_active_count_if_changed s.transfers after),
      )
      else (s, [])
]

-- The handler of `errorOccurred` for a process that could not be started.
abbrev pub unstarted_found : RunningTransfer → RunningTransfer
unstarted_found t = record t {
  alive = false;
  info =
      if is_cancelled t.info.state
      then t.info
      else record t.info { state = failed; error_message = "Failed to start scp process" };
}

unfoldable pub failed_to_start : ℕ → Transfers → Transfers × List TransferSignal
failed_to_start id s = elim (find_transfer id s.transfers) [
  | none ↦ (s, [])
  | some t ↦
      let after = update_transfer id unstarted_found s.transfers in
      if t.alive
      then (
        record s { transfers = after },
        if is_cancelled t.info.state
            then []
            else transfer_failed id "Failed to start scp process"
              ∷ emit_active_count_if_changed s.transfers after,
      )
      else (s, [])
]

-- What the user, the processes and the timers do.
pub data TransferEvent : Type 0 where
  downloads : (agent_hostname remote_path local_path : String) → TransferEvent
  uploads : (size : Option ℕ) → (agent_hostname local_path remote_path : String) → TransferEvent
  cancels : (ends : Bool) → ℕ → TransferEvent
  finishes : Ending → ℕ → TransferEvent
  cannot_start : ℕ → TransferEvent
  writes : List ℕ → ℕ → TransferEvent
  removes : ℕ → TransferEvent
  purges : TransferEvent

module _ (read_line : List ℕ → Option (ℕ × ℕ)) where
  unfoldable pub transfer_step :
      TransferEvent → Transfers → Option (Transfers × List TransferSignal)
  transfer_step (downloads agent_hostname remote_path local_path) s =
      let (id, s', signals) = download agent_hostname remote_path local_path s in some (s', signals)
  transfer_step (uploads size agent_hostname local_path remote_path) s =
      let (id, s', signals) = upload size agent_hostname local_path remote_path s in
      some (s', signals)
  transfer_step (cancels ends id) s = some (cancel_transfer ends id s)
  transfer_step (finishes e id) s = some (process_finished e id s)
  transfer_step (cannot_start id) s = some (failed_to_start id s)
  transfer_step (writes output id) s = parse_scp_progress read_line output id s
  transfer_step (removes id) s = some (remove_transfer id s)
  transfer_step purges s = some (purge_old_finished_transfers s)

  unfoldable pub transfer_run :
      List TransferEvent → Transfers → Option (Transfers × List TransferSignal)
  transfer_run [] s = some (s, [])
  transfer_run (e ∷ es) s = do
    (s', signals) ← transfer_step e s
    (s'', more) ← transfer_run es s'
    some (s'', signals ++ more)
