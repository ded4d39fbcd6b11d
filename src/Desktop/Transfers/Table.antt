-- ===== src/Desktop/Transfers/Table.antt =====
-- The transfers that app/src/filesync/FileTransferManager.cpp keeps, and how it finds one.
use coder_desktop_linux.Common.{
  ℕ, ◌+◌, Bool, true, false, Option, none, some, List, [], ◌∷◌, ◌==◌, if◌then◌else◌, String,
}

pub data TransferState : Type 0 where
  queued running completed failed cancelled : TransferState

-- `FileTransfer`.
pub record Transfer : Type 0 where
  pub id : ℕ
  pub agent_hostname : String
  pub local_path : String
  pub remote_path : String
  pub is_upload : Bool
  pub bytes_transferred : ℕ
  pub bytes_total : ℕ
  pub state : TransferState
  pub error_message : String

-- `RunningTransfer`; `alive` says whether its process is there and has not ended.
pub record RunningTransfer : Type 0 where
  pub info : Transfer
  pub alive : Bool
  pub stderr_buffer : List ℕ

pub record Transfers : Type 0 where
  pub next_id : ℕ
  pub transfers : List RunningTransfer

pub data TransferSignal : Type 0 where
  transfer_started transfer_completed transfer_cancelled : ℕ → TransferSignal
  transfer_progress : ℕ → ℕ → ℕ → TransferSignal
  transfer_failed : ℕ → String → TransferSignal
  transfer_count_changed : TransferSignal

-- `state == Queued || state == Running`.
abbrev pub is_active : TransferState → Bool
is_active queued = true
is_active running = true
is_active completed = false
is_active failed = false
is_active cancelled = false

abbrev pub active : RunningTransfer → Bool
active t = is_active t.info.state

abbrev pub is_cancelled : TransferState → Bool
is_cancelled cancelled = true
is_cancelled _ = false

-- `activeTransferCount`.
unfoldable pub active_transfer_count : List RunningTransfer → ℕ
active_transfer_count [] = 0
active_transfer_count (t ∷ ts) = (if active t then 1 else 0) + active_transfer_count ts

-- `emitActiveCountIfChanged`, between the lists before and after.
unfoldable pub emit_active_count_if_changed :
    List RunningTransfer → List RunningTransfer → List TransferSignal
emit_active_count_if_changed before after =
    if active_transfer_count after == active_transfer_count before
    then []
    else transfer_count_changed ∷ []

-- `findTransfer`.
unfoldable pub find_transfer : ℕ → List RunningTransfer → Option RunningTransfer
find_transfer id [] = none
find_transfer id (t ∷ ts) =
    let later = find_transfer id ts in if t.info.id == id then some t else later

-- What is done to the transfer that `findTransfer` gives.
unfoldable pub update_transfer :
    ℕ → (RunningTransfer → RunningTransfer) → List RunningTransfer → List RunningTransfer
update_transfer id f [] = []
update_transfer id f (t ∷ ts) =
    let later = update_transfer id f ts in if t.info.id == id then f t ∷ ts else t ∷ later
