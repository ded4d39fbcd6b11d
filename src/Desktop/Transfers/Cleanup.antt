-- ===== src/Desktop/Transfers/Cleanup.antt =====
-- How app/src/filesync/FileTransferManager.cpp removes transfers that are over.
use coder_desktop_linux.Common.{
  ℕ, zero, suc, ◌+◌, ◌-◌, none, some, List, [], ◌∷◌, ◌==◌, leb, if◌then◌else◌,
}
use coder_desktop_linux.Desktop.Transfers.Table.{
  RunningTransfer, Transfers, TransferSignal, transfer_count_changed, active, find_transfer,
}

-- `removeTransfer`: the first transfer of the identifier, where it is not active.
unfoldable pub drop_transfer : ℕ → List RunningTransfer → List RunningTransfer
drop_transfer id [] = []
drop_transfer id (t ∷ ts) =
    let later = drop_transfer id ts in if t.info.id == id then ts else t ∷ later

unfoldable pub remove_transfer : ℕ → Transfers → Transfers × List TransferSignal
remove_transfer id s = elim (find_transfer id s.transfers) [
  | none ↦ (s, [])
  | some t ↦
      if active t
      then (s, [])
      else (record s { transfers = drop_transfer id s.transfers }, transfer_count_changed ∷ [])
]

abbrev pub max_finished_transfers : ℕ
max_finished_transfers = 50

unfoldable pub finished_count : List RunningTransfer → ℕ
finished_count [] = 0
finished_count (t ∷ ts) = (if active t then 0 else 1) + finished_count ts

-- The loop of `purgeOldFinishedTransfers`, with `n` transfers to remove.
unfoldable pub purge_loop : ℕ → List RunningTransfer → List RunningTransfer
purge_loop zero ts = ts
purge_loop (suc n) [] = []
purge_loop (suc n) (t ∷ ts) =
    let kept = purge_loop (suc n) ts in
    let removed = purge_loop n ts in if active t then t ∷ kept else removed

unfoldable pub purge_old_finished_transfers : Transfers → Transfers × List TransferSignal
unfolding purge_loop
purge_old_finished_transfers s =
    let count = finished_count s.transfers in
    if leb count max_finished_transfers then (s, []) else (
      record s { transfers = purge_loop (count - max_finished_transfers) s.transfers },
      transfer_count_changed ∷ [],
    )
