-- ===== src/Desktop/Transfers/Fate.antt =====
-- What becomes of a transfer of app/src/filesync/FileTransferManager.cpp that is over.
use coder_desktop_linux.Common.{
  ℕ, ◌<◌, ◌≡◌, refl, subst, inl, inr, true, false, Option, none, some, List, [], ◌∷◌, arith,
  Option-cases,
}
use coder_desktop_linux.Desktop.Transfers.{
  TransferState, RunningTransfer, Transfers, TransferSignal, is_active, active, find_transfer,
  queued_transfer, start_transfer, download, upload, cancel_transfer, process_finished,
  failed_to_start, remove_transfer, purge_old_finished_transfers, TransferEvent, downloads, uploads,
  cancels, finishes, cannot_start, writes, removes, purges, transfer_step, transfer_run,
}
use coder_desktop_linux.Desktop.Transfers.Valid.{IsValid}
use coder_desktop_linux.Desktop.Transfers.Life.{step-IsValid}
use coder_desktop_linux.Desktop.Transfers.States.{StateIs, IsOver, All-found, found_id}
use coder_desktop_linux.Desktop.Transfers.Over.{
  start-IsOver, cancel-IsOver, finish-IsOver, unstarted-IsOver, remove-IsOver, purge-IsOver,
  parse-IsOver,
}

module _ (id : ℕ) (st : TransferState) (over : is_active st ≡ false) where
  step-IsOver :
      (read_line : List ℕ → Option (ℕ × ℕ)) (e : TransferEvent) (s s' : Transfers)
      → (signals : List TransferSignal) → IsValid s
      → IsOver id st s
      → transfer_step read_line e s ≡ some (s', signals)
      → IsOver id st s'
  unfolding transfer_step download upload
  step-IsOver read_line (downloads host remote local) s s' signals v h q =
      let info = queued_transfer s.next_id host local remote false 0 in
      let same : (start_transfer info s).1 ≡ s' = ground arith in
      subst (IsOver id st) same (start-IsOver id st over info s refl h)
  step-IsOver read_line (uploads none host local remote) s s' signals v h q =
      let info = queued_transfer s.next_id host local remote true 0 in
      let same : (start_transfer info s).1 ≡ s' = ground arith in
      subst (IsOver id st) same (start-IsOver id st over info s refl h)
  step-IsOver read_line (uploads (some n) host local remote) s s' signals v h q =
      let info = queued_transfer s.next_id host local remote true n in
      let same : (start_transfer info s).1 ≡ s' = ground arith in
      subst (IsOver id st) same (start-IsOver id st over info s refl h)
  step-IsOver read_line (cancels ends other) s s' signals v h q =
      let same : (cancel_transfer ends other s).0 ≡ s' = ground arith in
      subst (IsOver id st) same (cancel-IsOver id st over ends other s h)
  step-IsOver read_line (finishes e other) s s' signals v h q =
      let same : (process_finished e other s).0 ≡ s' = ground arith in
      subst (IsOver id st) same (finish-IsOver id st over e other s v h)
  step-IsOver read_line (cannot_start other) s s' signals v h q =
      let same : (failed_to_start other s).0 ≡ s' = ground arith in
      subst (IsOver id st) same (unstarted-IsOver id st over other s v h)
  step-IsOver read_line (writes output other) s s' signals v h q =
      parse-IsOver id st over read_line output other s s' signals h q
  step-IsOver read_line (removes other) s s' signals v h q =
      let same : (remove_transfer other s).0 ≡ s' = ground arith in
      subst (IsOver id st) same (remove-IsOver id st over other s v h)
  step-IsOver read_line purges s s' signals v h q =
      let same : (purge_old_finished_transfers s).0 ≡ s' = ground arith in
      subst (IsOver id st) same (purge-IsOver id st over s v h)

  run-IsOver :
      (read_line : List ℕ → Option (ℕ × ℕ)) (es : List TransferEvent) (s s' : Transfers)
      → (signals : List TransferSignal) → IsValid s
      → IsOver id st s
      → transfer_run read_line es s ≡ some (s', signals)
      → IsOver id st s'
  unfolding transfer_run
  run-IsOver read_line [] s s' signals v h q =
      let same : s ≡ s' = ground arith in subst (IsOver id st) same h
  run-IsOver read_line (e ∷ es) s s' signals v h q =
      let (t, first, stepped, v') = step-IsValid read_line e s v in
      let h' = step-IsOver read_line e s t first v h stepped in
      elim (Option-cases (transfer_run read_line es t)) [
        | inl stuck ↦ absurd (ground arith)
        | inr ((u, more), ran) ↦
            let same : u ≡ s' = ground arith in
            subst (IsOver id st) same (run-IsOver read_line es t u more v' h' ran)
      ]

-- Of a state in which the identifiers ascend and the processes fit their transfers: a transfer that is
-- completed, failed or cancelled is in that state after whatever the user, the processes and the timers
-- do, or it is no longer in the list.
pub over_for_good :
    (read_line : List ℕ → Option (ℕ × ℕ)) (es : List TransferEvent) (s s' : Transfers)
    → (signals : List TransferSignal) (id : ℕ) (t : RunningTransfer) → IsValid s
    → find_transfer id s.transfers ≡ some t
    → active t ≡ false
    → transfer_run read_line es s ≡ some (s', signals)
    → StateIs t.info.state (find_transfer id s'.transfers)
over_for_good read_line es s s' signals id t v found over ran =
    (run-IsOver id t.info.state over read_line es s s' signals v
      (record {
        old = rw (← found_id id s.transfers t found) (
            All-found (λ (u : RunningTransfer). u.info.id < s.next_id) id s.transfers t v.below
              found);
        state = rw found refl;
      })
      ran).state
