-- ===== src/Desktop/Transfers/Life.antt =====
-- The life of a transfer of app/src/filesync/FileTransferManager.cpp: identifiers, processes and states.
use coder_desktop_linux.Common.{
  ℕ, ◌-◌, ◌<◌, ◌≡◌, refl, sym, subst, ap, ◌∙◌, inl, inr, Bool, true, false, not, ◌||◌, Option, none,
  some, List, [], ◌∷◌, ◌++◌, leb, arith, Bool-cases, Option-cases, pos, same_int,
}
use coder_desktop_linux.Desktop.Transfers.{
  TransferState, queued, running, completed, failed, cancelled, RunningTransfer, Transfers,
  TransferSignal, is_cancelled, active, find_transfer, update_transfer, queued_transfer, download,
  upload, cancel_found, cancel_transfer, Ending, end_found, process_finished, unstarted_found,
  failed_to_start, parse_scp_progress, remove_transfer, finished_count, max_finished_transfers,
  purge_old_finished_transfers, TransferEvent, downloads, uploads, cancels, finishes, cannot_start,
  writes, removes, purges, transfer_step, transfer_run,
}
use coder_desktop_linux.Desktop.Transfers.Progress.{advance_all, parse_found_lem}
use coder_desktop_linux.Desktop.Transfers.Valid.{
  SettledAt, Settled, IsValid, update-IsValid, start_transfer-IsValid, All-drop, All-purge,
  Ascending-drop, Ascending-purge, advance_all_kept,
}

cancelled_state : (st : TransferState) → is_cancelled st ≡ true → st ≡ cancelled
cancelled_state cancelled e = refl
cancelled_state queued e = cc
cancelled_state running e = cc
cancelled_state completed e = cc
cancelled_state failed e = cc

-- A state that was left alone because it is cancelled.
settled_cancelled :
    (st : TransferState) (alive : Bool) → is_cancelled st ≡ true → SettledAt st alive
settled_cancelled st alive e = rw (cancelled_state st e) tt

end_found-Settled : (e : Ending) (t : RunningTransfer) → Settled (end_found e t)
end_found-Settled e t = elim (Bool-cases (is_cancelled t.info.state)) [
  | inl c ↦ rw (c) (settled_cancelled t.info.state false c)
  | inr other ↦ elim (Bool-cases (e.crashed || not (same_int e.exit_code (pos 0)))) [
    | inl bad ↦ rw (other, bad) refl
    | inr good ↦ rw (other, good) refl
  ]
]

unstarted_found-Settled : (t : RunningTransfer) → Settled (unstarted_found t)
unstarted_found-Settled t = elim (Bool-cases (is_cancelled t.info.state)) [
  | inl c ↦ rw (c) (settled_cancelled t.info.state false c)
  | inr other ↦ rw (other) refl
]

end_found_id : (e : Ending) (t : RunningTransfer) → (end_found e t).info.id ≡ t.info.id
end_found_id e t = ground arith

unstarted_found_id : (t : RunningTransfer) → (unstarted_found t).info.id ≡ t.info.id
unstarted_found_id t = ground arith

cancel_transfer-IsValid :
    (ends : Bool) (id : ℕ) (s : Transfers) → IsValid s → IsValid (cancel_transfer ends id s).0
unfolding cancel_transfer
cancel_transfer-IsValid ends id s h = elim (Option-cases (find_transfer id s.transfers)) [
  | inl unknown ↦ rw (unknown, cancel_transfer) h
  | inr (t, found) ↦ elim (Bool-cases (active t)) [
    | inr over ↦ rw (found, over, cancel_transfer) h
    | inl on ↦
        rw (found, on, cancel_transfer)
          (update-IsValid (cancel_found ends) id s (λ u e. refl) (λ u e p. tt) h)
  ]
]

process_finished-IsValid :
    (e : Ending) (id : ℕ) (s : Transfers) → IsValid s → IsValid (process_finished e id s).0
unfolding process_finished
process_finished-IsValid e id s h = elim (Option-cases (find_transfer id s.transfers)) [
  | inl unknown ↦ rw (unknown, process_finished) h
  | inr (t, found) ↦ elim (Bool-cases t.alive) [
    | inr over ↦ rw (found, over, process_finished) h
    | inl on ↦
        rw (found, on, process_finished)
          (update-IsValid (end_found e) id s (λ u _. end_found_id e u)
            (λ u _ p. end_found-Settled e u) h)
  ]
]

failed_to_start-IsValid : (id : ℕ) (s : Transfers) → IsValid s → IsValid (failed_to_start id s).0
unfolding failed_to_start
failed_to_start-IsValid id s h = elim (Option-cases (find_transfer id s.transfers)) [
  | inl unknown ↦ rw (unknown, failed_to_start) h
  | inr (t, found) ↦ elim (Bool-cases t.alive) [
    | inr over ↦ rw (found, over, failed_to_start) h
    | inl on ↦
        rw (found, on, failed_to_start)
          (update-IsValid unstarted_found id s (λ u _. unstarted_found_id u)
            (λ u _ p. unstarted_found-Settled u) h)
  ]
]

remove_transfer-IsValid : (id : ℕ) (s : Transfers) → IsValid s → IsValid (remove_transfer id s).0
unfolding remove_transfer
remove_transfer-IsValid id s h = elim (Option-cases (find_transfer id s.transfers)) [
  | inl unknown ↦ rw (unknown, remove_transfer) h
  | inr (t, found) ↦ elim (Bool-cases (active t)) [
    | inl on ↦ rw (found, on, remove_transfer) h
    | inr over ↦
        rw (found, over, remove_transfer)
          (record {
            below =
                All-drop (λ (u : RunningTransfer). u.info.id < s.next_id) id s.transfers h.below;
            ascending = Ascending-drop id s.transfers h.ascending;
            settled = All-drop (λ (u : RunningTransfer). Settled u) id s.transfers h.settled;
          })
  ]
]

purge-IsValid : (s : Transfers) → IsValid s → IsValid (purge_old_finished_transfers s).0
unfolding purge_old_finished_transfers
purge-IsValid s h =
    let n = finished_count s.transfers - max_finished_transfers in
    elim (Bool-cases (leb (finished_count s.transfers) max_finished_transfers)) [
      | inl few ↦ rw (few, purge_old_finished_transfers) h
      | inr many ↦
          rw (many, purge_old_finished_transfers)
            (record {
              below =
                  All-purge (λ (u : RunningTransfer). u.info.id < s.next_id) n s.transfers h.below;
              ascending = Ascending-purge n s.transfers h.ascending;
              settled = All-purge (λ (u : RunningTransfer). Settled u) n s.transfers h.settled;
            })
    ]

module _ (read_line : List ℕ → Option (ℕ × ℕ)) where
  -- What one event or a sequence of them returns.
  abbrev pub KeepsValid : Option (Transfers × List TransferSignal) → Type 0
  KeepsValid r =
      (s : Transfers) × (signals : List TransferSignal) × (r ≡ some (s, signals)) × IsValid s

  parse-IsValid :
      (output : List ℕ) (id : ℕ) (s : Transfers)
      → IsValid s
      → KeepsValid (parse_scp_progress read_line output id s)
  unfolding parse_scp_progress
  parse-IsValid output id s h = elim (Option-cases (find_transfer id s.transfers)) [
    | inl unknown ↦ (s, [], rw (unknown, parse_scp_progress) refl, h)
    | inr (t, found) ↦
        let p = parse_found_lem read_line output t in
        let kept = advance_all_kept read_line p.0 t.info in
        let t' : RunningTransfer = record t {
          info = advance_all read_line p.0 t.info;
          stderr_buffer = p.1;
        } in
        (
          record s { transfers = update_transfer id (λ _. t') s.transfers },
          p.2,
          rw (found, p.3, parse_scp_progress) refl,
          update-IsValid (λ _. t') id s
              (λ u e.
                let same : t ≡ u = cc in kept.0 ∙ ap (λ (v : RunningTransfer). v.info.id) same)
              (λ u e q.
                let same : t ≡ u = cc in
                subst (λ (st : TransferState). SettledAt st t.alive) (sym kept.1)
                  (subst (λ (v : RunningTransfer). Settled v) (sym same) q))
              h,
        )
  ]

  pub step-IsValid :
      (e : TransferEvent) (s : Transfers) → IsValid s → KeepsValid (transfer_step read_line e s)
  unfolding transfer_step download upload
  step-IsValid (downloads host remote local) s h = (
    _,
    _,
    refl,
    start_transfer-IsValid (queued_transfer s.next_id host local remote false 0) s refl h,
  )
  step-IsValid (uploads none host local remote) s h = (
    _,
    _,
    refl,
    start_transfer-IsValid (queued_transfer s.next_id host local remote true 0) s refl h,
  )
  step-IsValid (uploads (some n) host local remote) s h = (
    _,
    _,
    refl,
    start_transfer-IsValid (queued_transfer s.next_id host local remote true n) s refl h,
  )
  step-IsValid (cancels ends id) s h = (_, _, refl, cancel_transfer-IsValid ends id s h)
  step-IsValid (finishes e id) s h = (_, _, refl, process_finished-IsValid e id s h)
  step-IsValid (cannot_start id) s h = (_, _, refl, failed_to_start-IsValid id s h)
  step-IsValid (writes output id) s h = parse-IsValid output id s h
  step-IsValid (removes id) s h = (_, _, refl, remove_transfer-IsValid id s h)
  step-IsValid purges s h = (_, _, refl, purge-IsValid s h)

  -- From a state in which the identifiers are below the next one and ascend in the list, an active
  -- transfer has a process that is alive, and a process that is alive belongs to a transfer that is
  -- active or was cancelled: whatever the user, the processes and the timers do, the calls return and
  -- the state that they leave is such a state again.
  pub transfer_run-IsValid :
      (es : List TransferEvent) (s : Transfers)
      → IsValid s
      → (s' : Transfers) × (signals : List TransferSignal) × (transfer_run read_line es s
          ≡ some (s', signals))
        × IsValid s'
  unfolding transfer_run
  transfer_run-IsValid [] s h = (s, [], refl, h)
  transfer_run-IsValid (e ∷ es) s h =
      let (s', signals, stepped, kept) = step-IsValid e s h in
      let (s'', more, ran, kept') = transfer_run-IsValid es s' kept in
      (s'', signals ++ more, rw (stepped, ran, transfer_run) refl, kept')
