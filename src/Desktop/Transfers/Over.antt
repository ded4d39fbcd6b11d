-- ===== src/Desktop/Transfers/Over.antt =====
-- Transfers of app/src/filesync/FileTransferManager.cpp that are over: what each call leaves of them.
use coder_desktop_linux.Common.{
  ℕ, ◌-◌, ◌≡◌, refl, sym, subst, ap, ◌∙◌, inl, inr, Bool, true, false, Option, some, List, leb,
  arith, Bool-cases, Option-cases,
}
use coder_desktop_linux.Desktop.Transfers.{
  TransferState, queued, running, completed, failed, cancelled, Transfer, RunningTransfer,
  Transfers, TransferSignal, is_active, active, find_transfer, update_transfer, start_transfer,
  cancel_found, cancel_transfer, Ending, end_found, process_finished, unstarted_found,
  failed_to_start, parse_scp_progress, remove_transfer, finished_count, max_finished_transfers,
  purge_old_finished_transfers,
}
use coder_desktop_linux.Desktop.Transfers.Progress.{advance_all, parse_found_lem}
use coder_desktop_linux.Desktop.Transfers.Valid.{IsValid, Settled, SettledAt, advance_all_kept}
use coder_desktop_linux.Desktop.Transfers.States.{
  StateIs, IsOver, StateIs-update, All-found, StateIs-append, StateIs-drop, StateIs-purge,
}

-- A state that is not active, of a transfer whose process is alive, is that of a cancelled transfer.
over_alive :
    (st : TransferState) (alive : Bool)
    → is_active st ≡ false
    → alive ≡ true
    → SettledAt st alive
    → st ≡ cancelled
over_alive queued alive i a h = cc
over_alive running alive i a h = cc
over_alive completed alive i a h = cc
over_alive failed alive i a h = cc
over_alive cancelled alive i a h = refl

module _ (id : ℕ) (st : TransferState) (over : is_active st ≡ false) where
  pub start-IsOver :
      (info : Transfer) (s : Transfers)
      → info.id ≡ s.next_id
      → IsOver id st s
      → IsOver id st (start_transfer info s).1
  unfolding start_transfer
  start-IsOver info s e h = record {
    old = omega (arith, h.old);
    state = StateIs-append st id s.transfers _ (rw e h.old) h.state;
  }

  pub cancel-IsOver :
      (ends : Bool) (other : ℕ) (s : Transfers)
      → IsOver id st s
      → IsOver id st (cancel_transfer ends other s).0
  unfolding cancel_transfer
  cancel-IsOver ends other s h = elim (Option-cases (find_transfer other s.transfers)) [
    | inl unknown ↦ rw (unknown, cancel_transfer) h
    | inr (t, found) ↦ elim (Bool-cases (active t)) [
      | inr done ↦ rw (found, done, cancel_transfer) h
      | inl on ↦
          rw (found, on, cancel_transfer)
            (record {
              old = h.old;
              state =
                  StateIs-update st (cancel_found ends) id other s.transfers (λ u e. refl)
                    (λ u e p.
                      let same : t ≡ u = cc in
                      let on' : active u ≡ true =
                        subst (λ (v : RunningTransfer). active v ≡ true) same on in
                      absurd (ground arith))
                    h.state;
            })
    ]
  ]

  -- The handlers of the end of a process leave a cancelled transfer cancelled.
  ended-StateIs :
      (f : RunningTransfer → RunningTransfer) (other : ℕ) (s : Transfers) (t : RunningTransfer)
      → ((u : RunningTransfer) → (f u).info.id ≡ u.info.id)
      → ((u : RunningTransfer) → u.info.state ≡ cancelled → (f u).info.state ≡ cancelled)
      → find_transfer other s.transfers ≡ some t
      → t.alive ≡ true
      → IsValid s
      → IsOver id st s
      → StateIs st (find_transfer id (update_transfer other f s.transfers))
  ended-StateIs f other s t same keep found on v h =
      StateIs-update st f id other s.transfers (λ u q. same u)
        (λ u q p.
          let e : t ≡ u = cc in
          let settled =
            All-found (λ (w : RunningTransfer). Settled w) other s.transfers u v.settled q in
          let on' : u.alive ≡ true = subst (λ (w : RunningTransfer). w.alive ≡ true) e on in
          let c = over_alive u.info.state u.alive (rw p over) on' settled in keep u c ∙ sym c ∙ p)
        h.state

  pub finish-IsOver :
      (e : Ending) (other : ℕ) (s : Transfers)
      → IsValid s
      → IsOver id st s
      → IsOver id st (process_finished e other s).0
  unfolding process_finished
  finish-IsOver e other s v h = elim (Option-cases (find_transfer other s.transfers)) [
    | inl unknown ↦ rw (unknown, process_finished) h
    | inr (t, found) ↦ elim (Bool-cases t.alive) [
      | inr done ↦ rw (found, done, process_finished) h
      | inl on ↦
          rw (found, on, process_finished)
            (record {
              old = h.old;
              state =
                  ended-StateIs (end_found e) other s t (λ u. ground arith) (λ u c. ground arith)
                    found on v h;
            })
    ]
  ]

  pub unstarted-IsOver :
      (other : ℕ) (s : Transfers)
      → IsValid s
      → IsOver id st s
      → IsOver id st (failed_to_start other s).0
  unfolding failed_to_start
  unstarted-IsOver other s v h = elim (Option-cases (find_transfer other s.transfers)) [
    | inl unknown ↦ rw (unknown, failed_to_start) h
    | inr (t, found) ↦ elim (Bool-cases t.alive) [
      | inr done ↦ rw (found, done, failed_to_start) h
      | inl on ↦
          rw (found, on, failed_to_start)
            (record {
              old = h.old;
              state =
                  ended-StateIs unstarted_found other s t (λ u. ground arith) (λ u c. ground arith)
                    found on v h;
            })
    ]
  ]

  pub remove-IsOver :
      (other : ℕ) (s : Transfers)
      → IsValid s
      → IsOver id st s
      → IsOver id st (remove_transfer other s).0
  unfolding remove_transfer
  remove-IsOver other s v h = elim (Option-cases (find_transfer other s.transfers)) [
    | inl unknown ↦ rw (unknown, remove_transfer) h
    | inr (t, found) ↦ elim (Bool-cases (active t)) [
      | inl on ↦ rw (found, on, remove_transfer) h
      | inr done ↦
          rw (found, done, remove_transfer)
            (record {
              old = h.old;
              state = StateIs-drop st id other s.transfers v.ascending h.state;
            })
    ]
  ]

  pub purge-IsOver :
      (s : Transfers) → IsValid s → IsOver id st s → IsOver id st (purge_old_finished_transfers s).0
  unfolding purge_old_finished_transfers
  purge-IsOver s v h =
      let n = finished_count s.transfers - max_finished_transfers in
      elim (Bool-cases (leb (finished_count s.transfers) max_finished_transfers)) [
        | inl few ↦ rw (few, purge_old_finished_transfers) h
        | inr many ↦
            rw (many, purge_old_finished_transfers)
              (record {
                old = h.old;
                state = StateIs-purge st id n s.transfers v.ascending h.state;
              })
      ]

  pub parse-IsOver :
      (read_line : List ℕ → Option (ℕ × ℕ)) (output : List ℕ) (other : ℕ) (s s' : Transfers)
      → (signals : List TransferSignal) → IsOver id st s
      → parse_scp_progress read_line output other s ≡ some (s', signals)
      → IsOver id st s'
  unfolding parse_scp_progress
  parse-IsOver read_line output other s s' signals h e =
      elim (Option-cases (find_transfer other s.transfers)) [
        | inl unknown ↦ let same : s ≡ s' = ground arith in subst (IsOver id st) same h
        | inr (t, found) ↦
            let p = parse_found_lem read_line output t in
            let kept = advance_all_kept read_line p.0 t.info in
            let t' : RunningTransfer = record t {
              info = advance_all read_line p.0 t.info;
              stderr_buffer = p.1;
            } in
            let same : record s { transfers = update_transfer other (λ _. t') s.transfers } ≡ s' =
              ground (arith, p.3) in
            subst (IsOver id st) same (record {
              old = h.old;
              state =
                  StateIs-update st (λ _. t') id other s.transfers
                    (λ u q.
                      let e' : t ≡ u = cc in kept.0 ∙ ap (λ (w : RunningTransfer). w.info.id) e')
                    (λ u q r.
                      let e' : t ≡ u = cc in
                      kept.1 ∙ ap (λ (w : RunningTransfer). w.info.state) e' ∙ r)
                    h.state;
            })
      ]
