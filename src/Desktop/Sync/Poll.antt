-- ===== src/Desktop/Sync/Poll.antt =====
-- The polls of app/src/filesync/FileSyncManager.cpp for the sessions: they never overlap.
use coder_desktop_linux.Common.{
  ℕ, ◌+◌, ◌≤◌, Bool, true, false, List, [], ◌∷◌, get_elem?, if◌then◌else◌, ℤ, String, arith,
  Option-cases, inl, inr,
}
use coder_desktop_linux.Desktop.Sync.{
  StartAnswer, StopAnswers, Command, listing, creating, changing, Sync, ListDocument, run_mutagen,
  refresh_sessions, create_session, set_vpn_connected, update_model, command_finished, SyncEvent,
  vpn_changes, creates, changes, refreshes, finishes, cannot_start, daemon_exits, policy_changes,
  sync_step, sync_run,
}
use coder_desktop_linux.Desktop.Sync.Stuck.{
  is_listing, listings, listings-append, listings-remove_at,
}

-- At most one listing waits, and none where no poll is in flight.
abbrev pub IsSingle : Sync → Type 0
IsSingle s = listings s.commands ≤ (if s.poll_in_flight then 1 else 0)

run_mutagen-IsSingle :
    (c : Command) (s : Sync)
    → listings s.commands + is_listing c ≤ (if s.poll_in_flight then 1 else 0)
    → IsSingle (run_mutagen c s).0
unfolding run_mutagen
run_mutagen-IsSingle c s h = ground (arith, listings-append s.commands c)

refresh-IsSingle : (s : Sync) → IsSingle s → IsSingle (refresh_sessions s).0
unfolding refresh_sessions
refresh-IsSingle s h = ground (arith, listings-append s.commands listing)

create_session-IsSingle :
    (answer : StartAnswer) (s : Sync) → IsSingle s → IsSingle (create_session answer s).0
unfolding create_session run_mutagen
create_session-IsSingle answer s h = ground (arith, listings-append s.commands creating)

set_vpn_connected-IsSingle :
    (start : StartAnswer) (stop : StopAnswers) (b : Bool) (s : Sync)
    → IsSingle s
    → IsSingle (set_vpn_connected start stop b s).0
unfolding set_vpn_connected
set_vpn_connected-IsSingle start stop true s h = ground arith
set_vpn_connected-IsSingle start stop false s h = ground arith

module _ (show : ℕ → String) where
  command_finished-IsSingle :
      (c : Command) (code : ℤ) (output : ListDocument) (s : Sync)
      → listings s.commands + is_listing c ≤ (if s.poll_in_flight then 1 else 0)
      → IsSingle (command_finished show c code output s).0
  unfolding command_finished update_model
  command_finished-IsSingle listing code output s h = ground arith
  command_finished-IsSingle creating code output s h = refresh-IsSingle s (omega (arith, h))
  command_finished-IsSingle (changing verb) code output s h = refresh-IsSingle s (omega (arith, h))

  step-IsSingle : (e : SyncEvent) (s : Sync) → IsSingle s → IsSingle (sync_step show e s).0
  unfolding sync_step
  step-IsSingle (vpn_changes start stop b) s h = set_vpn_connected-IsSingle start stop b s h
  step-IsSingle (creates answer) s h = create_session-IsSingle answer s h
  step-IsSingle (changes verb) s h = run_mutagen-IsSingle (changing verb) s (omega (arith, h))
  step-IsSingle refreshes s h = refresh-IsSingle s h
  step-IsSingle (finishes i code output) s h = elim (Option-cases (get_elem? s.commands i)) [
    | inl unknown ↦ rw (unknown, sync_step) h
    | inr (c, found) ↦
        rw (found, sync_step)
          (command_finished-IsSingle c code output _
            (omega (arith, listings-remove_at i s.commands c found, h)))
  ]
  step-IsSingle (cannot_start i reason) s h = elim (Option-cases (get_elem? s.commands i)) [
    | inl unknown ↦ rw (unknown, sync_step) h
    | inr (c, found) ↦
        rw (found, sync_step) (omega (arith, listings-remove_at i s.commands c found, h))
  ]
  step-IsSingle daemon_exits s h = h
  step-IsSingle (policy_changes up down) s h = h

  -- From a state in which at most one listing waits, and none where no poll is in flight, polls never
  -- overlap: this holds after anything that the user, the network, the timers and the processes do.
  pub sync_run-IsSingle :
      (es : List SyncEvent) (s : Sync) → IsSingle s → IsSingle (sync_run show es s).0
  unfolding sync_run
  sync_run-IsSingle [] s h = h
  sync_run-IsSingle (e ∷ es) s h = sync_run-IsSingle es (sync_step show e s).0 (step-IsSingle e s h)
