-- ===== src/Desktop/Sync/Returns.antt =====
-- The polls of app/src/filesync/FileSyncManager.cpp for the sessions, where every process starts.
use coder_desktop_linux.Common.{
  ℕ, suc, ◌≡◌, refl, ap, ◌∙◌, Bool, true, false, some, List, [], ◌∷◌, get_elem?, if◌then◌else◌, ℤ,
  pos, same_int, String, is_empty, arith, All, Option-cases, Bool-cases, inl, inr,
}
use coder_desktop_linux.Desktop.Launcher.{remove_at}
use coder_desktop_linux.Desktop.Sync.{
  StartAnswer, StopAnswers, start_daemon, stop_daemon, daemon_exited, DaemonState, Command, listing,
  creating, changing, Sync, ListDocument, parse_session_list, run_mutagen, refresh_sessions,
  create_session, set_vpn_connected, update_model, command_finished, SyncEvent, vpn_changes,
  creates, changes, refreshes, finishes, cannot_start, daemon_exits, policy_changes, sync_step,
  sync_run,
}
use coder_desktop_linux.Desktop.Sync.Stuck.{
  is_listing, listings, listings-append, listings-remove_at,
}

-- One listing waits while a poll is in flight, else none; and there is a binary.
pub record IsInStep (s : Sync) : Type 0 where
  pub waits : listings s.commands ≡ (if s.poll_in_flight then 1 else 0)
  pub there : is_empty s.daemon.binary_path ≡ false

-- Anything but a process that cannot be started.
abbrev pub starts : SyncEvent → Bool
starts (vpn_changes start stop connected) = true
starts (creates answer) = true
starts (changes verb) = true
starts refreshes = true
starts (finishes i code output) = true
starts (cannot_start i reason) = false
starts daemon_exits = true
starts (policy_changes up down) = true

-- The daemon keeps its binary.
start_daemon-path :
    (answer : StartAnswer) (d : DaemonState) → (start_daemon answer d).1.binary_path ≡ d.binary_path
unfolding start_daemon
start_daemon-path answer d = ground arith

stop_daemon-path :
    (answers : StopAnswers) (d : DaemonState)
    → (stop_daemon answers d).0.binary_path ≡ d.binary_path
unfolding stop_daemon
stop_daemon-path answers d = ground arith

daemon_exited-path : (d : DaemonState) → (daemon_exited d).0.binary_path ≡ d.binary_path
unfolding daemon_exited
daemon_exited-path d = ground arith

run_mutagen-IsInStep :
    (c : Command) (s : Sync) → is_listing c ≡ 0 → IsInStep s → IsInStep (run_mutagen c s).0
unfolding run_mutagen
run_mutagen-IsInStep c s other h =
    rw (h.there, run_mutagen)
      (record {
        waits = omega (arith, listings-append s.commands c, other, h.waits);
        there = h.there;
      })

refresh-IsInStep : (s : Sync) → IsInStep s → IsInStep (refresh_sessions s).0
unfolding refresh_sessions
refresh-IsInStep s h = record {
  waits = ground (arith, listings-append s.commands listing, h.waits, h.there);
  there = ground (arith, h.there);
}

create_session-IsInStep :
    (answer : StartAnswer) (s : Sync) → IsInStep s → IsInStep (create_session answer s).0
unfolding create_session run_mutagen
create_session-IsInStep answer s h = record {
  waits = ground (arith, listings-append s.commands creating, h.waits);
  there = ground (arith, start_daemon-path answer s.daemon, h.there);
}

set_vpn_connected-IsInStep :
    (start : StartAnswer) (stop : StopAnswers) (b : Bool) (s : Sync)
    → IsInStep s
    → IsInStep (set_vpn_connected start stop b s).0
unfolding set_vpn_connected
set_vpn_connected-IsInStep start stop true s h = record {
  waits = ground (arith, h.waits);
  there = ground (arith, start_daemon-path start s.daemon, h.there);
}
set_vpn_connected-IsInStep start stop false s h = record {
  waits = ground (arith, h.waits);
  there = ground (arith, stop_daemon-path stop s.daemon, h.there);
}

listing_at : (cs : List Command) → listings cs ≡ 1 → (i : ℕ) × (get_elem? cs i ≡ some listing)
unfolding listings
listing_at [] h = absurd (omega arith)
listing_at (listing ∷ cs) h = (0, refl)
listing_at (creating ∷ cs) h = let (i, found) = listing_at cs (omega (arith, h)) in (suc i, found)
listing_at (changing verb ∷ cs) h =
    let (i, found) = listing_at cs (omega (arith, h)) in (suc i, found)

module _ (show : ℕ → String) where
  listing_ended :
      (code : ℤ) (output : ListDocument) (s : Sync)
      → let s' = (command_finished show listing code output s).0 in
        (s'.commands ≡ s.commands)
        × (s'.daemon ≡ s.daemon)
        × (s'.poll_in_flight ≡ false)
        × (s'.sessions ≡ (if same_int code (pos 0) then parse_session_list output else s.sessions))
  unfolding command_finished update_model
  listing_ended code output s = elim (Bool-cases (same_int code (pos 0))) [
    | inl well ↦ rw (well, command_finished) (refl, refl, refl, refl)
    | inr badly ↦ rw (badly, command_finished) (refl, refl, refl, refl)
  ]

  finished-IsInStep :
      (i : ℕ) (c : Command) (code : ℤ) (output : ListDocument) (s : Sync)
      → get_elem? s.commands i ≡ some c
      → IsInStep s
      → IsInStep
          (command_finished show c code output (record s { commands = remove_at i s.commands })).0
  unfolding command_finished
  finished-IsInStep i listing code output s found h =
      let (same, daemon, down, shown) =
        listing_ended code output (record s { commands = remove_at i s.commands }) in
      record {
        waits =
            ground (
              arith,
              listings-remove_at i s.commands listing found,
              h.waits,
              down,
              ap listings same,
            );
        there = ap (λ (d : DaemonState). is_empty d.binary_path) daemon ∙ h.there;
      }
  finished-IsInStep i creating code output s found h =
      refresh-IsInStep (record s { commands = remove_at i s.commands })
        (record {
          waits = omega (arith, listings-remove_at i s.commands creating found, h.waits);
          there = h.there;
        })
  finished-IsInStep i (changing verb) code output s found h =
      refresh-IsInStep (record s { commands = remove_at i s.commands })
        (record {
          waits = omega (arith, listings-remove_at i s.commands (changing verb) found, h.waits);
          there = h.there;
        })

  step-IsInStep :
      (e : SyncEvent) (s : Sync) → starts e ≡ true → IsInStep s → IsInStep (sync_step show e s).0
  unfolding sync_step
  step-IsInStep (vpn_changes start stop b) s ok h = set_vpn_connected-IsInStep start stop b s h
  step-IsInStep (creates answer) s ok h = create_session-IsInStep answer s h
  step-IsInStep (changes verb) s ok h = run_mutagen-IsInStep (changing verb) s refl h
  step-IsInStep refreshes s ok h = refresh-IsInStep s h
  step-IsInStep (finishes i code output) s ok h = elim (Option-cases (get_elem? s.commands i)) [
    | inl unknown ↦ rw (unknown, sync_step) h
    | inr (c, found) ↦ rw (found, sync_step) (finished-IsInStep i c code output s found h)
  ]
  step-IsInStep (cannot_start i reason) s ok h = absurd (ground arith)
  step-IsInStep daemon_exits s ok h = record {
    waits = h.waits;
    there = ap is_empty (daemon_exited-path s.daemon) ∙ h.there;
  }
  step-IsInStep (policy_changes up down) s ok h = record { waits = h.waits; there = h.there }

  sync_run-IsInStep :
      (es : List SyncEvent) (s : Sync)
      → All (λ e. starts e ≡ true) es
      → IsInStep s
      → IsInStep (sync_run show es s).0
  unfolding sync_run
  sync_run-IsInStep [] s ok h = h
  sync_run-IsInStep (e ∷ es) s ok h =
      sync_run-IsInStep es (sync_step show e s).0 ok.1 (step-IsInStep e s ok.0 h)

  -- What a poll comes to: one listing waits, and when it ends, with any exit code, the next poll is free
  -- to start and the sessions are those of the output, or the old ones where the code is not 0.
  abbrev pub Answered : Sync → Type 0
  Answered s =
      (i : ℕ) × (get_elem? s.commands i ≡ some listing)
      × ((code : ℤ) (output : ListDocument)
          → let s' = (sync_step show (finishes i code output) s).0 in
            (listings s'.commands ≡ 0)
            × (s'.poll_in_flight ≡ false)
            × (s'.sessions
                ≡ (if same_int code (pos 0) then parse_session_list output else s.sessions)))

  refreshed-Answered : (s : Sync) → IsInStep s → s.poll_in_flight ≡ true → Answered s
  unfolding sync_step
  refreshed-Answered s h flying =
      let one : listings s.commands ≡ 1 = ground (arith, h.waits, flying) in
      let (i, found) = listing_at s.commands one in
      (
        i,
        found,
        λ code output.
            let s1 : Sync = record s { commands = remove_at i s.commands } in
            let (same, daemon, down, shown) = listing_ended code output s1 in
            rw (found, sync_step)
              (
                omega (arith, ap listings same, listings-remove_at i s.commands listing found, one),
                down,
                shown,
              ),
      )

  refresh_flying :
      (s : Sync) → s.daemon.running ≡ true → (refresh_sessions s).0.poll_in_flight ≡ true
  unfolding refresh_sessions
  refresh_flying s on = ground (arith, on)

  -- Polling goes on. From a state with a binary in which one listing waits if a poll is in flight, and
  -- none otherwise, let anything happen but that a process cannot be started. Whenever the daemon runs
  -- then, a refresh leaves a poll in flight and a listing that waits; when that ends, with any exit code
  -- and output, no poll is in flight, no listing waits, and the sessions that are shown are those of the
  -- output, or the same as before where the exit code is not 0.
  pub refresh_sessions-Answered :
      (es : List SyncEvent) (s : Sync)
      → All (λ e. starts e ≡ true) es
      → IsInStep s
      → (sync_run show es s).0.daemon.running ≡ true
      → let asked = (sync_step show refreshes (sync_run show es s).0).0 in
        (asked.poll_in_flight ≡ true) × Answered asked
  unfolding sync_step
  refresh_sessions-Answered es s ok h on =
      let now = (sync_run show es s).0 in
      let flying = refresh_flying now on in
      (
        flying,
        refreshed-Answered (refresh_sessions now).0
            (refresh-IsInStep now (sync_run-IsInStep es s ok h)) flying,
      )
