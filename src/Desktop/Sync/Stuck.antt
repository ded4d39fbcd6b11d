-- ===== src/Desktop/Sync/Stuck.antt =====
-- Polls of app/src/filesync/FileSyncManager.cpp after a listing that could not be started.
use coder_desktop_linux.Common.{
  ℕ, zero, suc, ◌+◌, ◌≡◌, refl, sym, subst, Bool, true, false, some, List, [], ◌∷◌, ◌++◌, get_elem?,
  ℤ, String, is_empty, arith, Bool-cases, Option-cases, inl, inr,
}
use coder_desktop_linux.Desktop.Launcher.{remove_at}
use coder_desktop_linux.Desktop.Sync.{
  SyncSession, StartAnswer, StopAnswers, start_daemon, Command, listing, creating, changing, Sync,
  ListDocument, run_mutagen, refresh_sessions, create_session, set_vpn_connected, command_finished,
  SyncEvent, vpn_changes, creates, changes, refreshes, finishes, cannot_start, daemon_exits,
  policy_changes, sync_step, sync_run,
}

abbrev pub is_listing : Command → ℕ
is_listing listing = 1
is_listing creating = 0
is_listing (changing verb) = 0

-- The listings that wait for their process.
unfoldable pub listings : List Command → ℕ
listings [] = 0
listings (c ∷ cs) = is_listing c + listings cs

pub listings-append :
    (cs : List Command) (c : Command) → listings (cs ++ c ∷ []) ≡ listings cs + is_listing c
unfolding listings
listings-append [] c = omega arith
listings-append (d ∷ cs) c = omega (arith, listings-append cs c)

pub listings-remove_at :
    (i : ℕ) (cs : List Command) (c : Command)
    → get_elem? cs i ≡ some c
    → listings (remove_at i cs) + is_listing c ≡ listings cs
unfolding listings
listings-remove_at i [] c e = cc
listings-remove_at zero (d ∷ cs) c e = let same : d ≡ c = cc in rw same (omega arith)
listings-remove_at (suc i) (d ∷ cs) c e = omega (arith, listings-remove_at i cs c e)

-- A poll is in flight that no process will answer.
pub record IsStuck (sessions : List SyncSession) (s : Sync) : Type 0 where
  in_flight : s.poll_in_flight ≡ true
  none_waits : listings s.commands ≡ 0
  same : s.sessions ≡ sessions

pub run_mutagen-IsStuck :
    (ss : List SyncSession) (c : Command) (s : Sync)
    → is_listing c ≡ 0
    → IsStuck ss s
    → IsStuck ss (run_mutagen c s).0
unfolding run_mutagen
run_mutagen-IsStuck ss c s other h = elim (Bool-cases (is_empty s.daemon.binary_path)) [
  | inl missing ↦ rw (missing, run_mutagen) h
  | inr there ↦
      rw (there, run_mutagen)
        (record {
          in_flight = h.in_flight;
          none_waits = omega (arith, listings-append s.commands c, other, h.none_waits);
          same = h.same;
        })
]

pub refresh-IsStuck :
    (ss : List SyncSession) (s : Sync) → IsStuck ss s → IsStuck ss (refresh_sessions s).0
unfolding refresh_sessions
refresh-IsStuck ss s h = record {
  in_flight = ground arith;
  none_waits = ground arith;
  same = ground arith;
}

pub create_session-IsStuck :
    (ss : List SyncSession) (answer : StartAnswer) (s : Sync)
    → IsStuck ss s
    → IsStuck ss (create_session answer s).0
unfolding create_session
create_session-IsStuck ss answer s h =
    let (up, daemon, signals) = start_daemon answer s.daemon in
    let s' : Sync = record s { daemon = daemon; polling = true } in
    let ran : IsStuck ss (run_mutagen creating s').0 =
      run_mutagen-IsStuck ss creating s' refl
        (record { in_flight = h.in_flight; none_waits = h.none_waits; same = h.same }) in
    record {
      in_flight = ground (arith, ran.in_flight);
      none_waits = ground (arith, ran.none_waits);
      same = ground (arith, ran.same);
    }

pub set_vpn_connected-IsStuck :
    (ss : List SyncSession) (start : StartAnswer) (stop : StopAnswers) (b : Bool) (s : Sync)
    → IsStuck ss s
    → IsStuck ss (set_vpn_connected start stop b s).0
unfolding set_vpn_connected
set_vpn_connected-IsStuck ss start stop true s h = record {
  in_flight = ground arith;
  none_waits = ground arith;
  same = ground arith;
}
set_vpn_connected-IsStuck ss start stop false s h = record {
  in_flight = ground arith;
  none_waits = ground arith;
  same = ground arith;
}

module _ (show : ℕ → String) where
  pub command_finished-IsStuck :
      (ss : List SyncSession) (c : Command) (code : ℤ) (output : ListDocument) (s : Sync)
      → is_listing c ≡ 0
      → IsStuck ss s
      → IsStuck ss (command_finished show c code output s).0
  unfolding command_finished
  command_finished-IsStuck ss listing code output s e h = absurd (omega arith)
  command_finished-IsStuck ss creating code output s e h = refresh-IsStuck ss s h
  command_finished-IsStuck ss (changing verb) code output s e h = refresh-IsStuck ss s h

  pub step-IsStuck :
      (ss : List SyncSession) (e : SyncEvent) (s : Sync)
      → IsStuck ss s
      → IsStuck ss (sync_step show e s).0
  unfolding sync_step
  step-IsStuck ss (vpn_changes start stop b) s h = set_vpn_connected-IsStuck ss start stop b s h
  step-IsStuck ss (creates answer) s h = create_session-IsStuck ss answer s h
  step-IsStuck ss (changes verb) s h = run_mutagen-IsStuck ss (changing verb) s refl h
  step-IsStuck ss refreshes s h = refresh-IsStuck ss s h
  step-IsStuck ss (finishes i code output) s h = elim (Option-cases (get_elem? s.commands i)) [
    | inl unknown ↦ rw (unknown, sync_step) h
    | inr (c, found) ↦
        let removed = listings-remove_at i s.commands c found in
        rw (found, sync_step)
          (command_finished-IsStuck ss c code output _ (omega (arith, removed, h.none_waits))
            (record {
              in_flight = h.in_flight;
              none_waits = omega (arith, removed, h.none_waits);
              same = h.same;
            }))
  ]
  step-IsStuck ss (cannot_start i reason) s h = elim (Option-cases (get_elem? s.commands i)) [
    | inl unknown ↦ rw (unknown, sync_step) h
    | inr (c, found) ↦
        let removed = listings-remove_at i s.commands c found in
        rw (found, sync_step)
          (record {
            in_flight = h.in_flight;
            none_waits = omega (arith, removed, h.none_waits);
            same = h.same;
          })
  ]
  step-IsStuck ss daemon_exits s h = record {
    in_flight = h.in_flight;
    none_waits = h.none_waits;
    same = h.same;
  }
  step-IsStuck ss (policy_changes up down) s h = record {
    in_flight = h.in_flight;
    none_waits = h.none_waits;
    same = h.same;
  }

  pub run-IsStuck :
      (ss : List SyncSession) (es : List SyncEvent) (s : Sync)
      → IsStuck ss s
      → IsStuck ss (sync_run show es s).0
  unfolding sync_run
  run-IsStuck ss [] s h = h
  run-IsStuck ss (e ∷ es) s h = run-IsStuck ss es (sync_step show e s).0 (step-IsStuck ss e s h)

  -- Where one listing waits and its process cannot be started, the sessions that are shown never
  -- change again, whatever happens after.
  pub unstarted_poll :
      (i : ℕ) (reason : String) (es : List SyncEvent) (s : Sync)
      → s.poll_in_flight ≡ true
      → listings s.commands ≡ 1
      → get_elem? s.commands i ≡ some listing
      → (sync_run show (cannot_start i reason ∷ es) s).0.sessions ≡ s.sessions
  unfolding sync_run sync_step
  unstarted_poll i reason es s flying one found =
      let s' : Sync = record s { commands = remove_at i s.commands } in
      let stuck : IsStuck s.sessions s' = record {
        in_flight = flying;
        none_waits = omega (arith, listings-remove_at i s.commands listing found, one);
        same = refl;
      } in
      let e : (sync_step show (cannot_start i reason) s).0 ≡ s' = rw (found, sync_step) refl in
      (run-IsStuck s.sessions es (sync_step show (cannot_start i reason) s).0
        (subst (IsStuck s.sessions) (sym e) stuck)).same
