-- ===== src/Desktop/Launcher/Tracks.antt =====
-- The rows of app/src/apps/RunningAppModel.cpp against the applications that
-- app/src/dlp/DlpCompositorManager.cpp keeps.
use coder_desktop_linux.Common.{
  ℕ, ◌+◌, zero, suc, ◌≡◌, refl, sym, subst, ap, ◌∙◌, Bool, false, ◌&&◌, ◌||◌, Option, some, List,
  [], ◌∷◌, length, get_elem?, set, arith, Bool-cases, Option-cases, ℤ, is_nonneg, ◌==◌, inl, inr,
}
use coder_desktop_linux.Output.{Marking}
use coder_desktop_linux.Clients.{Clients, get_client_count}
use coder_desktop_linux.Desktop.Launcher.{
  Entry, RunningApp, Launcher, LauncherCall, LauncherEvent, LaunchAnswers, LaunchRequest, launches,
  stops, stops_all, policy_changes, identity_changes, level_changes, monitor_ticks, shown_name,
  sandbox_of, add_entry, remove_entry, clear_entries, prepare, remove_found, remove_app, launch_in,
  launch_app, find_pid, stop_app, stop_all, update_policy, identify_apps, set_identity_of,
  check_app, check_apps, check_child_processes, set_log_level, launcher_step, launcher_run,
}
use coder_desktop_linux.Desktop.Launcher.EntryRows.{
  entries_of, rows_with, IsTracked, rows_with-append, rows_with-without_pid, rows_with-remove_at,
  entries_of-set, entries_of-append, entries_of-policy, entries_of-identify,
}

-- A list of applications with the same rows is tracked by the same entries.
same_rows :
    (s : Launcher) (apps : List RunningApp)
    → entries_of apps ≡ entries_of s.apps
    → IsTracked s
    → IsTracked (record s { apps = apps })
same_rows s apps e h pid = h pid ∙ ap (rows_with pid) (sym e)

remove_app-IsTracked : (i : ℕ) (s : Launcher) → IsTracked s → IsTracked (remove_app i s).0
unfolding remove_app remove_found remove_entry
remove_app-IsTracked i s h = elim (Option-cases (get_elem? s.apps i)) [
  | inl e ↦ rw (e, remove_app) h
  | inr (app, e) ↦
      rw (e, remove_app)
        (λ pid. ground (
          arith,
          rows_with-without_pid pid app.pid s.entries,
          rows_with-remove_at pid i s.apps app e,
          h pid,
        ))
]

stop_app-IsTracked : (pid : ℤ) (s : Launcher) → IsTracked s → IsTracked (stop_app pid s).0
unfolding stop_app
stop_app-IsTracked pid s h = elim (Option-cases (find_pid pid 0 s.apps)) [
  | inl e ↦ rw (e, stop_app) h
  | inr (i, e) ↦ rw (e, stop_app) (remove_app-IsTracked i s h)
]

check_app-IsTracked :
    (exited : ℤ → Bool) (clients : ℕ → Clients) (i : ℕ) (s : Launcher)
    → IsTracked s
    → IsTracked (check_app exited clients i s).0
unfolding check_app
check_app-IsTracked exited clients i s h = elim (Option-cases (get_elem? s.apps i)) [
  | inl e ↦ rw (e, check_app) h
  | inr (app, e) ↦
      let b : Bool = exited app.pid || app.bwrap_exited in
      let s' : Launcher = record s { apps = set s.apps i (record app { bwrap_exited = b }) } in
      let h' = same_rows s s'.apps (entries_of-set app i b s.apps e) h in
      elim (Bool-cases (b && get_client_count (some (clients app.address)) == 0)) [
        | inl done ↦ rw (e, done, check_app) (remove_app-IsTracked i s' h')
        | inr busy ↦ rw (e, busy, check_app) h'
      ]
]

check_apps-IsTracked :
    (exited : ℤ → Bool) (clients : ℕ → Clients) (n : ℕ) (s : Launcher)
    → IsTracked s
    → IsTracked (check_apps exited clients n s).0
unfolding check_apps
check_apps-IsTracked exited clients zero s h = h
check_apps-IsTracked exited clients (suc i) s h =
    check_apps-IsTracked exited clients i (check_app exited clients i s).0
      (check_app-IsTracked exited clients i s h)

launch_in-IsTracked :
    (a : LaunchAnswers) (r : LaunchRequest) (address : ℕ) (comp : Option Marking) (s : Launcher)
    → IsTracked s
    → IsTracked (launch_in a r address comp s).1
unfolding launch_in add_entry
launch_in-IsTracked a r address comp s h =
    let pid = a.launch r.command (sandbox_of r) in
    let e : Entry = record { pid = pid; app_name = shown_name r; command = r.command } in
    let app : RunningApp = record {
      pid = pid;
      app_name = shown_name r;
      command = r.command;
      address = address;
      compositor = comp;
      bwrap_exited = false;
    } in
    elim (Bool-cases (is_nonneg pid)) [
      | inr failed ↦ rw (failed, launch_in) h
      | inl started ↦
          rw (started, launch_in)
            (λ q.
              rows_with-append q s.entries e
              ∙ ap (λ n. n + rows_with q (e ∷ [])) (h q)
              ∙ sym (
                  ap (rows_with q) (entries_of-append s.apps app)
                  ∙ rows_with-append q (entries_of s.apps) e))
    ]

launch-IsTracked :
    (a : LaunchAnswers) (r : LaunchRequest) (s : Launcher) (out : ℤ × Launcher × List LauncherCall)
    → IsTracked s
    → launch_app a r s ≡ some out
    → IsTracked out.1
unfolding launch_app
launch-IsTracked a r s out h e = elim (Bool-cases a.is_available) [
  | inr off ↦ let same : out.1 ≡ s = ground arith in subst IsTracked (sym same) h
  | inl on ↦ elim (Option-cases a.created) [
    | inl refused ↦ let same : out.1 ≡ s = ground arith in subst IsTracked (sym same) h
    | inr (address, created) ↦
        elim (Option-cases (prepare a.scratch s.current_policy s.watermark_identity)) [
          | inl stuck ↦ absurd (ground arith)
          | inr (comp, ready) ↦
              let same : out ≡ launch_in a r address comp s = ground arith in
              rw same (launch_in-IsTracked a r address comp s h)
        ]
  ]
]

clear_entries_lem : (es : List Entry) → (clear_entries es).0 ≡ []
unfolding clear_entries
clear_entries_lem [] = refl
clear_entries_lem (e ∷ es) = refl

stop_all-IsTracked : (s : Launcher) → IsTracked (stop_all s).0
unfolding stop_all
stop_all-IsTracked s pid = ap (rows_with pid) (clear_entries_lem s.entries)

step-IsTracked :
    (e : LauncherEvent) (s s' : Launcher) (calls : List LauncherCall)
    → IsTracked s
    → launcher_step e s ≡ some (s', calls)
    → IsTracked s'
unfolding launcher_step update_policy set_identity_of set_log_level check_child_processes
step-IsTracked (launches a r) s s' calls h e = elim (Option-cases (launch_app a r s)) [
  | inl stuck ↦ absurd (ground arith)
  | inr (out, returns) ↦
      let same : out.1 ≡ s' = ground arith in
      subst IsTracked same (launch-IsTracked a r s out h returns)
]
step-IsTracked (stops pid) s s' calls h e =
    let same : (stop_app pid s).0 ≡ s' = ground arith in
    subst IsTracked same (stop_app-IsTracked pid s h)
step-IsTracked stops_all s s' calls h e =
    let same : (stop_all s).0 ≡ s' = ground arith in subst IsTracked same (stop_all-IsTracked s)
step-IsTracked (policy_changes policy) s s' calls h e =
    let same : update_policy policy s ≡ s' = ground arith in
    subst IsTracked same (λ pid. h pid ∙ sym (ap (rows_with pid) (entries_of-policy policy s.apps)))
step-IsTracked (identity_changes buffer identity) s s' calls h e =
    elim (Option-cases (identify_apps buffer identity s.apps)) [
      | inl stuck ↦ absurd (ground arith)
      | inr (apps, returns) ↦
          let same : record s { apps = apps; watermark_identity = identity } ≡ s' = ground arith in
          let rows = entries_of-identify buffer identity s.apps apps returns in
          subst IsTracked same (λ pid. h pid ∙ sym (ap (rows_with pid) rows))
    ]
step-IsTracked (level_changes level) s s' calls h e =
    let same : set_log_level level s ≡ s' = ground arith in subst IsTracked same h
step-IsTracked (monitor_ticks exited clients) s s' calls h e =
    let same : (check_apps exited clients (length s.apps) s).0 ≡ s' = ground arith in
    subst IsTracked same (check_apps-IsTracked exited clients (length s.apps) s h)

-- From a state in which every process id has as many rows as applications, after any launches, stops,
-- changes of the policy, the identity and the log level, and ticks of the monitor: every process id has
-- as many rows, in the list that the user interface shows, as there are applications with it. This
-- holds also where the system gives a process id again while an application with it is still kept.
pub launcher_run-IsTracked :
    (es : List LauncherEvent) (s s' : Launcher) (calls : List LauncherCall)
    → IsTracked s
    → launcher_run es s ≡ some (s', calls)
    → IsTracked s'
unfolding launcher_run
launcher_run-IsTracked [] s s' calls h e =
    let same : s ≡ s' = ground arith in subst IsTracked same h
launcher_run-IsTracked (event ∷ es) s s' calls h e = elim (Option-cases (launcher_step event s)) [
  | inl stuck ↦ absurd (ground arith)
  | inr ((t, now), stepped) ↦ elim (Option-cases (launcher_run es t)) [
    | inl stuck ↦ absurd (ground arith)
    | inr ((u, more), returns) ↦
        let same : u ≡ s' = ground arith in
        subst IsTracked same
          (launcher_run-IsTracked es t u more (step-IsTracked event s t now h stepped) returns)
  ]
]
