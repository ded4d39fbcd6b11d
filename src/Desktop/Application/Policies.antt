-- ===== src/Desktop/Application/Policies.antt =====
-- Which policy the launched applications have, as app/src/main.cpp connects the settings to the launcher.
use coder_desktop_linux.Common.{
  ℕ, zero, suc, ◌≡◌, refl, ◌∙◌, inl, inr, Bool, true, false, ◌&&◌, ◌||◌, some, List, length,
  get_elem?, set, arith, Bool-cases, Option-cases, ℤ, ◌==◌, is_nonneg,
}
use coder_desktop_linux.Clients.{Clients, get_client_count}
use coder_desktop_linux.Desktop.Launcher.{
  Launcher, LauncherCall, LauncherEvent, LaunchAnswers, LaunchRequest, launches, stops, stops_all,
  monitor_ticks, policy_changes, identity_changes, level_changes, set_identity_of, identify_apps,
  launcher_step, set_log_level, remove_app, remove_found, stop_app, find_pid, stop_all, check_app,
  check_apps, check_child_processes, launch_app, launch_in, prepare, sandbox_of,
}
use coder_desktop_linux.Desktop.Application.{
  AppEvent, prefers, restores, in_session, launch_requested, stop_requested, stop_all_requested,
  monitored,
}

abbrev pub changes_settings : AppEvent → Bool
changes_settings (prefers removed key value) = true
changes_settings (restores removed) = true
changes_settings (in_session scratch e) = false
changes_settings (launch_requested a r) = false
changes_settings (stop_requested pid) = false
changes_settings stop_all_requested = false
changes_settings (monitored exited clients) = false

-- An event that changes no setting, with its 256 bytes where an identity is fingerprinted.
abbrev pub IsQuiet : AppEvent → Type 0
IsQuiet (in_session scratch e) = length scratch ≡ 256
IsQuiet (launch_requested a r) = length a.scratch ≡ 256
IsQuiet e = changes_settings e ≡ false

abbrev pub changes_policy : LauncherEvent → Bool
changes_policy (policy_changes policy) = true
changes_policy (launches a r) = false
changes_policy (stops pid) = false
changes_policy stops_all = false
changes_policy (identity_changes scratch identity) = false
changes_policy (level_changes level) = false
changes_policy (monitor_ticks exited clients) = false

remove_app_policy : (i : ℕ) (s : Launcher) → (remove_app i s).0.current_policy ≡ s.current_policy
unfolding remove_app remove_found
remove_app_policy i s = elim (Option-cases (get_elem? s.apps i)) [
  | inl e ↦ rw (e, remove_app) refl
  | inr (app, e) ↦ rw (e, remove_app) refl
]

stop_app_policy : (pid : ℤ) (s : Launcher) → (stop_app pid s).0.current_policy ≡ s.current_policy
unfolding stop_app
stop_app_policy pid s = elim (Option-cases (find_pid pid 0 s.apps)) [
  | inl e ↦ rw (e, stop_app) refl
  | inr (i, e) ↦ rw (e, stop_app) (remove_app_policy i s)
]

check_app_policy :
    (exited : ℤ → Bool) (clients : ℕ → Clients) (i : ℕ) (s : Launcher)
    → (check_app exited clients i s).0.current_policy ≡ s.current_policy
unfolding check_app
check_app_policy exited clients i s = elim (Option-cases (get_elem? s.apps i)) [
  | inl e ↦ rw (e, check_app) refl
  | inr (app, e) ↦
      let b : Bool = exited app.pid || app.bwrap_exited in
      let s' : Launcher = record s { apps = set s.apps i (record app { bwrap_exited = b }) } in
      elim (Bool-cases (b && get_client_count (some (clients app.address)) == 0)) [
        | inl done ↦ rw (e, done, check_app) (remove_app_policy i s')
        | inr busy ↦ rw (e, busy, check_app) refl
      ]
]

check_apps_policy :
    (exited : ℤ → Bool) (clients : ℕ → Clients) (n : ℕ) (s : Launcher)
    → (check_apps exited clients n s).0.current_policy ≡ s.current_policy
unfolding check_apps
check_apps_policy exited clients zero s = refl
check_apps_policy exited clients (suc i) s =
    check_apps_policy exited clients i (check_app exited clients i s).0
    ∙ check_app_policy exited clients i s

launch_policy :
    (a : LaunchAnswers) (r : LaunchRequest) (s : Launcher) (out : ℤ × Launcher × List LauncherCall)
    → launch_app a r s ≡ some out
    → out.1.current_policy ≡ s.current_policy
unfolding launch_app launch_in
launch_policy a r s out e = elim (Bool-cases a.is_available) [
  | inr off ↦ ground arith
  | inl on ↦ elim (Option-cases a.created) [
    | inl refused ↦ ground arith
    | inr (address, created) ↦
        elim (Option-cases (prepare a.scratch s.current_policy s.watermark_identity)) [
          | inl stuck ↦ absurd (ground arith)
          | inr (comp, ready) ↦ elim (Bool-cases (is_nonneg (a.launch r.command (sandbox_of r)))) [
            | inl started ↦ ground arith
            | inr failed ↦ ground arith
          ]
        ]
  ]
]

-- Only a new policy changes the launcher's policy.
pub step_policy :
    (e : LauncherEvent) (s s' : Launcher) (calls : List LauncherCall)
    → changes_policy e ≡ false
    → launcher_step e s ≡ some (s', calls)
    → s'.current_policy ≡ s.current_policy
unfolding launcher_step stop_all set_identity_of set_log_level check_child_processes
step_policy (launches a r) s s' calls q e = elim (Option-cases (launch_app a r s)) [
  | inl stuck ↦ absurd (ground arith)
  | inr (out, returns) ↦ ground (arith, launch_policy a r s out returns)
]
step_policy (stops pid) s s' calls q e =
    let same : (stop_app pid s).0 ≡ s' = ground arith in rw (← same) (stop_app_policy pid s)
step_policy stops_all s s' calls q e =
    let same : (stop_all s).0 ≡ s' = ground arith in rw (← same) refl
step_policy (policy_changes policy) s s' calls q e = cc
step_policy (identity_changes buffer identity) s s' calls q e =
    elim (Option-cases (identify_apps buffer identity s.apps)) [
      | inl stuck ↦ absurd (ground arith)
      | inr (apps, returns) ↦ ground arith
    ]
step_policy (level_changes level) s s' calls q e =
    let same : set_log_level level s ≡ s' = ground arith in rw (← same) refl
step_policy (monitor_ticks exited clients) s s' calls q e =
    let same : (check_apps exited clients (length s.apps) s).0 ≡ s' = ground arith in
    rw (← same) (check_apps_policy exited clients (length s.apps) s)
