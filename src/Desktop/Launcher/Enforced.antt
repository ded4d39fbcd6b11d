-- ===== src/Desktop/Launcher/Enforced.antt =====
-- The policy and the identity that the compositors of the launched applications have, after any
-- calls of the manager (app/src/dlp/DlpCompositorManager.cpp).
use coder_desktop_linux.Common.{
  ℕ, zero, suc, ◌≡◌, refl, inl, inr, Bool, ◌&&◌, ◌||◌, Option, some, List, [], ◌∷◌, ◌++◌, map,
  length, get_elem?, set, All, All-append, Bool-cases, Option-cases, ℤ, negsuc, is_nonneg, concat,
  ◌==◌,
}
use coder_desktop_linux.Output.{Policy, Marking, set_policy}
use coder_desktop_linux.Clients.{Clients, get_client_count}
use coder_desktop_linux.Desktop.Launcher.{
  RunningApp, Launcher, LauncherCall, LauncherEvent, LaunchAnswers, LaunchRequest, launches, stops,
  stops_all, policy_changes, identity_changes, level_changes, monitor_ticks, remove_found,
  remove_app, launch_in, launch_app, find_pid, stop_app, stop_all, update_policy, identify_apps,
  set_identity_of, check_app, check_apps, check_child_processes, error_occurred, sandbox_of,
  set_log_level, launcher_step, launcher_run,
}
use coder_desktop_linux.Desktop.Launcher.Marks.{
  Marks, Enforces, IsEnforced, HasScratch, All-remove_at, All-set, All-get_elem?, named_Shows,
  prepare-Marks,
}

launch_in-Enforced :
    (a : LaunchAnswers) (r : LaunchRequest) (address : ℕ) (comp : Option Marking) (s : Launcher)
    → Marks s.current_policy s.watermark_identity comp
    → IsEnforced s
    → IsEnforced (launch_in a r address comp s).1
unfolding launch_in
launch_in-Enforced a r address comp s marks h =
    elim (Bool-cases (is_nonneg (a.launch r.command (sandbox_of r)))) [
      | inl started ↦ rw (started, launch_in) (All-append _ s.apps _ h (marks, tt))
      | inr failed ↦ rw (failed, launch_in) h
    ]

launch-Enforced :
    (a : LaunchAnswers) (r : LaunchRequest) (s : Launcher)
    → length a.scratch ≡ 256
    → IsEnforced s
    → (out : ℤ × Launcher × List LauncherCall) × (launch_app a r s ≡ some out) × IsEnforced out.1
unfolding launch_app launch_in
launch-Enforced a r s scratch h = elim (Bool-cases a.is_available) [
  | inr off ↦ (
    (negsuc 0, s, error_occurred "DLP compositor requires a Wayland or X11 session" ∷ []),
    rw (off, launch_app) refl,
    h,
  )
  | inl on ↦ elim (Option-cases a.created) [
    | inl e ↦ (
      (
        negsuc 0,
        s,
        error_occurred (concat ("Failed to create DLP compositor for: " ∷ r.command ∷ [])) ∷ [],
      ),
      rw (on, e, launch_app) refl,
      h,
    )
    | inr (address, e) ↦
        let (comp, ready, marks) =
          prepare-Marks a.scratch s.current_policy s.watermark_identity scratch in
        (
          launch_in a r address comp s,
          rw (on, e, ready, launch_app) refl,
          launch_in-Enforced a r address comp s marks h,
        )
  ]
]

remove_app-Enforced : (i : ℕ) (s : Launcher) → IsEnforced s → IsEnforced (remove_app i s).0
unfolding remove_app remove_found
remove_app-Enforced i s h = elim (Option-cases (get_elem? s.apps i)) [
  | inl e ↦ rw (e, remove_app) h
  | inr (app, e) ↦ rw (e, remove_app) (All-remove_at _ i s.apps h)
]

stop_app-Enforced : (pid : ℤ) (s : Launcher) → IsEnforced s → IsEnforced (stop_app pid s).0
unfolding stop_app
stop_app-Enforced pid s h = elim (Option-cases (find_pid pid 0 s.apps)) [
  | inl e ↦ rw (e, stop_app) h
  | inr (i, e) ↦ rw (e, stop_app) (remove_app-Enforced i s h)
]

pub update_policy-Enforced :
    (policy before : Policy) (identity : List ℕ) (apps : List RunningApp)
    → Enforces before identity apps
    → Enforces policy identity (
        map
          (λ (app : RunningApp). record app {
            compositor = set_policy app.compositor (some policy);
          })
          apps)
unfolding set_policy
update_policy-Enforced policy before identity [] h = tt
update_policy-Enforced policy before identity (app ∷ apps) ((m, e, shown), h) = (
  (record m { policy = policy }, rw e, (refl, shown.1, shown.2)),
  update_policy-Enforced policy before identity apps h,
)

pub identify_apps-Enforced :
    (scratch identity before : List ℕ) (policy : Policy) (apps : List RunningApp)
    → length scratch ≡ 256
    → Enforces policy before apps
    → (apps' : List RunningApp) × (identify_apps scratch identity apps ≡ some apps')
      × Enforces policy identity apps'
unfolding identify_apps
identify_apps-Enforced scratch identity before policy [] s h = ([], refl, tt)
identify_apps-Enforced scratch identity before policy (app ∷ apps) s ((m, e, shown), h) =
    let (comp, named, marks) = named_Shows scratch identity policy before m s shown in
    let (rest, returns, more) = identify_apps-Enforced scratch identity before policy apps s h in
    (record app { compositor = comp } ∷ rest, rw (e, named, returns, identify_apps), (marks, more))

check_app-Enforced :
    (exited : ℤ → Bool) (clients : ℕ → Clients) (i : ℕ) (s : Launcher)
    → IsEnforced s
    → IsEnforced (check_app exited clients i s).0
unfolding check_app
check_app-Enforced exited clients i s h = elim (Option-cases (get_elem? s.apps i)) [
  | inl e ↦ rw (e, check_app) h
  | inr (app, e) ↦
      let app' : RunningApp = record app { bwrap_exited = exited app.pid || app.bwrap_exited } in
      let s' : Launcher = record s { apps = set s.apps i app' } in
      let h' : IsEnforced s' = All-set _ i app' s.apps (All-get_elem? _ i app s.apps h e) h in
      elim (Bool-cases (app'.bwrap_exited && get_client_count (some (clients app.address)) == 0)) [
        | inl done ↦ rw (e, done, check_app) (remove_app-Enforced i s' h')
        | inr busy ↦ rw (e, busy, check_app) h'
      ]
]

check_apps-Enforced :
    (exited : ℤ → Bool) (clients : ℕ → Clients) (n : ℕ) (s : Launcher)
    → IsEnforced s
    → IsEnforced (check_apps exited clients n s).0
unfolding check_apps
check_apps-Enforced exited clients zero s h = h
check_apps-Enforced exited clients (suc i) s h =
    check_apps-Enforced exited clients i (check_app exited clients i s).0
      (check_app-Enforced exited clients i s h)

-- What a call of the manager returns, from a state in which the policy and the identity are in force.
abbrev pub Keeps : Option (Launcher × List LauncherCall) → Type 0
Keeps r = (s : Launcher) × (calls : List LauncherCall) × (r ≡ some (s, calls)) × IsEnforced s

pub step-Enforced :
    (e : LauncherEvent) (s : Launcher) → HasScratch e → IsEnforced s → Keeps (launcher_step e s)
unfolding launcher_step stop_all update_policy set_identity_of set_log_level check_child_processes
step-Enforced (launches a r) s scratch h =
    let (out, returns, kept) = launch-Enforced a r s scratch h in
    (out.1, out.2, rw (returns, launcher_step) refl, kept)
step-Enforced (stops pid) s scratch h =
    ((stop_app pid s).0, (stop_app pid s).1, refl, stop_app-Enforced pid s h)
step-Enforced stops_all s scratch h = ((stop_all s).0, (stop_all s).1, refl, tt)
step-Enforced (policy_changes policy) s scratch h = (
  update_policy policy s,
  [],
  refl,
  update_policy-Enforced policy s.current_policy s.watermark_identity s.apps h,
)
step-Enforced (identity_changes buffer identity) s scratch h =
    let (apps, returns, kept) =
      identify_apps-Enforced buffer identity s.watermark_identity s.current_policy s.apps scratch
        h in
    (
      record s { apps = apps; watermark_identity = identity },
      [],
      rw (returns, launcher_step, set_identity_of) refl,
      kept,
    )
step-Enforced (level_changes level) s scratch h = (set_log_level level s, [], refl, h)
step-Enforced (monitor_ticks exited clients) s scratch h =
    let out = check_apps exited clients (length s.apps) s in
    (out.0, out.1, refl, check_apps-Enforced exited clients (length s.apps) s h)

-- From a state in which every launched application's compositor has the manager's policy and
-- identity, whatever is launched, stopped, found to have exited or changed in policy, identity and log
-- level: with 256 bytes of memory to fingerprint in, nothing is accessed out of bounds, and at the end
-- every compositor has the manager's policy and, where its identity is not empty, that identity's
-- fingerprint.
pub launcher_run-IsEnforced :
    (es : List LauncherEvent) (s : Launcher)
    → IsEnforced s
    → All HasScratch es
    → (s' : Launcher) × (calls : List LauncherCall) × (launcher_run es s ≡ some (s', calls))
      × IsEnforced s'
unfolding launcher_run
launcher_run-IsEnforced [] s h scratch = (s, [], refl, h)
launcher_run-IsEnforced (e ∷ es) s h (scratch, more) =
    let (s', calls, stepped, kept) = step-Enforced e s scratch h in
    let (s'', calls', ran, kept') = launcher_run-IsEnforced es s' kept more in
    (s'', calls ++ calls', rw (stepped, ran, launcher_run) refl, kept')
