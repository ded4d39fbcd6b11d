-- ===== src/Desktop/Deployments/Active.antt =====
-- Which deployment of app/src/data/SessionManager.cpp is active.
use coder_desktop_linux.Common.{
  ◌≤◌, ◌≡◌, refl, inl, inr, Bool, true, some, List, [], ◌∷◌, arith, Bool-cases, Option-cases,
  String, str_eq, is_empty, ◌==◌,
}
use coder_desktop_linux.Desktop.Secrets.{Keyring, Codec, Storage, retrieve_token}
use coder_desktop_linux.Desktop.Deployments.{
  Deployment, no_deployment, Manager, deactivate_all, find_url, UserReply, failed, user, login,
  validated, login_replied, switch_to, switch_deployment, logout, remove_deployment, last_active,
  new_manager, SessionEvent, logs_in, replies, logs_out, switches, removes, validates, restarts,
  session_step, session_run,
}
use coder_desktop_linux.Desktop.Deployments.Flags.{
  actives, IsConsistent, deactivate_all-Idle, Idle-actives, Idle-Follows, replaced, activated,
  deactivate_url-Idle, remove_url-Idle, remove_url-Follows, last_active-Follows,
}

module _ {K : Type 0} (ring : Keyring K) (codec : Codec) where
  login_replied-IsConsistent :
      (writable : Bool) (url token : String) (reply : UserReply) (m : Manager K)
      → IsConsistent m
      → IsConsistent (login_replied ring codec writable url token reply m).0
  unfolding login_replied
  login_replied-IsConsistent writable url token (failed error) m h = record {
    follows = h.follows;
    single = h.single;
    stored = h.stored;
  }
  login_replied-IsConsistent writable url token (user username avatar_url id now) m h =
      let dep : Deployment = record {
        id = id;
        name = url;
        url = url;
        username = username;
        avatar_url = avatar_url;
        is_active = true;
        added_at = now;
      } in
      let done =
        replaced dep (deactivate_all m.deployments) refl (deactivate_all-Idle m.deployments) in
      record { follows = done.0; single = omega (arith, done.1); stored = refl }

  switch_to-IsConsistent :
      (url : String) (target : Deployment) (m : Manager K)
      → find_url url m.deployments ≡ some target
      → IsConsistent m
      → IsConsistent (switch_to ring codec url target m).0
  unfolding switch_to
  switch_to-IsConsistent url target m e h =
      let done = activated url target m.deployments e in
      elim (Bool-cases (is_empty (retrieve_token ring codec url m.storage))) [
        | inl missing ↦ rw (missing, switch_to) h
        | inr there ↦
            rw (there, switch_to)
              (record { follows = done.0; single = omega (arith, done.1); stored = refl })
      ]

  switch_deployment-IsConsistent :
      (url : String) (m : Manager K)
      → IsConsistent m
      → IsConsistent (switch_deployment ring codec url m).0
  unfolding switch_deployment
  switch_deployment-IsConsistent url m h = elim (Option-cases (find_url url m.deployments)) [
    | inl unknown ↦ rw (unknown, switch_deployment) h
    | inr (target, e) ↦ rw (e, switch_deployment) (switch_to-IsConsistent url target m e h)
  ]

  new_manager-IsConsistent :
      (entries : List Deployment) (storage : Storage K)
      → actives entries ≤ 1
      → IsConsistent (new_manager ring codec entries storage)
  unfolding new_manager
  new_manager-IsConsistent entries storage h =
      let follows = last_active-Follows no_deployment entries h in
      let active = last_active no_deployment entries in
      elim (Bool-cases (is_empty active.url)) [
        | inl none_active ↦
            rw (none_active, new_manager) (record { follows = follows; single = h; stored = refl })
        | inr some_active ↦
            elim (Bool-cases (is_empty (retrieve_token ring codec active.url storage))) [
              | inl missing ↦
                  rw (some_active, missing, new_manager)
                    (record { follows = follows; single = h; stored = refl })
              | inr there ↦
                  rw (some_active, there, new_manager)
                    (record { follows = follows; single = h; stored = refl })
            ]
      ]

module _ {K : Type 0} (ring : Keyring K) where
  logout-IsConsistent :
      (writable : Bool) (m : Manager K) → IsConsistent m → IsConsistent (logout ring writable m).0
  unfolding logout
  logout-IsConsistent writable m h =
      let idle = deactivate_url-Idle m.active m.deployments h.follows in
      record {
        follows = Idle-Follows _ _ idle;
        single = omega (arith, Idle-actives _ idle);
        stored = refl;
      }

  remove_deployment-IsConsistent :
      (writable : Bool) (url : String) (m : Manager K)
      → IsConsistent m
      → IsConsistent (remove_deployment ring writable url m).0
  unfolding remove_deployment
  remove_deployment-IsConsistent writable url m h = elim (Bool-cases (str_eq m.active.url url)) [
    | inl same ↦
        let idle = remove_url-Idle url m.active m.deployments same h.follows in
        rw (same, remove_deployment)
          (record {
            follows = Idle-Follows _ _ idle;
            single = omega (arith, Idle-actives _ idle);
            stored = refl;
          })
    | inr other ↦
        let rest = remove_url-Follows url m.active m.deployments h.follows in
        rw (other, remove_deployment)
          (record { follows = rest.0; single = omega (arith, rest.1, h.single); stored = refl })
  ]

module _ {K : Type 0} (ring : Keyring K) (codec : Codec) where
  step-IsConsistent :
      (e : SessionEvent) (m : Manager K)
      → IsConsistent m
      → IsConsistent (session_step ring codec e m).0
  unfolding session_step login validated
  step-IsConsistent (logs_in url token) m h = record {
    follows = h.follows;
    single = h.single;
    stored = h.stored;
  }
  step-IsConsistent (replies writable url token reply) m h =
      login_replied-IsConsistent ring codec writable url token reply m h
  step-IsConsistent (logs_out writable) m h = logout-IsConsistent ring writable m h
  step-IsConsistent (switches url) m h = switch_deployment-IsConsistent ring codec url m h
  step-IsConsistent (removes writable url) m h =
      remove_deployment-IsConsistent ring writable url m h
  step-IsConsistent (validates status) m h = elim (Bool-cases (status == 401)) [
    | inl expired ↦
        rw (expired, session_step, validated)
          (record { follows = h.follows; single = h.single; stored = h.stored })
    | inr fine ↦ rw (fine, session_step, validated) h
  ]
  step-IsConsistent restarts m h =
      new_manager-IsConsistent ring codec m.saved m.storage (rw (h.stored) h.single)

  -- From a state in which one deployment at most is active, it is the manager's active one and the
  -- settings hold what the manager has, all of this holds after any logins, replies to earlier
  -- requests, logouts, switches, removals, validations and restarts of the program.
  pub session_run-IsConsistent :
      (es : List SessionEvent) (m : Manager K)
      → IsConsistent m
      → IsConsistent (session_run ring codec es m).0
  unfolding session_run
  session_run-IsConsistent [] m h = h
  session_run-IsConsistent (e ∷ es) m h =
      session_run-IsConsistent es (session_step ring codec e m).0 (step-IsConsistent e m h)
