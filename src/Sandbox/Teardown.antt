-- ===== src/Sandbox/Teardown.antt =====
-- The table of proxies of coder-dlp-compositor/src/sandbox_launcher.c over its life, and which resources
-- it answers for.
use coder_desktop_linux.Common.{
  ℕ, suc, ◌≡◌, inl, inr, refl, Bool, true, false, Option, List, [], ◌∷◌, ◌++◌, ℤ, length, arith,
  Bool-cases, ap, All,
}
use coder_desktop_linux.Sandbox.Effects.{Effect, fd_effect, child_effect, held, held-append}
use coder_desktop_linux.Sandbox.Proxy.{
  DbusProxy, Wait, reap_one, reap_dbus_proxies, cleanup_one, cleanup_dbus_proxies,
}
use coder_desktop_linux.Sandbox.Launch.{Tracker, Event, launch, tick, step, run, no_proxies}
use coder_desktop_linux.Sandbox.Accounts.{
  IsWait, IsResource, owns_fd, owns_child, fd_IsResource, child_IsResource,
}
use coder_desktop_linux.Sandbox.Covered.{IsFitting, IsLegal, owned, Covered, launch_app-Covered}

module _ (effect : Effect → Option Bool) (owns : DbusProxy → Bool)
    (r : IsResource effect owns) where
  reap-Covered :
      (wait : ℤ → Wait) (ps : List DbusProxy) (before : Bool)
      → held effect before (reap_dbus_proxies wait ps).1 ≡ true
      → (before ≡ true) × (owned owns ps ≡ true → owned owns (reap_dbus_proxies wait ps).0 ≡ true)
  unfolding reap_dbus_proxies held owned
  reap-Covered wait [] before h = (h, λ o. o)
  reap-Covered wait (p ∷ ps) before h =
      let (mid, rest) =
        reap-Covered wait ps (held effect before (reap_one wait p).1) (rw held-append at h) in
      let (b, one) = r.reaped wait p before mid in (b, λ o. ground (arith, rest, one))

  length-reap :
      (wait : ℤ → Wait) (ps : List DbusProxy) → length (reap_dbus_proxies wait ps).0 ≡ length ps
  unfolding reap_dbus_proxies
  length-reap wait [] = refl
  length-reap wait (p ∷ ps) = ap suc (length-reap wait ps)

  cleanup-Covered :
      (wait : ℤ → Wait) (ps : List DbusProxy) (before : Bool)
      → IsWait wait
      → held effect before (cleanup_dbus_proxies wait ps) ≡ true
      → (before ≡ true) × (owned owns ps ≡ false)
  unfolding cleanup_dbus_proxies held owned
  cleanup-Covered wait [] before w h = (h, refl)
  cleanup-Covered wait (p ∷ ps) before w h =
      let (mid, rest) =
        cleanup-Covered wait ps (held effect before (cleanup_one wait p)) w (rw held-append at h) in
      let (b, one) = r.cleaned wait p before w mid in (b, ground arith)

  step-Covered :
      (e : Event) (t : Tracker) (before : Bool)
      → IsLegal e
      → IsFitting t
      → Covered owns before t.proxies
      → IsFitting (step e t).0 × Covered owns (held effect before (step e t).1) (step e t).0.proxies
  unfolding step
  step-Covered (launch sys comp command sandbox) t before legal fits c =
      launch_app-Covered effect owns r sys comp command sandbox t before legal fits c
  step-Covered (tick wait) t before legal fits c = (
    rw (length-reap wait t.proxies) fits,
    λ h. let (b, o) = reap-Covered wait t.proxies before h in o (c b),
  )

  run-Covered :
      (es : List Event) (t : Tracker) (before : Bool)
      → All IsLegal es
      → IsFitting t
      → Covered owns before t.proxies
      → IsFitting (run es t).0 × Covered owns (held effect before (run es t).1) (run es t).0.proxies
  unfolding run held
  run-Covered [] t before legal fits c = (fits, c)
  run-Covered (e ∷ es) t before (legal, more) fits c =
      let (fits', c') = step-Covered e t before legal fits c in
      rw held-append (run-Covered es (step e t).0 (held effect before (step e t).1) more fits' c')

  teardown :
      (es : List Event) (wait : ℤ → Wait)
      → All IsLegal es
      → IsWait wait
      → let (t, effects) = run es no_proxies in
        held effect false (effects ++ cleanup_dbus_proxies wait t.proxies) ≡ false
  teardown es wait legal w =
      elim (Bool-cases (held effect false (effects ++ cleanup_dbus_proxies wait t.proxies))) [
        | inr none_held ↦ none_held
        | inl some_held ↦
            let (mid, unowned) =
              cleanup-Covered wait t.proxies (held effect false effects) w
                (rw held-append at some_held) in
            let (fits, covered) =
              run-Covered es no_proxies false legal (omega arith) (λ e. absurd (ground arith)) in
            absurd (ground (arith, covered mid))
      ]
    where
      t : Tracker
      t = (run es no_proxies).0

      effects : List Effect
      effects = (run es no_proxies).1

-- Whatever launches and ticks of the reaper come in what order, with whatever answers of the
-- system, the cleanup of the table leaves no end of a pipe open and no proxy uncollected: each descriptor
-- and process that a launch took is given back on an error path, by the reaper or by the cleanup.
pub teardown_complete :
    (es : List Event) (wait : ℤ → Wait) (n : ℕ)
    → All IsLegal es
    → IsWait wait
    → let (t, effects) = run es no_proxies in
      let all = effects ++ cleanup_dbus_proxies wait t.proxies in
      (held (fd_effect n) false all ≡ false) × (held (child_effect n) false all ≡ false)
teardown_complete es wait n legal w = (
  teardown (fd_effect n) (owns_fd n) (fd_IsResource n) es wait legal w,
  teardown (child_effect n) (owns_child n) (child_IsResource n) es wait legal w,
)
