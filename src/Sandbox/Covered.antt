-- ===== src/Sandbox/Covered.antt =====
-- What a launch of coder-dlp-compositor/src/sandbox_launcher.c takes: a proxy of the table answers for it.
use coder_desktop_linux.Common.{
  ℕ, ◌≤◌, ◌<◌, ◌≡◌, ◌⊎◌, inl, inr, Bool, true, false, ◌||◌, Option, none, some, List, [], ◌∷◌, ◌++◌,
  String, is_pos, length, arith, Bool-cases, Option-cases, length-append,
}
use coder_desktop_linux.Sandbox.Config.{SandboxConfig, Displays, flag}
use coder_desktop_linux.Sandbox.Build.{build_bwrap_args}
use coder_desktop_linux.Sandbox.Effects.{Effect, held, held-append, fork_app}
use coder_desktop_linux.Sandbox.Proxy.{DbusProxy, Startup}
use coder_desktop_linux.Sandbox.Launch.{
  discard, Tracker, System, open_proxy, abandon, reserve, track, launch_with, launch_app, Event,
  launch, tick,
}
use coder_desktop_linux.Sandbox.Accounts.{IsStart, IsResource}

-- The entries of the table fit its array.
abbrev pub IsFitting : Tracker → Type 0
IsFitting t = length t.proxies ≤ t.capacity

abbrev pub IsLegal : Event → Type 0
IsLegal (launch sys comp command sandbox) = IsStart sys.startup
IsLegal (tick wait) = Unit {0}

reserve_room :
    (granted : Bool) (p : DbusProxy) (t : Tracker)
    → IsFitting t
    → ((reserve granted p t).0.proxies ≡ t.proxies)
      × IsFitting (reserve granted p t).0
      × (((length t.proxies < (reserve granted p t).0.capacity) × ((reserve granted p t).1 ≡ []))
          ⊎ (((reserve granted p t).0 ≡ t)
              × (t.capacity ≡ length t.proxies)
              × ((reserve granted p t).1 ≡ discard p)))
unfolding reserve
reserve_room granted p t fits = ground arith

unfoldable pub owned : (owns : DbusProxy → Bool) → List DbusProxy → Bool
owned owns [] = false
owned owns (p ∷ ps) = owns p || owned owns ps

-- What is held is answered for by a proxy of the table.
abbrev pub Covered : (owns : DbusProxy → Bool) → Bool → List DbusProxy → Type 0
Covered owns b ps = b ≡ true → owned owns ps ≡ true

module _ (effect : Effect → Option Bool) (owns : DbusProxy → Bool)
    (r : IsResource effect owns) where
  owned_last :
      (ps : List DbusProxy) (p : DbusProxy)
      → (owned owns ps ≡ true) ⊎ (owns p ≡ true)
      → owned owns (ps ++ p ∷ []) ≡ true
  unfolding owned
  owned_last [] p h = ground arith
  owned_last (q ∷ ps) p h = ground (arith, owned_last ps p)

  track-Covered :
      (granted : Bool) (p : DbusProxy) (t : Tracker) (before : Bool)
      → IsFitting t
      → (before ≡ true → (owned owns t.proxies ≡ true) ⊎ (owns p ≡ true))
      → IsFitting (track granted p t).0
        × (held effect before (track granted p t).1 ≡ true
            → owned owns (track granted p t).0.proxies ≡ true)
  unfolding track held
  track-Covered granted p t before fits h = ground (
    arith,
    reserve_room granted p t fits,
    owned_last t.proxies p,
    length-append t.proxies (p ∷ []),
    r.unowned p,
    r.discarded p before,
  )

  abandon-Covered :
      (p : DbusProxy) (before : Bool)
      → held effect before (abandon p) ≡ true
      → (before ≡ true) × (owns p ≡ false)
  unfolding abandon held
  abandon-Covered p before h = elim (Bool-cases (is_pos p.pid)) [
    | inl there ↦ r.discarded p before there (rw there at h)
    | inr gone ↦ ((rw gone at h), r.unowned p gone)
  ]

  open_proxy-Covered :
      (s : Startup) (sandbox : Option SandboxConfig) (before : Bool)
      → IsStart s
      → held effect before (open_proxy s sandbox).2 ≡ true
      → (before ≡ true) ⊎ (owns (open_proxy s sandbox).0 ≡ true)
  unfolding open_proxy held
  open_proxy-Covered s sandbox before legal h =
      elim (Bool-cases (flag (λ c. c.filter_dbus) sandbox)) [
        | inl filtered ↦ rw filtered (r.started s before legal (rw filtered at h))
        | inr plain ↦ inl (rw plain at h)
      ]

  failed_launch :
      (t : Tracker) (proxy : DbusProxy) (effects : List Effect) (before : Bool)
      → (held effect before effects ≡ true → (owned owns t.proxies ≡ true) ⊎ (owns proxy ≡ true))
      → held effect before (effects ++ abandon proxy) ≡ true
      → owned owns t.proxies ≡ true
  failed_launch t proxy effects before h e =
      let (mid, unowned) =
        abandon-Covered proxy (held effect before effects)
          (rw (held-append effect before effects (abandon proxy)) at e) in
      ground (arith, h mid)

  held_app :
      (pid : ℕ) (before : Bool) (es : List Effect)
      → held effect before (fork_app pid ∷ es) ≡ held effect before es
  unfolding held
  held_app pid before es = rw (r.app pid)

  good_launch :
      (granted : Bool) (pid : ℕ) (t : Tracker) (proxy : DbusProxy) (effects : List Effect)
      (before : Bool)
      → IsFitting t
      → (held effect before effects ≡ true → (owned owns t.proxies ≡ true) ⊎ (owns proxy ≡ true))
      → IsFitting (track granted proxy t).0
        × (held effect before (effects ++ fork_app pid ∷ (track granted proxy t).1) ≡ true
            → owned owns (track granted proxy t).0.proxies ≡ true)
  good_launch granted pid t proxy effects before fits h =
      let covered = track-Covered granted proxy t (held effect before effects) fits h in
      (
        covered.0,
        λ e. covered.1 (
            rw
              (
                held-append effect before effects (fork_app pid ∷ (track granted proxy t).1),
                held_app,
              )
              at e),
      )

  launch_with-Covered :
      (sys : System) (comp : Displays) (command : String) (sandbox : Option SandboxConfig)
      (t : Tracker) (proxy : DbusProxy) (proxy_socket : Option String) (effects : List Effect)
      (before : Bool)
      → IsFitting t
      → (held effect before effects ≡ true → (owned owns t.proxies ≡ true) ⊎ (owns proxy ≡ true))
      → (let result = launch_with sys comp command sandbox t proxy proxy_socket effects in
          IsFitting result.1
          × (held effect before result.2 ≡ true → owned owns result.1.proxies ≡ true))
  unfolding launch_with
  launch_with-Covered sys comp command sandbox t proxy proxy_socket effects before fits h =
      elim (Option-cases (
        build_bwrap_args sys.alloc sys.junk sys.host (some comp) (some command) sandbox
          proxy_socket)) [
            | inl unbuilt ↦ rw (unbuilt, launch_with) (fits, failed_launch t proxy effects before h)
            | inr (none, unbuilt) ↦
                rw (unbuilt, launch_with) (fits, failed_launch t proxy effects before h)
            | inr (some argv, built) ↦ elim (Option-cases sys.fork) [
              | inl unforked ↦
                  rw (built, unforked, launch_with) (fits, failed_launch t proxy effects before h)
              | inr (pid, forked) ↦
                  rw (built, forked, launch_with)
                    (good_launch sys.realloc pid t proxy effects before fits h)
            ]
          ]

  pub launch_app-Covered :
      (sys : System) (comp : Option Displays) (command : Option String)
      (sandbox : Option SandboxConfig) (t : Tracker) (before : Bool)
      → IsStart sys.startup
      → IsFitting t
      → Covered owns before t.proxies
      → (let result = launch_app sys comp command sandbox t in
          IsFitting result.1 × Covered owns (held effect before result.2) result.1.proxies)
  unfolding launch_app held
  launch_app-Covered sys none command sandbox t before legal fits c = (fits, c)
  launch_app-Covered sys (some comp) none sandbox t before legal fits c = (fits, c)
  launch_app-Covered sys (some comp) (some command) sandbox t before legal fits c =
      let (proxy, proxy_socket, effects) = open_proxy sys.startup sandbox in
      launch_with-Covered sys comp command sandbox t proxy proxy_socket effects before fits λ h.
        elim (open_proxy-Covered sys.startup sandbox before legal h) [
          | inl b ↦ inl (c b)
          | inr o ↦ inr o
        ]
