-- ===== src/Sandbox/Accounts.antt =====
-- Who answers for the resources that coder-dlp-compositor/src/sandbox_launcher.c takes: the descriptors
-- of the pipes and the processes of the proxies.
use coder_desktop_linux.Common.{
  ℕ, ◌<◌, ◌≡◌, ◌≢◌, ◌⊎◌, refl, Bool, true, false, ◌&&◌, Option, none, some, ◌==◌, ℤ, pos, negsuc,
  is_pos, arith,
}
use coder_desktop_linux.Sandbox.Effects.{Effect, fd_effect, child_effect, held, fork_app}
use coder_desktop_linux.Sandbox.Proxy.{
  DbusProxy, Startup, start_dbus_proxy, Wait, failed, reap_one, cleanup_one,
}
use coder_desktop_linux.Sandbox.Launch.{no_proxy, discard}

-- What the system documents: a parent gets a positive id from `fork`, and `waitpid` does not fail on
-- a child that is not collected.
abbrev pub IsChild : Option ℕ → Type 0
IsChild none = Unit {0}
IsChild (some pid) = 0 < pid

abbrev pub IsStart : Startup → Type 0
IsStart s = IsChild s.fork

abbrev pub IsWait : (ℤ → Wait) → Type 0
IsWait wait = (pid : ℤ) → wait pid ≢ failed

-- A kind of resource: `effect` follows it through the effects, and `owns` says that a proxy of the
-- table answers for it. Whatever holds after a piece of the code held before or is answered for.
pub record IsResource (effect : Effect → Option Bool) (owns : DbusProxy → Bool) : Type 0 where
  pub unowned : (p : DbusProxy) → is_pos p.pid ≡ false → owns p ≡ false
  pub app : (pid : ℕ) → effect (fork_app pid) ≡ none
  pub started :
      (s : Startup) (before : Bool)
      → IsStart s
      → held effect before (start_dbus_proxy s no_proxy).2 ≡ true
      → (before ≡ true) ⊎ (owns (start_dbus_proxy s no_proxy).1 ≡ true)
  pub discarded :
      (p : DbusProxy) (before : Bool)
      → is_pos p.pid ≡ true
      → held effect before (discard p) ≡ true
      → (before ≡ true) × (owns p ≡ false)
  pub reaped :
      (wait : ℤ → Wait) (p : DbusProxy) (before : Bool)
      → held effect before (reap_one wait p).1 ≡ true
      → (before ≡ true) × (owns p ≡ true → owns (reap_one wait p).0 ≡ true)
  pub cleaned :
      (wait : ℤ → Wait) (p : DbusProxy) (before : Bool)
      → IsWait wait
      → held effect before (cleanup_one wait p) ≡ true
      → (before ≡ true) × (owns p ≡ false)

-- The descriptor `n` as the end of a pipe.
abbrev is_int : ℕ → ℤ → Bool
is_int n (pos m) = m == n
is_int n (negsuc m) = false

abbrev pub owns_fd : ℕ → DbusProxy → Bool
owns_fd n p = is_pos p.pid && is_int n p.pipe_write_fd

-- The process `n` of a proxy.
abbrev pub owns_child : ℕ → DbusProxy → Bool
owns_child n p = is_pos p.pid && is_int n p.pid

fd_unowned : (n : ℕ) (p : DbusProxy) → is_pos p.pid ≡ false → owns_fd n p ≡ false
fd_unowned n p h = rw h

fd_started :
    (n : ℕ) (s : Startup) (before : Bool)
    → IsStart s
    → held (fd_effect n) before (start_dbus_proxy s no_proxy).2 ≡ true
    → (before ≡ true) ⊎ (owns_fd n (start_dbus_proxy s no_proxy).1 ≡ true)
unfolding held start_dbus_proxy
fd_started n s before legal h = ground arith

fd_discarded :
    (n : ℕ) (p : DbusProxy) (before : Bool)
    → is_pos p.pid ≡ true
    → held (fd_effect n) before (discard p) ≡ true
    → (before ≡ true) × (owns_fd n p ≡ false)
unfolding held discard
fd_discarded n p before h e = ground arith

fd_reaped :
    (n : ℕ) (wait : ℤ → Wait) (p : DbusProxy) (before : Bool)
    → held (fd_effect n) before (reap_one wait p).1 ≡ true
    → (before ≡ true) × (owns_fd n p ≡ true → owns_fd n (reap_one wait p).0 ≡ true)
unfolding held reap_one
fd_reaped n wait p before h = ground arith

fd_cleaned :
    (n : ℕ) (wait : ℤ → Wait) (p : DbusProxy) (before : Bool)
    → IsWait wait
    → held (fd_effect n) before (cleanup_one wait p) ≡ true
    → (before ≡ true) × (owns_fd n p ≡ false)
unfolding held cleanup_one
fd_cleaned n wait p before w h = ground arith

pub fd_IsResource : (n : ℕ) → IsResource (fd_effect n) (owns_fd n)
fd_IsResource n = record {
  unowned = fd_unowned n;
  app = λ pid. refl;
  started = fd_started n;
  discarded = fd_discarded n;
  reaped = fd_reaped n;
  cleaned = fd_cleaned n;
}

child_unowned : (n : ℕ) (p : DbusProxy) → is_pos p.pid ≡ false → owns_child n p ≡ false
child_unowned n p h = rw h

child_started :
    (n : ℕ) (s : Startup) (before : Bool)
    → IsStart s
    → held (child_effect n) before (start_dbus_proxy s no_proxy).2 ≡ true
    → (before ≡ true) ⊎ (owns_child n (start_dbus_proxy s no_proxy).1 ≡ true)
unfolding held start_dbus_proxy
child_started n s before legal h = ground arith

child_discarded :
    (n : ℕ) (p : DbusProxy) (before : Bool)
    → is_pos p.pid ≡ true
    → held (child_effect n) before (discard p) ≡ true
    → (before ≡ true) × (owns_child n p ≡ false)
unfolding held discard
child_discarded n p before h e = ground arith

child_reaped :
    (n : ℕ) (wait : ℤ → Wait) (p : DbusProxy) (before : Bool)
    → held (child_effect n) before (reap_one wait p).1 ≡ true
    → (before ≡ true) × (owns_child n p ≡ true → owns_child n (reap_one wait p).0 ≡ true)
unfolding held reap_one
child_reaped n wait p before h = ground arith

child_cleaned :
    (n : ℕ) (wait : ℤ → Wait) (p : DbusProxy) (before : Bool)
    → IsWait wait
    → held (child_effect n) before (cleanup_one wait p) ≡ true
    → (before ≡ true) × (owns_child n p ≡ false)
unfolding held cleanup_one
child_cleaned n wait p before w h = ground (arith, w p.pid)

pub child_IsResource : (n : ℕ) → IsResource (child_effect n) (owns_child n)
child_IsResource n = record {
  unowned = child_unowned n;
  app = λ pid. refl;
  started = child_started n;
  discarded = child_discarded n;
  reaped = child_reaped n;
  cleaned = child_cleaned n;
}
