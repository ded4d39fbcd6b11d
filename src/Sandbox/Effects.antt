-- ===== src/Sandbox/Effects.antt =====
-- The system calls of coder-dlp-compositor/src/sandbox_launcher.c that take or give back a resource,
-- and which resources a sequence of them leaves held.
use coder_desktop_linux.Common.{
  ℕ, ◌≡◌, refl, Bool, true, false, Option, none, some, List, [], ◌∷◌, ◌++◌, String, ◌==◌,
  if◌then◌else◌, ℤ, pos, negsuc,
}

pub data Effect : Type 0 where
  make_dir : String → Effect
  remove_dir : String → Effect
  unlink : String → Effect
  open_fd : ℕ → Effect
  close_fd : ℕ → Effect
  fork_proxy : ℕ → Effect
  kill_proxy : ℕ → Effect
  -- a `waitpid` that has collected the process
  reap_proxy : ℕ → Effect
  fork_app : ℕ → Effect

abbrev pub or_if_none : Option Bool → Bool → Bool
or_if_none none b = b
or_if_none (some c) b = c

-- The last call on a descriptor says whether it is open.
abbrev pub fd_effect : ℕ → Effect → Option Bool
fd_effect n (open_fd m) = if m == n then some true else none
fd_effect n (close_fd m) = if m == n then some false else none
fd_effect n _ = none

-- The last call on a process says whether it is still to be collected.
abbrev pub child_effect : ℕ → Effect → Option Bool
child_effect n (fork_proxy m) = if m == n then some true else none
child_effect n (reap_proxy m) = if m == n then some false else none
child_effect n _ = none

-- What held before stays as it was unless a later call of the list changes it.
unfoldable pub held : (Effect → Option Bool) → Bool → List Effect → Bool
held effect before [] = before
held effect before (e ∷ es) = held effect (or_if_none (effect e) before) es

pub held-append :
    (effect : Effect → Option Bool) (before : Bool) (xs ys : List Effect)
    → held effect before (xs ++ ys) ≡ held effect (held effect before xs) ys
unfolding held
held-append effect before [] ys = refl
held-append effect before (e ∷ xs) ys = held-append effect (or_if_none (effect e) before) xs ys

-- `close` of a descriptor that may be -1, which closes nothing.
abbrev pub close : ℤ → List Effect
close (pos n) = close_fd n ∷ []
close (negsuc n) = []

abbrev pub kill : ℤ → List Effect
kill (pos n) = kill_proxy n ∷ []
kill (negsuc n) = []

abbrev pub reap : ℤ → List Effect
reap (pos n) = reap_proxy n ∷ []
reap (negsuc n) = []
