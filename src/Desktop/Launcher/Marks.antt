-- ===== src/Desktop/Launcher/Marks.antt =====
-- What a compositor marks, and what DlpCompositorManager::prepare of app/src/dlp makes of a new one.
use coder_desktop_linux.Common.{
  ℕ, zero, suc, ◌≡◌, refl, subst, ◌⊎◌, inl, inr, true, Option, some, List, [], ◌∷◌, length,
  get_elem?, set, All,
}
use coder_desktop_linux.Watermark.Identity.{digest}
use coder_desktop_linux.Watermark.Digest.{length-digest}
use coder_desktop_linux.Output.{Policy, Marking, set_policy, set_watermark_identity}
use coder_desktop_linux.Output.Frame.{set_watermark_identity_lem}
use coder_desktop_linux.Desktop.Launcher.{
  RunningApp, Launcher, LauncherEvent, launches, stops, stops_all, policy_changes, identity_changes,
  level_changes, monitor_ticks, no_bytes, prepare, fresh_marking, remove_at,
}

-- A compositor with this policy and, where the identity is not empty, this identity's fingerprint.
abbrev pub Shows : Policy → List ℕ → Marking → Type 0
Shows policy identity m =
    (m.policy ≡ policy)
    × (length m.watermark.fingerprint ≡ 32)
    × ((no_bytes identity ≡ true)
        ⊎ ((m.watermark.has_identity ≡ true) × (m.watermark.fingerprint ≡ digest identity)))

abbrev pub Marks : Policy → List ℕ → Option Marking → Type 0
Marks policy identity comp = (m : Marking) × (comp ≡ some m) × Shows policy identity m

abbrev pub Enforces : Policy → List ℕ → List RunningApp → Type 0
Enforces policy identity apps =
    All (λ (app : RunningApp). Marks policy identity app.compositor) apps

-- Every application's compositor has the manager's policy and identity.
abbrev pub IsEnforced : Launcher → Type 0
IsEnforced s = Enforces s.current_policy s.watermark_identity s.apps

-- The buffer in which the library fingerprints an identity has its 256 bytes.
abbrev pub HasScratch : LauncherEvent → Type 0
HasScratch (launches a r) = length a.scratch ≡ 256
HasScratch (identity_changes scratch identity) = length scratch ≡ 256
HasScratch (stops pid) = Unit
HasScratch stops_all = Unit
HasScratch (policy_changes policy) = Unit
HasScratch (level_changes level) = Unit
HasScratch (monitor_ticks exited clients) = Unit

module _ {ℓ κ} {A : Type ℓ} (P : A → Type κ) where
  pub All-remove_at : (i : ℕ) (xs : List A) → All P xs → All P (remove_at i xs)
  All-remove_at i [] h = h
  All-remove_at zero (x ∷ xs) h = h.1
  All-remove_at (suc i) (x ∷ xs) h = (h.0, All-remove_at i xs h.1)

  pub All-set : (i : ℕ) (x : A) (xs : List A) → P x → All P xs → All P (set xs i x)
  All-set i x [] p h = h
  All-set zero x (y ∷ xs) p h = (p, h.1)
  All-set (suc i) x (y ∷ xs) p h = (h.0, All-set i x xs p h.1)

  pub All-get_elem? : (i : ℕ) (x : A) (xs : List A) → All P xs → get_elem? xs i ≡ some x → P x
  All-get_elem? i x [] h e = cc
  All-get_elem? zero x (y ∷ xs) h e = let same : y ≡ x = cc in subst P same h.0
  All-get_elem? (suc i) x (y ∷ xs) h e = All-get_elem? i x xs h.1 e

-- What a named compositor shows.
pub named_Shows :
    (scratch identity : List ℕ) (policy : Policy) (before : List ℕ) (m : Marking)
    → length scratch ≡ 256
    → Shows policy before m
    → (comp : Option Marking) × (set_watermark_identity scratch (some m) (some identity)
        ≡ some comp)
      × Marks policy identity comp
named_Shows scratch identity policy before m s h =
    let m' : Marking = record m {
      watermark = record m.watermark { fingerprint = digest identity; has_identity = true };
    } in
    (
      some m',
      set_watermark_identity_lem scratch identity m s h.1,
      (m', refl, (h.0, length-digest identity, inr (refl, refl))),
    )

pub prepare-Marks :
    (scratch : List ℕ) (policy : Policy) (identity : List ℕ)
    → length scratch ≡ 256
    → (comp : Option Marking) × (prepare scratch policy identity ≡ some comp)
      × Marks policy identity comp
unfolding prepare set_policy
prepare-Marks scratch policy [] s = (
  some (record fresh_marking { policy = policy }),
  refl,
  (record fresh_marking { policy = policy }, refl, (refl, refl, inl refl)),
)
prepare-Marks scratch policy (b ∷ bs) s =
    named_Shows scratch (b ∷ bs) policy [] (record fresh_marking { policy = policy }) s
      (refl, refl, inl refl)
