-- ===== src/Desktop/Deployments/Flags.antt =====
-- The active flag of the deployments of app/src/data/SessionManager.cpp, in the list and in what is saved.
use coder_desktop_linux.Common.{
  ℕ, ◌+◌, ◌≤◌, ◌≡◌, refl, sym, subst, ap, ◌⊎◌, inl, inr, true, false, some, List, [], ◌∷◌,
  if◌then◌else◌, arith, All, Bool-cases, String, str_eq, eq_refl,
}
use coder_desktop_linux.Desktop.Deployments.{
  Deployment, Manager, deactivate_all, replace_or_append, deactivate_url, find_url, activate_first,
  remove_url, last_active,
}

unfoldable pub actives : List Deployment → ℕ
actives [] = 0
actives (d ∷ ds) = (if d.is_active then 1 else 0) + actives ds

-- An entry that is not active, or that is the active deployment.
abbrev Follows : Deployment → Deployment → Type 0
Follows active d = (d.is_active ≡ false) ⊎ (d ≡ active)

-- One entry at most is active, it is the manager's active deployment, and what is stored is what the
-- manager has.
pub record IsConsistent {K : Type 0} (m : Manager K) : Type 0 where
  pub follows : All (Follows m.active) m.deployments
  pub single : actives m.deployments ≤ 1
  pub stored : m.saved ≡ m.deployments

abbrev Idle : List Deployment → Type 0
Idle ds = All (λ (d : Deployment). d.is_active ≡ false) ds

pub deactivate_all-Idle : (ds : List Deployment) → Idle (deactivate_all ds)
unfolding deactivate_all
deactivate_all-Idle [] = tt
deactivate_all-Idle (d ∷ ds) = (refl, deactivate_all-Idle ds)

pub Idle-actives : (ds : List Deployment) → Idle ds → actives ds ≡ 0
unfolding actives
Idle-actives [] h = refl
Idle-actives (d ∷ ds) h = ground (arith, Idle-actives ds h.1)

pub Idle-Follows : (active : Deployment) (ds : List Deployment) → Idle ds → All (Follows active) ds
Idle-Follows active [] h = tt
Idle-Follows active (d ∷ ds) h = (inl h.0, Idle-Follows active ds h.1)

pub replaced :
    (dep : Deployment) (ds : List Deployment)
    → dep.is_active ≡ true
    → Idle ds
    → All (Follows dep) (replace_or_append dep ds) × (actives (replace_or_append dep ds) ≡ 1)
unfolding replace_or_append actives
replaced dep [] on h = ((inr refl, tt), ground arith)
replaced dep (d ∷ ds) on h = elim (Bool-cases (str_eq d.url dep.url)) [
  | inl same ↦
      rw (same, replace_or_append)
        ((inr refl, Idle-Follows dep ds h.1), ground (arith, Idle-actives ds h.1))
  | inr other ↦
      let more = replaced dep ds on h.1 in
      rw (other, replace_or_append) ((inl h.0, more.0), ground (arith, more.1))
]

pub activated :
    (url : String) (target : Deployment) (ds : List Deployment)
    → find_url url ds ≡ some target
    → let after = activate_first url (deactivate_all ds) in
      All (Follows (record target { is_active = true })) after × (actives after ≡ 1)
unfolding find_url activate_first deactivate_all actives
activated url target [] e = cc
activated url target (d ∷ ds) e = elim (Bool-cases (str_eq d.url url)) [
  | inl same ↦
      let found : d ≡ target = ground arith in
      let idle = deactivate_all-Idle ds in
      rw (same, activate_first)
        (
          (
            inr (ap (λ (t : Deployment). record t { is_active = true }) found),
            Idle-Follows _ _ idle,
          ),
          ground (arith, Idle-actives (deactivate_all ds) idle),
        )
  | inr other ↦
      let more = activated url target ds (ground arith) in
      rw (other, activate_first) ((inl refl, more.0), ground (arith, more.1))
]

pub deactivate_url-Idle :
    (active : Deployment) (ds : List Deployment)
    → All (Follows active) ds
    → Idle (deactivate_url active.url ds)
unfolding deactivate_url
deactivate_url-Idle active [] h = tt
deactivate_url-Idle active (d ∷ ds) h =
    (ground (arith, eq_refl active.url), deactivate_url-Idle active ds h.1)

-- Without its URL no entry is active.
pub remove_url-Idle :
    (url : String) (active : Deployment) (ds : List Deployment)
    → str_eq active.url url ≡ true
    → All (Follows active) ds
    → Idle (remove_url url ds)
unfolding remove_url
remove_url-Idle url active [] e h = tt
remove_url-Idle url active (d ∷ ds) e h = elim (Bool-cases (str_eq d.url url)) [
  | inl gone ↦ rw (gone, remove_url) (remove_url-Idle url active ds e h.1)
  | inr kept ↦ rw (kept, remove_url) (ground arith, remove_url-Idle url active ds e h.1)
]

pub remove_url-Follows :
    (url : String) (active : Deployment) (ds : List Deployment)
    → All (Follows active) ds
    → All (Follows active) (remove_url url ds) × (actives (remove_url url ds) ≤ actives ds)
unfolding remove_url actives
remove_url-Follows url active [] h = (tt, omega arith)
remove_url-Follows url active (d ∷ ds) h =
    let more = remove_url-Follows url active ds h.1 in
    elim (Bool-cases (str_eq d.url url)) [
      | inl gone ↦ rw (gone, remove_url) (more.0, omega (arith, more.1))
      | inr kept ↦ rw (kept, remove_url) ((h.0, more.0), omega (arith, more.1))
    ]

last_active_none :
    (d : Deployment) (ds : List Deployment) → actives ds ≡ 0 → (last_active d ds ≡ d) × Idle ds
unfolding last_active actives
last_active_none d [] h = (refl, tt)
last_active_none d (x ∷ xs) h = elim (Bool-cases x.is_active) [
  | inl on ↦ absurd (ground arith)
  | inr off ↦
      let more = last_active_none d xs (ground arith) in
      (rw (off, last_active) more.0, (off, more.1))
]

pub last_active-Follows :
    (d : Deployment) (ds : List Deployment) → actives ds ≤ 1 → All (Follows (last_active d ds)) ds
unfolding last_active actives
last_active-Follows d [] h = tt
last_active-Follows d (x ∷ xs) h = elim (Bool-cases x.is_active) [
  | inl on ↦
      let more = last_active_none x xs (ground arith) in
      let e : last_active d (x ∷ xs) ≡ x = ground arith in
      subst (λ (a : Deployment). All (Follows a) (x ∷ xs)) (sym e)
        (inr refl, Idle-Follows x xs more.1)
  | inr off ↦
      let e : last_active d (x ∷ xs) ≡ last_active d xs = ground arith in
      subst (λ (a : Deployment). All (Follows a) (x ∷ xs)) (sym e)
        (inl off, last_active-Follows d xs (ground arith))
]
