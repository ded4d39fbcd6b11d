-- ===== src/Desktop/Transfers/States.antt =====
-- The state of one transfer in the lists of app/src/filesync/FileTransferManager.cpp.
use coder_desktop_linux.Common.{
  ℕ, zero, suc, ◌≤◌, ◌<◌, ◌≡◌, refl, subst, inl, inr, Option, none, some, List, [], ◌∷◌, ◌++◌, ◌==◌,
  arith, Bool-cases, All,
}
use coder_desktop_linux.Desktop.Transfers.{
  TransferState, RunningTransfer, Transfers, find_transfer, update_transfer, drop_transfer,
  purge_loop,
}
use coder_desktop_linux.Desktop.Transfers.Valid.{Ascending, All-purge}

-- The state of what is found, if anything is, is this one.
abbrev pub StateIs : TransferState → Option RunningTransfer → Type 0
StateIs st none = Unit
StateIs st (some t) = t.info.state ≡ st

-- A transfer that was there is gone, or it is in this state.
pub record IsOver (id : ℕ) (st : TransferState) (s : Transfers) : Type 0 where
  pub old : id < s.next_id
  pub state : StateIs st (find_transfer id s.transfers)

module _ (st : TransferState) (f : RunningTransfer → RunningTransfer) (id other : ℕ) where
  pub StateIs-update :
      (ts : List RunningTransfer)
      → ((t : RunningTransfer) → find_transfer other ts ≡ some t → (f t).info.id ≡ t.info.id)
      → ((t : RunningTransfer)
          → find_transfer other ts ≡ some t
          → t.info.state ≡ st
          → (f t).info.state ≡ st)
      → StateIs st (find_transfer id ts)
      → StateIs st (find_transfer id (update_transfer other f ts))
  unfolding find_transfer update_transfer
  StateIs-update [] same keep h = tt
  StateIs-update (t ∷ ts) same keep h = elim (Bool-cases (t.info.id == other)) [
    | inl here ↦ elim (Bool-cases (t.info.id == id)) [
      | inl mine ↦ ground (arith, same t (ground arith), keep t (ground arith))
      | inr not_mine ↦ ground (arith, same t (ground arith))
    ]
    | inr further ↦ elim (Bool-cases (t.info.id == id)) [
      | inl mine ↦ ground arith
      | inr not_mine ↦
          let more =
            StateIs-update ts (λ u e. same u (ground arith)) (λ u e. keep u (ground arith))
              (ground arith) in
          ground (arith, more)
    ]
  ]

pub find_above :
    (id bound : ℕ) (ts : List RunningTransfer)
    → id ≤ bound
    → All (λ (u : RunningTransfer). bound < u.info.id) ts
    → find_transfer id ts ≡ none
unfolding find_transfer
find_above id bound [] le h = refl
find_above id bound (t ∷ ts) le h = ground (arith, find_above id bound ts le h.1)

pub All-found {κ} :
    (P : RunningTransfer → Type κ) (id : ℕ) (ts : List RunningTransfer) (t : RunningTransfer)
    → All P ts
    → find_transfer id ts ≡ some t
    → P t
unfolding find_transfer
All-found P id [] t h e = cc
All-found P id (u ∷ ts) t h e = elim (Bool-cases (u.info.id == id)) [
  | inl mine ↦ let same : u ≡ t = ground arith in subst P same h.0
  | inr not_mine ↦ All-found P id ts t h.1 (ground arith)
]

module _ (st : TransferState) (id : ℕ) where
  pub StateIs-append :
      (ts : List RunningTransfer) (u : RunningTransfer)
      → id < u.info.id
      → StateIs st (find_transfer id ts)
      → StateIs st (find_transfer id (ts ++ u ∷ []))
  unfolding find_transfer
  StateIs-append [] u lt h = ground arith
  StateIs-append (t ∷ ts) u lt h = elim (Bool-cases (t.info.id == id)) [
    | inl mine ↦ ground arith
    | inr not_mine ↦ let more = StateIs-append ts u lt (ground arith) in ground (arith, more)
  ]

  pub StateIs-drop :
      (other : ℕ) (ts : List RunningTransfer)
      → Ascending ts
      → StateIs st (find_transfer id ts)
      → StateIs st (find_transfer id (drop_transfer other ts))
  unfolding find_transfer drop_transfer
  StateIs-drop other [] a h = tt
  StateIs-drop other (t ∷ ts) a h = elim (Bool-cases (t.info.id == id)) [
    | inl mine ↦
        let after : find_transfer id ts ≡ none = find_above id t.info.id ts (ground arith) a.0 in
        ground (arith, after)
    | inr not_mine ↦ let more = StateIs-drop other ts a.1 (ground arith) in ground (arith, more)
  ]

  pub StateIs-purge :
      (n : ℕ) (ts : List RunningTransfer)
      → Ascending ts
      → StateIs st (find_transfer id ts)
      → StateIs st (find_transfer id (purge_loop n ts))
  unfolding find_transfer purge_loop
  StateIs-purge zero ts a h = h
  StateIs-purge (suc n) [] a h = tt
  StateIs-purge (suc n) (t ∷ ts) a h = elim (Bool-cases (t.info.id == id)) [
    | inl mine ↦
        let after : find_transfer id (purge_loop n ts) ≡ none =
          find_above id t.info.id (purge_loop n ts) (ground arith)
            (All-purge (λ (u : RunningTransfer). t.info.id < u.info.id) n ts a.0) in
        ground (arith, after)
    | inr not_mine ↦
        let h' : StateIs st (find_transfer id ts) = ground arith in
        let kept = StateIs-purge (suc n) ts a.1 h' in
        let removed = StateIs-purge n ts a.1 h' in ground (arith, kept, removed)
  ]

pub found_id :
    (id : ℕ) (ts : List RunningTransfer) (t : RunningTransfer)
    → find_transfer id ts ≡ some t
    → t.info.id ≡ id
unfolding find_transfer
found_id id [] t e = cc
found_id id (u ∷ ts) t e = elim (Bool-cases (u.info.id == id)) [
  | inl mine ↦ ground arith
  | inr not_mine ↦ found_id id ts t (ground arith)
]
