-- ===== src/Desktop/Transfers/Valid.antt =====
-- The states that the transfers of app/src/filesync/FileTransferManager.cpp are to be in, and lists of
-- them.
use coder_desktop_linux.Common.{
  ℕ, zero, suc, ◌+◌, ◌<◌, ◌≡◌, refl, inl, inr, Bool, true, false, Option, some, List, [], ◌∷◌, ◌++◌,
  ◌==◌, arith, Bool-cases, Option-cases, All, All-append,
}
use coder_desktop_linux.Desktop.Transfers.{
  TransferState, queued, running, completed, failed, cancelled, Transfer, RunningTransfer,
  Transfers, active, find_transfer, update_transfer, start_transfer, advance, drop_transfer,
  purge_loop,
}
use coder_desktop_linux.Desktop.Transfers.Progress.{advance_all}

-- An active transfer has a process that is alive, and a process outlives its transfer only where that
-- was cancelled.
abbrev pub SettledAt : TransferState → Bool → Type 0
SettledAt queued alive = alive ≡ true
SettledAt running alive = alive ≡ true
SettledAt completed alive = alive ≡ false
SettledAt failed alive = alive ≡ false
SettledAt cancelled alive = Unit

abbrev pub Settled : RunningTransfer → Type 0
Settled t = SettledAt t.info.state t.alive

abbrev pub Below : ℕ → List RunningTransfer → Type 0
Below bound ts = All (λ (t : RunningTransfer). t.info.id < bound) ts

-- Each identifier is above those before it.
abbrev pub Ascending : List RunningTransfer → Type 0
Ascending [] = Unit
Ascending (t ∷ ts) = All (λ (u : RunningTransfer). t.info.id < u.info.id) ts × Ascending ts

pub record IsValid (s : Transfers) : Type 0 where
  pub below : Below s.next_id s.transfers
  pub ascending : Ascending s.transfers
  pub settled : All Settled s.transfers

module _ {κ} (P : RunningTransfer → Type κ) (f : RunningTransfer → RunningTransfer) (id : ℕ) where
  pub All-update :
      (ts : List RunningTransfer)
      → ((t : RunningTransfer) → find_transfer id ts ≡ some t → P t → P (f t))
      → All P ts
      → All P (update_transfer id f ts)
  unfolding update_transfer find_transfer
  All-update [] keep h = tt
  All-update (t ∷ ts) keep h = elim (Bool-cases (t.info.id == id)) [
    | inl here ↦ rw (here, update_transfer) (keep t (ground arith) h.0, h.1)
    | inr further ↦
        rw (further, update_transfer) (h.0, All-update ts (λ u e. keep u (ground arith)) h.1)
  ]

module _ (f : RunningTransfer → RunningTransfer) (id : ℕ) where
  -- The function keeps the identifier of the transfer that is found.
  abbrev pub KeepsId : List RunningTransfer → Type 0
  KeepsId ts = (t : RunningTransfer) → find_transfer id ts ≡ some t → (f t).info.id ≡ t.info.id

  pub Ascending-update :
      (ts : List RunningTransfer) → KeepsId ts → Ascending ts → Ascending (update_transfer id f ts)
  unfolding update_transfer find_transfer
  Ascending-update [] same h = tt
  Ascending-update (t ∷ ts) same h = elim (Bool-cases (t.info.id == id)) [
    | inl here ↦ rw (here, update_transfer, same t (ground arith)) h
    | inr further ↦
        let same' : KeepsId ts = λ u e. same u (ground arith) in
        rw (further, update_transfer)
          (
            All-update (λ (u : RunningTransfer). t.info.id < u.info.id) f id ts
                (λ u e p. rw (same' u e) p) h.0,
            Ascending-update ts same' h.1,
          )
  ]

  pub update-IsValid :
      (s : Transfers)
      → KeepsId s.transfers
      → ((t : RunningTransfer) → find_transfer id s.transfers ≡ some t → Settled t → Settled (f t))
      → IsValid s
      → IsValid (record s { transfers = update_transfer id f s.transfers })
  update-IsValid s same keep h = record {
    below =
        All-update (λ (t : RunningTransfer). t.info.id < s.next_id) f id s.transfers
          (λ t e p. rw (same t e) p) h.below;
    ascending = Ascending-update s.transfers same h.ascending;
    settled = All-update (λ (t : RunningTransfer). Settled t) f id s.transfers keep h.settled;
  }

pub Ascending-append :
    (ts : List RunningTransfer) (t : RunningTransfer)
    → Ascending ts
    → Below t.info.id ts
    → Ascending (ts ++ t ∷ [])
Ascending-append [] t a b = (tt, tt)
Ascending-append (u ∷ ts) t a b = (
  All-append (λ (v : RunningTransfer). u.info.id < v.info.id) ts (t ∷ []) a.0 (b.0, tt),
  Ascending-append ts t a.1 b.1,
)

pub Below-suc : (n : ℕ) (ts : List RunningTransfer) → Below n ts → Below (n + 1) ts
Below-suc n [] h = tt
Below-suc n (t ∷ ts) h = (omega (arith, h.0), Below-suc n ts h.1)

pub start_transfer-IsValid :
    (info : Transfer) (s : Transfers)
    → info.id ≡ s.next_id
    → IsValid s
    → IsValid (start_transfer info s).1
unfolding start_transfer
start_transfer-IsValid info s e h = record {
  below =
      All-append (λ (t : RunningTransfer). t.info.id < s.next_id + 1) s.transfers _
        (Below-suc s.next_id s.transfers h.below) (omega arith, tt);
  ascending = Ascending-append s.transfers _ h.ascending (rw e h.below);
  settled = All-append (λ (t : RunningTransfer). Settled t) s.transfers _ h.settled (refl, tt);
}

module _ {κ} (P : RunningTransfer → Type κ) where
  pub All-drop : (id : ℕ) (ts : List RunningTransfer) → All P ts → All P (drop_transfer id ts)
  unfolding drop_transfer
  All-drop id [] h = tt
  All-drop id (t ∷ ts) h = elim (Bool-cases (t.info.id == id)) [
    | inl here ↦ rw (here, drop_transfer) h.1
    | inr further ↦ rw (further, drop_transfer) (h.0, All-drop id ts h.1)
  ]

  pub All-purge : (n : ℕ) (ts : List RunningTransfer) → All P ts → All P (purge_loop n ts)
  unfolding purge_loop
  All-purge zero ts h = h
  All-purge (suc n) [] h = tt
  All-purge (suc n) (t ∷ ts) h = elim (Bool-cases (active t)) [
    | inl kept ↦ rw (kept, purge_loop) (h.0, All-purge (suc n) ts h.1)
    | inr gone ↦ rw (gone, purge_loop) (All-purge n ts h.1)
  ]

pub Ascending-drop :
    (id : ℕ) (ts : List RunningTransfer) → Ascending ts → Ascending (drop_transfer id ts)
unfolding drop_transfer
Ascending-drop id [] h = tt
Ascending-drop id (t ∷ ts) h = elim (Bool-cases (t.info.id == id)) [
  | inl here ↦ rw (here, drop_transfer) h.1
  | inr further ↦
      rw (further, drop_transfer)
        (
          All-drop (λ (u : RunningTransfer). t.info.id < u.info.id) id ts h.0,
          Ascending-drop id ts h.1,
        )
]

pub Ascending-purge :
    (n : ℕ) (ts : List RunningTransfer) → Ascending ts → Ascending (purge_loop n ts)
unfolding purge_loop
Ascending-purge zero ts h = h
Ascending-purge (suc n) [] h = tt
Ascending-purge (suc n) (t ∷ ts) h = elim (Bool-cases (active t)) [
  | inl kept ↦
      rw (kept, purge_loop)
        (
          All-purge (λ (u : RunningTransfer). t.info.id < u.info.id) (suc n) ts h.0,
          Ascending-purge (suc n) ts h.1,
        )
  | inr gone ↦ rw (gone, purge_loop) (Ascending-purge n ts h.1)
]

pub advance_all_kept :
    (read_line : List ℕ → Option (ℕ × ℕ)) (lines : List (List ℕ × ℕ)) (info : Transfer)
    → ((advance_all read_line lines info).id ≡ info.id)
      × ((advance_all read_line lines info).state ≡ info.state)
unfolding advance
advance_all_kept read_line [] info = (refl, refl)
advance_all_kept read_line ((line, mark) ∷ lines) info = elim (Option-cases (read_line line)) [
  | inl unread ↦ rw (unread, advance_all) (advance_all_kept read_line lines info)
  | inr (reading, understood) ↦
      rw (understood, advance_all) (advance_all_kept read_line lines (advance reading info))
]
