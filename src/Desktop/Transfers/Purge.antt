-- ===== src/Desktop/Transfers/Purge.antt =====
-- What `purgeOldFinishedTransfers` of app/src/filesync/FileTransferManager.cpp leaves in the list.
use coder_desktop_linux.Common.{
  ℕ, zero, suc, ◌-◌, ◌≤◌, ◌≡◌, refl, ap, List, [], ◌∷◌, length, length-drop, drop, leb, leb→le,
  if◌then◌else◌, arith, Bool-cases, inl, inr,
}
use coder_desktop_linux.Desktop.Transfers.{
  RunningTransfer, Transfers, active, finished_count, max_finished_transfers, purge_loop,
  purge_old_finished_transfers,
}

-- The active transfers and the finished ones, each in their order.
unfoldable pub active_ones : List RunningTransfer → List RunningTransfer
active_ones [] = []
active_ones (t ∷ ts) = let later = active_ones ts in if active t then t ∷ later else later

unfoldable pub finished_ones : List RunningTransfer → List RunningTransfer
finished_ones [] = []
finished_ones (t ∷ ts) = let later = finished_ones ts in if active t then later else t ∷ later

length-finished_ones : (ts : List RunningTransfer) → length (finished_ones ts) ≡ finished_count ts
unfolding finished_ones finished_count
length-finished_ones [] = refl
length-finished_ones (t ∷ ts) = ground (arith, length-finished_ones ts)

purge_loop-active :
    (n : ℕ) (ts : List RunningTransfer) → active_ones (purge_loop n ts) ≡ active_ones ts
unfolding purge_loop active_ones
purge_loop-active zero ts = refl
purge_loop-active (suc n) [] = refl
purge_loop-active (suc n) (t ∷ ts) =
    ground (arith, purge_loop-active (suc n) ts, purge_loop-active n ts)

purge_loop-finished :
    (n : ℕ) (ts : List RunningTransfer)
    → finished_ones (purge_loop n ts) ≡ drop n (finished_ones ts)
unfolding purge_loop finished_ones
purge_loop-finished zero ts = refl
purge_loop-finished (suc n) [] = refl
purge_loop-finished (suc n) (t ∷ ts) =
    ground (arith, purge_loop-finished (suc n) ts, purge_loop-finished n ts)

-- A purge keeps every active transfer, in its order, and of the finished ones the last 50, which
-- are all of them where there are no more.
pub purge_lem :
    (s : Transfers)
    → let before = s.transfers in
      let after = (purge_old_finished_transfers s).0.transfers in
      (active_ones after ≡ active_ones before)
      × (finished_ones after
          ≡ drop (finished_count before - max_finished_transfers) (finished_ones before))
      × (finished_count after ≤ max_finished_transfers)
unfolding purge_old_finished_transfers
purge_lem s = elim (Bool-cases (leb (finished_count s.transfers) max_finished_transfers)) [
  | inl few ↦
      let none_over : finished_count s.transfers - max_finished_transfers ≡ 0 =
        omega (arith, leb→le (finished_count s.transfers) max_finished_transfers few) in
      rw (few, none_over, purge_old_finished_transfers)
        (refl, refl, leb→le (finished_count s.transfers) max_finished_transfers few)
  | inr many ↦
      let n = finished_count s.transfers - max_finished_transfers in
      let left = purge_loop-finished n s.transfers in
      rw (many, purge_old_finished_transfers)
        (
          purge_loop-active n s.transfers,
          left,
          omega (
            arith,
            ap length left,
            length-finished_ones (purge_loop n s.transfers),
            length-finished_ones s.transfers,
            length-drop n (finished_ones s.transfers),
          ),
        )
]
