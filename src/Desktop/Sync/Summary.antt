-- ===== src/Desktop/Sync/Summary.antt =====
-- The texts of app/src/filesync/FileSyncManager.cpp on the sessions, and the arguments of a creation.
use coder_desktop_linux.Common.{
  ℕ, ◌+◌, ◌≤◌, ◌<◌, ◌≡◌, refl, Bool, true, false, ◌&&◌, ◌||◌, List, [], ◌∷◌, length, ◌==◌, ltb,
  if◌then◌else◌, String, str_eq, eq_iff, concat, arith, Bool-cases, inl, inr,
}
use coder_desktop_linux.Desktop.Sync.{
  SyncSession, status_category, summary_loop, status_summary, effective_sync_mode, create_args,
}

-- The sessions with an error, and those that are in order.
unfoldable pub errors : List SyncSession → ℕ
errors [] = 0
errors (s ∷ ss) = (if str_eq (status_category s.status) "error" then 1 else 0) + errors ss

unfoldable pub in_order : List SyncSession → ℕ
in_order [] = 0
in_order (s ∷ ss) = (if str_eq (status_category s.status) "ok" then 1 else 0) + in_order ss

in_order-le : (ss : List SyncSession) → in_order ss ≤ length ss
unfolding in_order
in_order-le [] = omega arith
in_order-le (s ∷ ss) = ground (arith, in_order-le ss)

-- A category is one text.
error_not_ok : (c : String) → str_eq c "error" ≡ true → str_eq c "ok" ≡ false
error_not_ok c e = rw ((eq_iff c "error").0 e) refl

summary_loop_lem :
    (ss : List SyncSession) (a e : Bool)
    → summary_loop ss a e ≡ (a && in_order ss == length ss, e || ltb 0 (errors ss))
unfolding summary_loop errors in_order
summary_loop_lem [] a e = ground arith
summary_loop_lem (s ∷ ss) a e = elim (Bool-cases (str_eq (status_category s.status) "error")) [
  | inl bad ↦
      let not_ok = error_not_ok (status_category s.status) bad in
      rw (bad, not_ok, summary_loop, summary_loop_lem ss false true)
        (ground (arith, in_order-le ss))
  | inr good ↦ elim (Bool-cases (str_eq (status_category s.status) "ok")) [
    | inl fine ↦ rw (good, fine, summary_loop, summary_loop_lem ss a e) (ground arith)
    | inr other ↦
        rw (good, other, summary_loop, summary_loop_lem ss false e) (ground (arith, in_order-le ss))
  ]
]

-- The summary says how many sessions there are, and after that: an error where one has an error;
-- synced where every one is in order; and syncing otherwise.
pub status_summary_lem :
    (show : ℕ → String) (ss : List SyncSession)
    → 0 < length ss
    → status_summary show ss
      ≡ concat (
          show (length ss)
          ∷ " "
          ∷ (if length ss == 1 then "session" else "sessions")
          ∷ (if ltb 0 (errors ss)
              then " (error)"
              else if in_order ss == length ss
              then " (synced)"
              else " (syncing)")
          ∷ [])
unfolding status_summary
status_summary_lem show ss h =
    let some_sessions : (length ss == 0) ≡ false = ground arith in
    rw (status_summary, summary_loop_lem ss true false, some_sessions) refl

-- Where the policy forbids uploads alone, the command that creates a session is, word for word, the
-- one for a policy that forbids downloads alone: it replicates the local path to the workspace.
pub create_args_direction :
    (local_path workspace remote_path : String)
    → (create_args true false local_path workspace remote_path
        ≡ create_args false true local_path workspace remote_path)
      × (create_args true false local_path workspace remote_path
          ≡ "sync"
            ∷ "create"
            ∷ local_path
            ∷ concat (workspace ∷ ":" ∷ remote_path ∷ [])
            ∷ "--ignore-vcs"
            ∷ "--mode=one-way-replica"
            ∷ [])
unfolding create_args effective_sync_mode
create_args_direction local_path workspace remote_path = (refl, refl)
