-- ===== src/Desktop/Updates/Checks.antt =====
-- How often app/src/updater/AutoUpdater.cpp asks for a newer release.
use coder_desktop_linux.Common.{
  ◌≡◌, ◌≤◌, Bool, true, false, List, [], ◌∷◌, if◌then◌else◌, arith, All,
}
use coder_desktop_linux.Desktop.Updates.{
  CheckTimers, new_timers, TimerEvent, first_shot, fires, sets_interval, check_now, timer_step,
  timer_run,
}

abbrev sets : TimerEvent → Bool
sets (sets_interval n) = true
sets _ = false

sent_at_most :
    (es : List TimerEvent) (t : CheckTimers)
    → t.running ≡ false
    → All (λ e. sets e ≡ false) es
    → timer_run es t ≤ (if t.first_pending then 1 else 0)
unfolding timer_run timer_step check_now
sent_at_most [] t idle h = ground arith
sent_at_most (first_shot allowed ∷ es) t idle h =
    ground (arith, sent_at_most es (record t { first_pending = false }) idle h.1)
sent_at_most (fires allowed ∷ es) t idle h = ground (arith, sent_at_most es t idle h.1)
sent_at_most (sets_interval n ∷ es) t idle h = absurd (ground (arith, h.0))

-- Where no client sets the interval, one request at most is ever sent.
pub one_check : (es : List TimerEvent) → All (λ e. sets e ≡ false) es → timer_run es new_timers ≤ 1
one_check es h = sent_at_most es new_timers (ground arith) h
