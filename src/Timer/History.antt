-- ===== src/Timer/History.antt =====
-- code/timer.cpp: every history of calls on one timer manager, in any order of the threads.
use tiny_coroutine.Base.{ℕ, contains, Bool, false, Option, some, List, [], ◌<◌, ◌≡◌}
use tiny_coroutine.Callback.{Callback, on_timer}
use tiny_coroutine.Timer.{
  TimerManager, init, add_timer, add_condition_timer, cancel, refresh, reset, reset_out, reset_in,
  get_next_timer, list_expire_cb, detect_clock_rollover,
}
use tiny_coroutine.Timer.Valid.{
  IsValid, init-IsValid, add_timer-IsValid, cancel-IsValid, refresh-IsValid, reset-IsValid,
  reset_out-IsValid, reset_in-IsValid, expire_loop-IsValid,
}

-- One call. A handle of a timer is an identifier below `fresh`, since only addTimer hands one out. reset
-- is here as a whole, and in its sections, between which other threads act: `takes_out` is the first,
-- and `puts_in` what follows, with the timer out of the set. It is out unless a second reset of it,
-- between the two, finds another timer of its deadline.
pub data Call (m : TimerManager) : TimerManager → Type 0 where
  adds :
      (ms : ℕ) (cb : Option Callback) (recurring : Bool) (now : ℕ)
      → Call m (add_timer m ms cb recurring now).0
  adds_condition :
      (ms : ℕ) (cb : Callback) (weak_cond : ℕ) (recurring : Bool) (now : ℕ)
      → Call m (add_condition_timer m ms cb weak_cond recurring now).0
  cancels : (t : ℕ) → Call m (cancel m t).0
  refreshes : (t now : ℕ) → t < m.fresh → Call m (refresh m t now).0
  resets :
      (t ms : ℕ) (from_now : Bool) (now : ℕ) → t < m.fresh → Call m (reset m t ms from_now now).0
  takes_out : (t : ℕ) → Call m (reset_out m t).0
  puts_in :
      (t ms : ℕ) (from_now : Bool) (now : ℕ)
      → t < m.fresh
      → contains t m.timers ≡ false
      → Call m (reset_in m t ms from_now now).0
  asks : (now : ℕ) → Call m (get_next_timer m now).0
  expires :
      (fuel now later : ℕ) (m' : TimerManager) (cbs : List (Option Callback))
      → list_expire_cb fuel m now later ≡ some (m', cbs)
      → Call m m'

pub data Reach : TimerManager → Type 0 where
  starts : (now : ℕ) → Reach (init now)
  calls : {m m' : TimerManager} → Reach m → Call m m' → Reach m'

pub list_expire_cb-IsValid :
    (fuel now later : ℕ) (m m' : TimerManager) (cbs : List (Option Callback))
    → IsValid m
    → list_expire_cb fuel m now later ≡ some (m', cbs)
    → IsValid m'
unfolding list_expire_cb
list_expire_cb-IsValid fuel now later m m' cbs v h =
    expire_loop-IsValid fuel (detect_clock_rollover m later).1 now (record m { pre_time = later })
      m' [] cbs (record { ordered = v.ordered; allocated = v.allocated; started = v.started }) h

Call-IsValid : {m m' : TimerManager} → Call m m' → IsValid m → IsValid m'
unfolding add_condition_timer get_next_timer
Call-IsValid {m} (adds ms cb recurring now) v = add_timer-IsValid m ms cb recurring now v
Call-IsValid {m} (adds_condition ms cb w recurring now) v =
    add_timer-IsValid m ms (some (on_timer w cb)) recurring now v
Call-IsValid {m} (cancels t) v = cancel-IsValid m t v
Call-IsValid {m} (refreshes t now lt) v = refresh-IsValid m t now v lt
Call-IsValid {m} (resets t ms from_now now lt) v = reset-IsValid m t ms from_now now v lt
Call-IsValid {m} (takes_out t) v = reset_out-IsValid m t v
Call-IsValid {m} (puts_in t ms from_now now lt out) v =
    reset_in-IsValid m t ms from_now now v lt out
Call-IsValid (asks now) v = record {
  ordered = v.ordered;
  allocated = v.allocated;
  started = v.started;
}
Call-IsValid {m} (expires fuel now later m' cbs h) v =
    list_expire_cb-IsValid fuel now later m m' cbs v h

-- After any history of calls, of reset as a whole or section by section, where its second section
-- begins with the timer out of the set, the set holds allocated timers in the strict order of their
-- deadlines, and no deadline lies before the period that led to it.
pub Reach-IsValid : {m : TimerManager} → Reach m → IsValid m
Reach-IsValid (starts now) = init-IsValid now
Reach-IsValid (calls r c) = Call-IsValid c (Reach-IsValid r)
