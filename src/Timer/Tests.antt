-- ===== src/Timer/Tests.antt =====
-- Runs of code/timer.cpp on small inputs, and its theorems at inputs that meet their hypotheses.
use tiny_coroutine.Base.{
  ℕ, ◌<◌, ◌≡◌, refl, true, false, ◌&&◌, Option, none, some, List, [], ◌∷◌, arith, contains,
}
use tiny_coroutine.Callback.{Callback, user}
use tiny_coroutine.OrderedSet.{insert, find, erase}
use tiny_coroutine.Timer.{
  TimerManager, reset_out, reset_in, cancel, add_timer_ptr, new_timer, milliseconds, next_of, init,
  add_timer, list_expire_cb, expire_one, expire_loop, first_due,
}
use tiny_coroutine.Timer.Valid.{IsValid, init-IsValid, add_timer-IsValid}
use tiny_coroutine.Timer.History.{starts, calls, adds, Reach-IsValid}
use tiny_coroutine.Timer.Calendar
use tiny_coroutine.Timer.Calendar.{Request, cancels, refreshes, resets}
use tiny_coroutine.Timer.Refine
use tiny_coroutine.Timer.Refine.{calendar, run_refines}
use tiny_coroutine.Timer.Expire.{IsPaced, expired_cbs, list_expire_cb_due}
use tiny_coroutine.Timer.Fate.{expired}
use tiny_coroutine.Timer.Outcome.{due_timer_over, same_period_lost, list_expire_cb_never}

-- A one-shot timer of 5 ms and two that recur every 10 ms, one of them a nanosecond later.
abbrev blank : TimerManager
blank = init 0

abbrev one : TimerManager
one = (add_timer blank 5 (some (user 1)) false 0).0

abbrev two : TimerManager
two = (add_timer one 10 (some (user 2)) true 0).0

abbrev three : TimerManager
three = (add_timer two 10 (some (user 3)) true 1).0

one-IsValid : IsValid one
one-IsValid = add_timer-IsValid blank 5 (some (user 1)) false 0 (init-IsValid 0)

three-IsValid : IsValid three
three-IsValid =
    add_timer-IsValid two 10 (some (user 3)) true 1
      (add_timer-IsValid one 10 (some (user 2)) true 0 one-IsValid)

three-IsPaced : IsPaced three
unfolding init add_timer
three-IsPaced j = ground arith

three_timers : three.timers ≡ 0 ∷ 1 ∷ 2 ∷ []
unfolding init add_timer insert
three_timers = refl

-- A reading of the clock, in milliseconds.
abbrev at : ℕ → ℕ
at ms = milliseconds ms

abbrev or_else :
    Option (TimerManager × List (Option Callback)) → TimerManager × List (Option Callback)
or_else none = (blank, [])
or_else (some r) = r

-- The call at 7 ms, when only the first timer is due, and the call at 20 ms, when all are.
abbrev early : TimerManager × List (Option Callback)
early = or_else (list_expire_cb 4 three (at 7) (at 7))

abbrev late : TimerManager × List (Option Callback)
late = or_else (list_expire_cb 4 three (at 20) (at 20))

early_run : list_expire_cb 4 three (at 7) (at 7) ≡ some (early.0, early.1)
unfolding init add_timer insert list_expire_cb expire_loop first_due expire_one
early_run = refl

late_run : list_expire_cb 4 three (at 20) (at 20) ≡ some (late.0, late.1)
unfolding init add_timer insert list_expire_cb expire_loop first_due expire_one
late_run = refl

late_callbacks : late.1 ≡ some (user 1) ∷ some (user 2) ∷ some (user 3) ∷ []
unfolding init add_timer insert list_expire_cb expire_loop first_due expire_one
late_callbacks = refl

-- Of the two timers that recur the set has kept one.
late_timers : (late.0).timers ≡ 1 ∷ []
unfolding init add_timer insert list_expire_cb expire_loop first_due expire_one
late_timers = refl

Reach-IsValid_example : IsValid one
Reach-IsValid_example = Reach-IsValid (calls (starts 0) (adds 5 (some (user 1)) false 0))

list_expire_cb_due_example :
    (m' : TimerManager) × (list_expire_cb 4 three (at 20) (at 20)
      ≡ some (m', expired_cbs (at 20) three.heap three.timers))
    × ((j : ℕ) → contains j m'.timers ≡ true → at 20 < next_of m' j)
unfolding init add_timer insert
list_expire_cb_due_example =
    list_expire_cb_due 4 three (at 20) (at 20) three-IsValid three-IsPaced (omega arith)
      (omega arith)

due_timer_over_example :
    ((late.0).heap 0 ≡ expired (at 20) (three.heap 0))
    × ((three.heap 0).recurring ≡ false → contains 0 (late.0).timers ≡ false)
unfolding init add_timer insert
due_timer_over_example =
    due_timer_over 4 three late.0 (at 20) (at 20) late.1 three-IsValid (omega arith) late_run 0 refl
      (omega arith) (λ h. cc)

same_period_lost_example : (contains 1 (late.0).timers && contains 2 (late.0).timers) ≡ false
unfolding init add_timer insert
same_period_lost_example =
    same_period_lost 4 three late.0 (at 20) (at 20) late.1 three-IsValid (omega arith) late_run 1 2
      (omega arith) refl refl (omega arith) (omega arith) refl refl (omega arith) refl

-- One timer that recurs, and a clock that had stood two hours later.
abbrev turned_back : TimerManager
turned_back = record (add_timer blank 10 (some (user 2)) true 0).0 { pre_time = at 7200000 }

list_expire_cb_never_example : list_expire_cb 1000 turned_back 0 0 ≡ none
unfolding init add_timer insert
list_expire_cb_never_example =
    list_expire_cb_never 1000 turned_back 0 0 (λ e. cc) (λ j h. ground (arith, h)) (omega arith)

-- The third timer takes the deadline of the second, which is cancelled.
abbrev plan : List Request
plan =
    cancels 1
    ∷ Calendar.adds 10 (some (user 4)) false 0
    ∷ refreshes 2 0
    ∷ resets 3 30 false (at 3)
    ∷ cancels 2
    ∷ []

run_refines_example : Refine.run three plan ≡ Calendar.run (calendar three) plan
unfolding init add_timer
run_refines_example =
    run_refines plan three three-IsValid
      (omega arith, (tt, (omega arith, (omega arith, (omega arith, tt)))))

-- cancel() between the two sections of reset() of a recurring timer: it answers true, and the timer is in
-- the set again, without a function.
abbrev reset_begun : TimerManager
reset_begun = (reset_out (add_timer (init 0) 10 (some (user 1)) true 0).0 0).0

abbrev reset_ended : TimerManager
reset_ended = (reset_in (cancel reset_begun 0).0 0 5 true 0).0

cancelled_in_reset :
    ((cancel reset_begun 0).1 ≡ true)
    × (reset_ended.timers ≡ 0 ∷ [])
    × ((reset_ended.heap 0).cb ≡ none)
    × ((reset_ended.heap 0).recurring ≡ true)
unfolding init add_timer add_timer_ptr new_timer cancel insert find erase
cancelled_in_reset = (refl, refl, refl, refl)
