-- ===== src/Idle/Loop.antt =====
-- code/ioscheduler.cpp: one round of the loop of idle().
use tiny_coroutine.Base.{
  ℕ, ◌+◌, ◌*◌, ◌≤◌, ◌<◌, ◌≡◌, refl, Bool, true, false, ◌&&◌, some, List, [], ◌∷◌, arith, leb,
  length, ap, ◌∙◌,
}
use tiny_coroutine.Result.{done}
use tiny_coroutine.Timer.{TimerManager, milliseconds, get_next_timer}
use tiny_coroutine.Timer.Expire.{IsPaced}
use tiny_coroutine.IoManager.{Kernel}
use tiny_coroutine.IoManager.Valid.{IsValid}
use tiny_coroutine.Idle.{
  Manager, stopping, wait_time, wait, turn, Inputs, ended, waited, idle_round,
}
use tiny_coroutine.Idle.Reported.{IsReported}
use tiny_coroutine.Idle.Turn.{Turned, turn-Turned}

abbrev pub all_short : List ℕ → Bool
all_short [] = true
all_short (t ∷ ts) = leb t 5000 && all_short ts

-- getNextTimer only takes the mark off that a wake-up is pending.
abbrev untickled : TimerManager → TimerManager
untickled m = record m { tickled = false }

wait_kept : (readings : List ℕ) (m : TimerManager) (now : ℕ) → (wait m readings now).0 ≡ untickled m
unfolding wait wait_time get_next_timer
wait_kept [] m now = refl
wait_kept (r ∷ rs) m now = wait_kept rs (untickled m) now

wait_short :
    (readings : List ℕ) (m : TimerManager) (now : ℕ)
    → (all_short (wait m readings now).1 ≡ true)
      × (length (wait m readings now).1 ≡ length readings + 1)
unfolding wait wait_time get_next_timer
wait_short [] m now = (ground arith, refl)
wait_short (r ∷ rs) m now = ground (arith, wait_short rs (untickled m) now)

untickled-IsValid :
    (m : TimerManager)
    → package.tiny_coroutine.Timer.Valid.IsValid m
    → package.tiny_coroutine.Timer.Valid.IsValid (untickled m)
untickled-IsValid m v = record { ordered = v.ordered; allocated = v.allocated; started = v.started }

untickled-Turned :
    (kernel : Kernel) (m m' : Manager) (now : ℕ)
    → Turned kernel (record m { timers = untickled m.timers }) now m'
    → Turned kernel m now m'
untickled-Turned kernel m m' now t = record {
  io_valid = t.io_valid;
  timers_valid = t.timers_valid;
  later = t.later;
  queue = t.queue;
}

round_stops :
    (kernel : Kernel) (fuel : ℕ) (m : Manager) (i : Inputs)
    → (stopping m i.checked).1 ≡ true
    → idle_round kernel fuel m i ≡ ended (stopping m i.checked).0
unfolding idle_round
round_stops kernel fuel m i e = rw (e, idle_round)

round_waits :
    (kernel : Kernel) (fuel : ℕ) (m : Manager) (i : Inputs)
    → (stopping m i.checked).1 ≡ false
    → let (timers, timeouts) = wait (untickled m.timers) i.interrupted i.waiting in
      idle_round kernel fuel m i
      ≡ waited timeouts
          (turn kernel fuel (record m { timers = timers }) i.expiring i.detected i.ready)
unfolding idle_round stopping get_next_timer
round_waits kernel fuel m i e = rw (e, idle_round)

round_goes :
    (kernel : Kernel) (fuel : ℕ) (m : Manager) (i : Inputs)
    → (stopping m i.checked).1 ≡ false
    → idle_round kernel fuel m i
      ≡ waited (wait (untickled m.timers) i.interrupted i.waiting).1 (
          turn kernel fuel (record m { timers = untickled m.timers }) i.expiring i.detected i.ready)
round_goes kernel fuel m i e =
    round_waits kernel fuel m i e
    ∙ ap
        (λ (t : TimerManager).
          waited (wait (untickled m.timers) i.interrupted i.waiting).1
            (turn kernel fuel (record m { timers = t }) i.expiring i.detected i.ready))
        (wait_kept i.interrupted (untickled m.timers) i.waiting)

-- A round of idle() on a valid state, with timers that have a period if they recur, while the clock
-- does not run back by more than an hour, and with events of which each descriptor has at most one,
-- with a context and registered events only: where stopping() answers true it ends the loop, and
-- otherwise it comes to its yield(), after one call of epoll_wait for each try, with timeouts of at
-- most five seconds, and a turn that keeps events and timers valid and puts the functions of the
-- timers that are due, by rising deadline, at the end of the queue, ahead of what the events add.
pub idle_round_returns :
    (kernel : Kernel) (fuel : ℕ) (m : Manager) (i : Inputs)
    → IsValid m.io
    → package.tiny_coroutine.Timer.Valid.IsValid m.timers
    → IsPaced m.timers
    → m.timers.pre_time ≤ i.detected + milliseconds (60 * 60 * 1000)
    → length m.timers.timers < fuel
    → IsReported m.io i.ready
    → ((stopping m i.checked).1 ≡ true
        → idle_round kernel fuel m i ≡ ended (stopping m i.checked).0)
      × ((stopping m i.checked).1 ≡ false
          → (timeouts : List ℕ) × (m' : Manager) × (idle_round kernel fuel m i
              ≡ waited timeouts (some (done m')))
            × (all_short timeouts ≡ true)
            × (length timeouts ≡ length i.interrupted + 1)
            × Turned kernel m i.expiring m')
idle_round_returns kernel fuel m i v tv paced steady enough reported =
    let m1 = record m { timers = untickled m.timers } in
    let (m', run, t) =
      turn-Turned kernel fuel m1 i.expiring i.detected i.ready v (untickled-IsValid m.timers tv)
        paced steady enough reported in
    let ts = (wait (untickled m.timers) i.interrupted i.waiting).1 in
    let (short, count) = wait_short i.interrupted (untickled m.timers) i.waiting in
    (
      round_stops kernel fuel m i,
      λ e. (
        ts,
        m',
        round_goes kernel fuel m i e ∙ ap (λ r. waited ts r) run,
        short,
        count,
        untickled-Turned kernel m m' i.expiring t,
      ),
    )
