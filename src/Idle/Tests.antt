-- ===== src/Idle/Tests.antt =====
-- code/ioscheduler.cpp: a manager with a timer that recurs, a one-shot timer that is due, and a
-- descriptor that waits for reading and is reported with the pipe.
use tiny_coroutine.Base.{
  ℕ, ◌-◌, ◌*◌, ◌≡◌, ◌↔◌, ◌≤◌, ◌<◌, refl, Bool, true, false, none, some, List, [], ◌∷◌, arith,
  contains, length,
}
use tiny_coroutine.Callback.{user, read}
use tiny_coroutine.Result.{Result, done, abort, Returns}
use tiny_coroutine.OrderedSet.{insert}
use tiny_coroutine.Timer
use tiny_coroutine.Timer.{TimerManager, add_timer, milliseconds, next_of}
use tiny_coroutine.Timer.Valid.{add_timer-IsValid}
use tiny_coroutine.Timer.Expire.{IsPaced}
use tiny_coroutine.Scheduler.{Scheduler}
use tiny_coroutine.IoManager
use tiny_coroutine.IoManager.{IoManager, Kernel, Caller, EpollEvents, add_event}
use tiny_coroutine.IoManager.Mask.{empty_mask}
use tiny_coroutine.IoManager.Valid.{IsValid, init-IsValid}
use tiny_coroutine.IoManager.Events.{Added, add_event-Added}
use tiny_coroutine.Idle.{
  Manager, Ready, on_pipe, on_fd, stopping, wait_time, idle_round, Inputs, ended, waited,
}
use tiny_coroutine.Idle.Wait.{wait_time_bounded, stopping_drained}
use tiny_coroutine.Idle.Turn.{Turned}
use tiny_coroutine.Idle.Stop.{stop_manager, IsDrained, stop_lets_end}
use tiny_coroutine.Idle.Loop.{all_short, idle_round_returns}

abbrev resting : Bool → Scheduler
resting is_stopping = record {
  tasks = [];
  thread_cnt = 1;
  threads = 1;
  active_thread_cnt = 0;
  idle_thread_cnt = 1;
  use_caller = false;
  root_thread = none;
  stopping = is_stopping;
  pipe = 1;
}

abbrev willing : Kernel
willing log r = true

abbrev empty_io : Bool → IoManager
empty_io is_stopping = package.tiny_coroutine.IoManager.init (λ _. resting is_stopping)

abbrev one_timer : TimerManager
one_timer = (add_timer (package.tiny_coroutine.Timer.init 0) 10 (some (user 1)) true 0).0

abbrev two_timers : TimerManager
two_timers = (add_timer one_timer 5 (some (user 2)) false 0).0

one_timer-IsValid : package.tiny_coroutine.Timer.Valid.IsValid one_timer
one_timer-IsValid =
    add_timer-IsValid (package.tiny_coroutine.Timer.init 0) 10 (some (user 1)) true 0
      (package.tiny_coroutine.Timer.Valid.init-IsValid 0)

two_timers-IsValid : package.tiny_coroutine.Timer.Valid.IsValid two_timers
two_timers-IsValid = add_timer-IsValid one_timer 5 (some (user 2)) false 0 one_timer-IsValid

two_timers-IsPaced : IsPaced two_timers
unfolding package.tiny_coroutine.Timer.init add_timer
two_timers-IsPaced j = ground arith

abbrev thread : Caller
thread = record { scheduler = some 0; fiber = 5; is_running = true }

abbrev io_of : Result (IoManager × Bool) → IoManager
io_of (done r) = r.0
io_of abort = empty_io false

abbrev waiting : IoManager
waiting = io_of (add_event willing (empty_io false) 3 read thread (some (user 3)))

waiting-IsValid : IsValid waiting
unfolding package.tiny_coroutine.IoManager.init
waiting-IsValid = valid (add_event willing (empty_io false) 3 read thread (some (user 3))) (
    add_event-Added willing (empty_io false) 3 read thread (some (user 3))
      (init-IsValid (λ _. resting false)) refl (refl, refl))
  where
    valid :
        (r : Result (IoManager × Bool))
        → Returns (Added (empty_io false) 3 read thread (some (user 3)) true) r
        → IsValid (io_of r)
    valid (done r) a = a.valid
    valid abort a = absurd a

abbrev busy : Manager
busy = record { io = waiting; timers = two_timers; self = 0 }

abbrev readable : List Ready
readable = on_pipe ∷ on_fd 3 (record { epollin = true; epollout = false; failed = false }) ∷ []

abbrev inputs : Inputs
inputs = record {
  checked = 1;
  interrupted = 2 ∷ [];
  waiting = 3;
  expiring = milliseconds 5;
  detected = milliseconds 6;
  ready = readable;
}

idle_round_returns_example :
    ((stopping busy 1).1 ≡ true → idle_round willing 3 busy inputs ≡ ended (stopping busy 1).0)
    × ((stopping busy 1).1 ≡ false
        → (timeouts : List ℕ) × (m' : Manager) × (idle_round willing 3 busy inputs
            ≡ waited timeouts (some (done m')))
          × (all_short timeouts ≡ true)
          × (length timeouts ≡ 2)
          × Turned willing busy (milliseconds 5) m')
unfolding package.tiny_coroutine.Timer.init package.tiny_coroutine.IoManager.init add_event
    add_timer insert
idle_round_returns_example =
    idle_round_returns willing 3 busy inputs waiting-IsValid two_timers-IsValid two_timers-IsPaced
      (omega arith) (omega arith) (omega arith, ((λ h. refl), (λ h. cc)), tt, tt)

wait_time_bounded_example :
    ((wait_time two_timers 7).1 ≤ 5000)
    × ((j : ℕ)
        → contains j two_timers.timers ≡ true
        → (wait_time two_timers 7).1 * 1000000 ≤ next_of two_timers j - 7)
wait_time_bounded_example = wait_time_bounded two_timers 7 two_timers-IsValid

abbrev finished : Manager
finished = record { io = empty_io true; timers = package.tiny_coroutine.Timer.init 0; self = 0 }

finished_stops : (stopping finished 7).1 ≡ true
unfolding package.tiny_coroutine.Timer.init package.tiny_coroutine.IoManager.init stopping
    package.tiny_coroutine.Timer.get_next_timer package.tiny_coroutine.Scheduler.stopping
finished_stops = refl

stopping_drained_example :
    (finished.timers.timers ≡ [])
    × ((fd : ℕ) → fd < finished.io.size → (finished.io.contexts fd).events ≡ empty_mask)
    × ((finished.io.schedulers finished.self).tasks ≡ [])
    × ((finished.io.schedulers finished.self).active_thread_cnt ≡ 0)
    × ((finished.io.schedulers finished.self).stopping ≡ true)
unfolding package.tiny_coroutine.Timer.init package.tiny_coroutine.IoManager.init
stopping_drained_example =
    stopping_drained finished 7 (init-IsValid (λ _. resting true))
      (package.tiny_coroutine.Timer.Valid.init-IsValid 0) (λ j. omega arith) finished_stops

-- stop() while a one-shot timer waits.
stop_lets_end_example :
    let m : Manager = record { io = empty_io false; timers = one_timer; self = 0 } in
    ((stopping (stop_manager m 7) 8).1 ≡ true) ↔ IsDrained m
unfolding package.tiny_coroutine.Timer.init package.tiny_coroutine.IoManager.init add_timer
stop_lets_end_example =
    stop_lets_end (record { io = empty_io false; timers = one_timer; self = 0 }) 7 8
      (init-IsValid (λ _. resting false)) one_timer-IsValid (λ j. ground arith)
