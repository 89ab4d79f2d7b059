-- ===== src/Hook/Runs.antt =====
-- code/hook.cpp: a fiber waits for descriptor 3, with a timeout of 50 ms.
use tiny_coroutine.Base.{ℕ, ◌≡◌, refl, true, false, none, some, [], arith}
use tiny_coroutine.Callback.{on_timer, expire, read}
use tiny_coroutine.Result.{Result, done, abort}
use tiny_coroutine.Scheduler.{Scheduler}
use tiny_coroutine.Timer
use tiny_coroutine.Timer.{
  TimerManager, milliseconds, add_timer, new_timer, add_timer_ptr, list_expire_cb,
}
use tiny_coroutine.Timer.Valid.{init-IsValid}
use tiny_coroutine.IoManager
use tiny_coroutine.IoManager.{IoManager, Kernel, Caller, add_event}
use tiny_coroutine.IoManager.History.{adds, exec, starts, calls, Reach-refines}
use tiny_coroutine.Hook.Io.{error, etimedout}
use tiny_coroutine.Hook.Wait.{Process, start_wait, run_callback, end_wait}
use tiny_coroutine.Hook.Timeout.{IsWaiting, TimedOut, timer_wakes_waiting}
use tiny_coroutine.Hook.Started.{Timed, wait_starts}

abbrev quiet : Scheduler
quiet = record {
  tasks = [];
  thread_cnt = 2;
  threads = 2;
  active_thread_cnt = 1;
  idle_thread_cnt = 1;
  use_caller = false;
  root_thread = none;
  stopping = false;
  pipe = 0;
}

-- A kernel that takes every request.
abbrev willing : Kernel
willing log r = true

abbrev thread : Caller
thread = record { scheduler = some 0; fiber = 5; is_running = true }

-- Functions of users that do nothing.
abbrev ignored : ℕ → Process → Result Process
ignored n p = done p

abbrev before : Process
before = record {
  manager = record { io = IoManager.init (λ _. quiet); timers = Timer.init 0; self = 0 };
  infos = λ _. some false;
}

wait_starts_example :
    (p' : Process) × (t : ℕ) × (start_wait willing before 7 3 read 50 thread 0
      ≡ done (p', some t, true))
    × package.tiny_coroutine.IoManager.Valid.IsValid p'.manager.io
    × IsWaiting p'.manager.io 3 read 0 5
    × Timed p' 7 3 read (milliseconds 50) t
unfolding IoManager.init Timer.init
wait_starts_example =
    wait_starts willing before 7 3 read 50 thread 0 0
      (package.tiny_coroutine.IoManager.Valid.init-IsValid (λ _. quiet)) (init-IsValid 0) refl
      (refl, refl) refl refl refl

-- The state in the wait, with its timer.
abbrev state_of : Result IoManager → IoManager
state_of (done m) = m
state_of abort = IoManager.init (λ _. quiet)

abbrev waiting : IoManager
waiting = state_of (exec willing (IoManager.init (λ _. quiet)) (adds 3 read thread none))

waiting-IsValid : package.tiny_coroutine.IoManager.Valid.IsValid waiting
unfolding IoManager.init add_event exec
waiting-IsValid =
    (Reach-refines {kernel = willing} {schedulers = λ _. quiet}
      (calls (adds 3 read thread none) starts (refl, refl, refl) refl)).0

abbrev timed : TimerManager
timed = (add_timer (Timer.init 0) 50 (some (on_timer 7 (expire 7 3 read))) false 0).0

abbrev during : Process
during = record {
  manager = record { io = waiting; timers = timed; self = 0 };
  infos = λ _. some false;
}

timer_wakes_waiting_example :
    (p' : Process) × (run_callback willing ignored during (on_timer 7 (expire 7 3 read)) ≡ done p')
    × TimedOut during 7 3 read 0 5 p'
    × ((end_wait p' 7 (some 0)).1 ≡ some (error etimedout))
unfolding IoManager.init add_event exec
timer_wakes_waiting_example =
    timer_wakes_waiting willing ignored during 7 3 read 0 5 (some 0) waiting-IsValid
      (omega arith, refl, refl) refl refl
