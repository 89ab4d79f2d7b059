-- ===== src/IoManager/Runs.antt =====
-- Histories of code/ioscheduler.cpp, and its theorems on them.
use tiny_coroutine.Base.{
  ℕ, ◌+◌, ◌≡◌, refl, true, false, none, some, List, [], ◌++◌, count, if◌then◌else◌, arith,
}
use tiny_coroutine.Callback.{read}
use tiny_coroutine.Scheduler.{Scheduler}
use tiny_coroutine.IoManager.Mask.{has}
use tiny_coroutine.IoManager.{IoManager, Kernel, Caller, init, add_event, grow}
use tiny_coroutine.IoManager.Shrink.{IsLost, late_resize_loses}
use tiny_coroutine.IoManager.Valid.{IsValid}
use tiny_coroutine.IoManager.Registry.{Change, apply_all, brings, takes}
use tiny_coroutine.IoManager.Refine.{registry}
use tiny_coroutine.IoManager.History.{
  Call, adds, cancels, exec, changes, Reach, starts, calls, blank, Reach-refines, call_returns,
  taken_once,
}
use tiny_coroutine.Result.{Result, done, abort}

abbrev quiet : Scheduler
quiet = record {
  tasks = [];
  thread_cnt = 2;
  threads = 2;
  active_thread_cnt = 1;
  idle_thread_cnt = 1;
  use_caller = false;
  root_thread = none;
  stopping = false;
  pipe = 0;
}

abbrev queues : ℕ → Scheduler
queues i = quiet

-- A kernel that takes every request.
abbrev willing : Kernel
willing log r = true

abbrev thread : Caller
thread = record { scheduler = some 0; fiber = 5; is_running = true }

abbrev state_of : Result IoManager → IoManager
state_of (done m) = m
state_of abort = init queues

-- Descriptor 3 waits for reading, in fiber 5.
abbrev wait : Call
wait = adds 3 read thread none

abbrev waiting : IoManager
waiting = state_of (exec willing (init queues) wait)

abbrev waited : List Change
waited = changes willing (init queues) wait

waiting-Reach : Reach willing queues waiting waited
unfolding init add_event exec
waiting-Reach = calls wait starts (refl, refl, refl) refl

-- Descriptors 100 and 40 come at once to a table of 32: one thread makes it 150 long and registers 100, the
-- other then makes it 60 long.
abbrev raced : IoManager
raced = state_of (exec willing (init queues) (adds 100 read thread none))

raced-Reach : Reach willing queues raced (changes willing (init queues) (adds 100 read thread none))
unfolding init add_event exec
raced-Reach = calls (adds 100 read thread none) starts (refl, refl, refl) refl

late_resize_loses_example :
    IsLost willing raced 100 read (grow raced 40)
    × IsLost willing raced 100 read (grow (grow raced 40) 100)
unfolding init add_event exec
late_resize_loses_example =
    late_resize_loses willing raced 100 read 40 100 (Reach-refines raced-Reach).0 refl (omega arith)

Reach-refines_example :
    IsValid waiting × (apply_all (blank queues) waited ≡ some (registry waiting))
Reach-refines_example = Reach-refines waiting-Reach

call_returns_example :
    (m' : IoManager) × (exec willing waiting (cancels 3 read) ≡ done m')
    × Reach willing queues m' (waited ++ changes willing waiting (cancels 3 read))
call_returns_example = call_returns (cancels 3 read) waiting-Reach tt

taken_once_example :
    count (brings 3 read) waited
    ≡ count (takes 3 read) waited + (if has (waiting.contexts 3).events read then 1 else 0)
taken_once_example = taken_once 3 read waiting-Reach

came_once : count (brings 3 read) waited ≡ 1
unfolding init
came_once = refl
