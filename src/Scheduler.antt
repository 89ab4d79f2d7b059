-- ===== src/Scheduler.antt =====
-- code/scheduler.h and code/scheduler.cpp: the task queue, the counters and the run loop.
--
-- A thread is named by its number, which stands for its thread id as well; `none` is the thread -1 of
-- a task that any thread may take. A fiber is named by its number. `pipe` counts the bytes in the
-- pipe of the IOManager that a Scheduler is the base of, which its override of tickle() writes.
pub mod Queue
pub mod System
pub mod Account
pub mod Safety
pub mod Fairness
pub mod End
pub mod Tests
use tiny_coroutine.Base.{
  ℕ, suc, zero, ◌+◌, ◌-◌, ◌≡◌, ◌≢◌, Bool, true, false, ◌&&◌, ◌||◌, not, Option, none, some, List,
  [], ◌∷◌, ◌++◌, ltb, ◌==◌, if◌then◌else◌, is_some, is_empty,
}
use tiny_coroutine.Callback.{Callback}

pub record ScheduleTask : Type 0 where
  pub fiber : Option ℕ
  pub cb : Option Callback
  pub thread : Option ℕ

-- The constructors of ScheduleTask, and reset().
abbrev pub empty_task : ScheduleTask
empty_task = record { fiber = none; cb = none; thread = none }

abbrev pub fiber_task : Option ℕ → Option ℕ → ScheduleTask
fiber_task f thr = record { fiber = f; cb = none; thread = thr }

abbrev pub cb_task : Option Callback → Option ℕ → ScheduleTask
cb_task f thr = record { fiber = none; cb = f; thread = thr }

-- task.fiber || task.cb
abbrev pub has_work : ScheduleTask → Bool
has_work task = is_some task.fiber || is_some task.cb

pub record Scheduler : Type 0 where
  pub tasks : List ScheduleTask
  pub thread_cnt : ℕ
  pub threads : ℕ
  pub active_thread_cnt : ℕ
  pub idle_thread_cnt : ℕ
  pub use_caller : Bool
  pub root_thread : Option ℕ
  pub stopping : Bool
  pub pipe : ℕ

-- Scheduler::Scheduler on thread `caller`; `none` where the assertion on `threads` fails.
unfoldable pub new_scheduler : ℕ → Bool → ℕ → Option Scheduler
new_scheduler zero use_caller caller = none
new_scheduler (suc n) use_caller caller = some (record {
  tasks = [];
  thread_cnt = if use_caller then n else suc n;
  threads = 0;
  active_thread_cnt = 0;
  idle_thread_cnt = 0;
  use_caller = use_caller;
  root_thread = if use_caller then some caller else none;
  stopping = false;
  pipe = 0;
})

-- hasIdleThreads()
abbrev pub has_idle_threads : Scheduler → Bool
has_idle_threads s = ltb 0 s.idle_thread_cnt

-- tickle(), as IOManager overrides it: a byte for the pipe if a thread may sleep on it.
unfoldable pub tickle : Scheduler → Scheduler
tickle s = if has_idle_threads s then record s { pipe = s.pipe + 1 } else s

-- scheduleLock: a task with neither a fiber nor a function is dropped.
unfoldable pub schedule_lock : Scheduler → ScheduleTask → Scheduler
unfolding tickle
schedule_lock s task =
    let need_tickle = is_empty s.tasks in
    let s' = if has_work task then record s { tasks = s.tasks ++ task ∷ [] } else s in
    if need_tickle then tickle s' else s'

-- it->thread != -1 && it->thread != thread_id
abbrev pub for_other : ℕ → ScheduleTask → Bool
for_other thread_id task = elim task.thread [ none ↦ false | some t ↦ not (t == thread_id) ]

-- What the search of run() in the queue yields; `asserted` is the assertion on the task.
pub record Pick : Type 0 where
  pub task : Option ScheduleTask
  pub tasks : List ScheduleTask
  pub tickle_me : Bool
  pub asserted : Bool

-- The search. After `erase` the iterator stands at the element that followed the one taken.
unfoldable pub pick : ℕ → Bool → List ScheduleTask → Pick
pick thread_id tickle_me [] = record {
  task = none;
  tasks = [];
  tickle_me = tickle_me;
  asserted = true;
}
pick thread_id tickle_me (t ∷ ts) =
    let later = pick thread_id true ts in
    if for_other thread_id t then record later { tasks = t ∷ later.tasks } else record {
      task = some t;
      tasks = ts;
      tickle_me = tickle_me || not (is_empty ts);
      asserted = has_work t;
    }

-- The critical section of run() and the call of tickle() behind it.
unfoldable pub take_task : Scheduler → ℕ → Scheduler × Option ScheduleTask
unfolding pick tickle
take_task s thread_id =
    let p = pick thread_id false s.tasks in
    let s' = record s {
      tasks = p.tasks;
      active_thread_cnt = if is_some p.task then s.active_thread_cnt + 1 else s.active_thread_cnt;
    } in
    (if p.tickle_me then tickle s' else s', p.task)

-- Scheduler::stopping().
unfoldable pub stopping : Scheduler → Bool
stopping s = s.stopping && is_empty s.tasks && s.active_thread_cnt == 0

-- Scheduler::start(); `none` where the assertion that no thread runs yet fails.
unfoldable pub start : Scheduler → Option Scheduler
start s =
    if s.stopping
    then some s
    else if s.threads == 0
    then some (record s { threads = s.thread_cnt })
    else none

-- The calls of tickle() in stop(), one for each thread.
unfoldable pub tickle_times : ℕ → Scheduler → Scheduler
unfolding tickle
tickle_times zero s = s
tickle_times (suc n) s = tickle_times n (tickle s)

-- Scheduler::stop() behind its first test, without the run of m_schedulerFiber and the joins.
abbrev pub begin_stop : Scheduler → Scheduler
begin_stop s =
    let s' = tickle_times s.thread_cnt (record s { stopping = true }) in
    let s'' = if s.use_caller then tickle s' else s' in record s'' { threads = 0 }

-- Scheduler::stop() up to the joins: a second call, once all is done, changes nothing.
unfoldable pub stop : Scheduler → Scheduler
unfolding stopping tickle tickle_times
stop s = if stopping s then s else begin_stop s

-- Scheduler::~Scheduler of the scheduler `self`, on a thread with the t_scheduler `this`: what that is
-- then. `none` where the assertion fails.
unfoldable pub delete_scheduler : Scheduler → ℕ → Option ℕ → Option (Option ℕ)
unfolding stopping
delete_scheduler s self this =
    if stopping s
    then some (elim this [ none ↦ none | some t ↦ if t == self then none else some t ])
    else none
