-- ===== src/Scheduler/System.antt =====
-- code/scheduler.cpp: run(), idle() and stop() on the threads of a pool, as interleavings of the steps
-- that are atomic: a critical section, or a change of one counter.
use tiny_coroutine.Base.{
  ℕ, ◌+◌, ◌-◌, ◌<◌, ◌≡◌, Bool, true, false, Option, none, some, List, [], ◌∷◌, if◌then◌else◌,
  update,
}
use tiny_coroutine.Scheduler.{
  ScheduleTask, Scheduler, has_work, new_scheduler, schedule_lock, take_task, stopping, stop,
}

-- Where a thread stands in run(). The Boolean says whether its idle fiber has come to its end.
pub data Worker : Type 0 where
  -- at the top of the loop
  searching : Bool → Worker
  -- the task's fiber, or one for its function, has been resumed
  running : ScheduleTask → Bool → Worker
  -- no task was found, and the idle count has yet to rise
  resting : Worker
  -- inside the idle fiber
  idling : Worker
  -- back from the idle fiber, and the idle count has yet to fall
  leaving : Bool → Worker
  -- behind the loop
  ended : Worker

-- `scheduled` and `done` record the tasks that came and that are over, newest first.
pub record System : Type 0 where
  pub sched : Scheduler
  pub workers : ℕ → Worker
  pub scheduled : List ScheduleTask
  pub done : List ScheduleTask

-- The branches of run() after the search.
abbrev pub after_search : Bool → Option ScheduleTask → Worker
after_search idle_over (some t) = running t idle_over
after_search true none = ended
after_search false none = resting

abbrev pub search_task : System → ℕ → Bool → System
search_task s i idle_over = record s {
  sched = (take_task s.sched i).0;
  workers = update s.workers i (after_search idle_over (take_task s.sched i).1);
}

abbrev pub finish_task : System → ℕ → ScheduleTask → Bool → System
finish_task s i t idle_over = record s {
  sched = record (s.sched) { active_thread_cnt = s.sched.active_thread_cnt - 1 };
  workers = update s.workers i (searching idle_over);
  done = t ∷ s.done;
}

abbrev pub schedule_task : System → ScheduleTask → System
schedule_task s t = record s {
  sched = schedule_lock s.sched t;
  scheduled = if has_work t then t ∷ s.scheduled else s.scheduled;
}

abbrev pub enter_idle : System → ℕ → System
enter_idle s i = record s {
  sched = record (s.sched) { idle_thread_cnt = s.sched.idle_thread_cnt + 1 };
  workers = update s.workers i idling;
}

abbrev pub leave_idle : System → ℕ → Bool → System
leave_idle s i idle_over = record s {
  sched = record (s.sched) { idle_thread_cnt = s.sched.idle_thread_cnt - 1 };
  workers = update s.workers i (searching idle_over);
}

-- A step of a pool of `n` threads. Tasks come from anywhere, at any time. The idle fiber comes to its
-- end only where stopping() answers true.
pub data Step (n : ℕ) (s : System) : System → Type 0 where
  schedules : (t : ScheduleTask) → Step n s (schedule_task s t)
  searches :
      (i : ℕ) (idle_over : Bool)
      → i < n
      → s.workers i ≡ searching idle_over
      → Step n s (search_task s i idle_over)
  finishes :
      (i : ℕ) (t : ScheduleTask) (idle_over : Bool)
      → i < n
      → s.workers i ≡ running t idle_over
      → Step n s (finish_task s i t idle_over)
  rests : (i : ℕ) → i < n → s.workers i ≡ resting → Step n s (enter_idle s i)
  yields :
      (i : ℕ)
      → i < n
      → s.workers i ≡ idling
      → Step n s (record s { workers = update s.workers i (leaving false) })
  idle_ends :
      (i : ℕ)
      → i < n
      → s.workers i ≡ idling
      → stopping s.sched ≡ true
      → Step n s (record s { workers = update s.workers i (leaving true) })
  leaves :
      (i : ℕ) (idle_over : Bool)
      → i < n
      → s.workers i ≡ leaving idle_over
      → Step n s (leave_idle s i idle_over)
  stops : Step n s (record s { sched = stop s.sched })

-- The pool at its start: each thread is at the top of its loop.
abbrev pub start_system : Scheduler → System
start_system sched = record {
  sched = sched;
  workers = λ _. searching false;
  scheduled = [];
  done = [];
}

-- The states that a pool of `n` threads on a new Scheduler comes to.
pub data Reach (n : ℕ) : System → Type 0 where
  starts :
      (threads : ℕ) (use_caller : Bool) (caller : ℕ) (sched : Scheduler)
      → new_scheduler threads use_caller caller ≡ some sched
      → Reach n (start_system sched)
  steps : {s s' : System} → Reach n s → Step n s s' → Reach n s'
