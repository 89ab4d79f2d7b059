-- ===== src/Scheduler/Tests.antt =====
-- Runs of code/scheduler.cpp on small inputs, and its theorems at inputs that meet their hypotheses.
use tiny_coroutine.Base.{
  ℕ, ◌<◌, ◌≡◌, refl, Bool, false, none, some, List, [], ◌∷◌, arith, count, update, true, Bool,
  is_empty, if◌then◌else◌,
}
use tiny_coroutine.Callback.{user}
use tiny_coroutine.Scheduler.{
  ScheduleTask, Scheduler, cb_task, fiber_task, new_scheduler, schedule_lock, take_task, stopping,
  stop, delete_scheduler,
}
use tiny_coroutine.Scheduler.End.{forgotten, ended_deletes}
use tiny_coroutine.Scheduler.System.{
  System, Reach, start_system, schedule_task, search_task, finish_task, schedules, searches,
  finishes, stops, starts, steps, enter_idle, leave_idle, leaving, rests, idle_ends, leaves, ended,
}
use tiny_coroutine.Scheduler.Account.{Account, busy}
use tiny_coroutine.Scheduler.Fairness.{Event, comes, turn, HasTurn, has_turn}
use tiny_coroutine.Scheduler.Safety.{Reach-Account, stopping_quiet}

abbrev pool : Scheduler
pool = record {
  tasks = [];
  thread_cnt = 2;
  threads = 0;
  active_thread_cnt = 0;
  idle_thread_cnt = 0;
  use_caller = false;
  root_thread = none;
  stopping = false;
  pipe = 0;
}

-- Two tasks, the first for thread 1 only, and one thread asleep.
abbrev mixed : Scheduler
mixed = record pool {
  tasks = fiber_task (some 8) (some 1) ∷ cb_task (some (user 3)) none ∷ [];
  idle_thread_cnt = 1;
}

skips_other : (take_task mixed 0).1 ≡ some (cb_task (some (user 3)) none)
unfolding take_task
skips_other = refl

-- A task comes, thread 0 takes it and finishes it, and the pool is stopped.
abbrev job : ScheduleTask
job = cb_task (some (user 3)) none

abbrev given : System
given = schedule_task (start_system pool) job

abbrev working : System
working = search_task given 0 false

abbrev finished : System
finished = finish_task working 0 job false

abbrev stopped : System
stopped = record finished { sched = stop finished.sched }

given-Reach : Reach 2 given
unfolding new_scheduler
given-Reach = steps (starts 2 false 7 pool refl) (schedules job)

working-Reach : Reach 2 working
working-Reach = steps given-Reach (searches 0 false (omega arith) refl)

stopped-Reach : Reach 2 stopped
unfolding schedule_lock take_task
stopped-Reach = steps (steps working-Reach (finishes 0 job false (omega arith) refl)) stops

Reach-Account_example : Account 2 working
Reach-Account_example = Reach-Account working-Reach

stopping_quiet_example :
    (stopped.sched.tasks ≡ [])
    × ((i : ℕ) → i < 2 → busy (stopped.workers i) ≡ 0)
    × ((p : ScheduleTask → Bool) → count p stopped.scheduled ≡ count p stopped.done)
unfolding schedule_lock take_task stop stopping
stopping_quiet_example = stopping_quiet stopped-Reach refl

-- The second task of the queue waits for two searches, whatever comes in between.
abbrev busy_day : List Event
busy_day = turn 1 ∷ comes (fiber_task (some 9) none) ∷ turn 0 ∷ []

has_turn_example : HasTurn mixed busy_day (cb_task (some (user 3)) none)
has_turn_example =
    has_turn busy_day mixed (fiber_task (some 8) (some 1) ∷ []) (cb_task (some (user 3)) none) []
      refl (omega arith)

-- The one thread of a pool comes to its end after stop().
abbrev at_end : System
at_end =
    let s1 = record (start_system pool) { sched = stop pool } in
    let s2 = enter_idle (search_task s1 0 false) 0 in
    let s3 = leave_idle (record s2 { workers = update s2.workers 0 (leaving true) }) 0 true in
    search_task s3 0 true

at_end-Reach : Reach 1 at_end
unfolding new_scheduler stop stopping take_task
at_end-Reach =
    steps
      (steps
        (steps
          (steps
            (steps (steps (starts 2 false 7 pool refl) stops) (searches 0 false (omega arith) refl))
            (rests 0 (omega arith) refl))
          (idle_ends 0 (omega arith) refl refl))
        (leaves 0 true (omega arith) refl))
      (searches 0 true (omega arith) refl)

only : (i : ℕ) → i < 1 → at_end.workers i ≡ ended
unfolding stop stopping take_task
only i lt = ground arith

ended_deletes_example :
    delete_scheduler at_end.sched 3 (some 3)
    ≡ (if is_empty at_end.sched.tasks then some (forgotten 3 (some 3)) else none)
ended_deletes_example = ended_deletes 3 (some 3) at_end-Reach (omega arith) only
