-- ===== src/Pool/Tests.antt =====
-- A pool at work: a fiber that is scheduled twice, resumed by one thread and wanted by another.
use tiny_coroutine.Base.{ℕ, ◌≡◌, ◌≢◌, refl, true, false, none, some, [], arith, ◌↔◌, inl, inl}
use tiny_coroutine.Callback.{user}
use tiny_coroutine.Result.{done}
use tiny_coroutine.Fiber.{
  ready, running, term, stack_of, Machine, resume, yield, finish, new_fiber, get_this, main_fiber,
  swapcontext,
}
use tiny_coroutine.Fiber.Switch.{resumed_to}
use tiny_coroutine.Scheduler.{Scheduler, new_scheduler, schedule_lock, take_task, fiber_task}
use tiny_coroutine.Pool.{
  looking, entering, inside, Pool, view, share, write_back, take, lock, test, start_pool, begins,
  makes, schedules, takes, locks, tests, resumes, Reach, starts, starts_root, enter_rest, rests,
  idling, with_idle, steps, root_pool, enters, IsKnown,
}
use tiny_coroutine.Pool.Safety.{IsIn, resume_succeeds, runs_once, yield_succeeds}
use tiny_coroutine.Pool.Stray.{stray_confuses}
use tiny_coroutine.Pool.Valid.{Owns, home_of}

abbrev sched : Scheduler
sched = record {
  tasks = [];
  thread_cnt = 2;
  threads = 0;
  active_thread_cnt = 0;
  idle_thread_cnt = 0;
  use_caller = false;
  root_thread = none;
  stopping = false;
  pipe = 0;
}

abbrev begun : Pool
begun =
    with_idle
      (write_back (start_pool sched) 0 (get_this false (view (start_pool sched) 0)).0 looking) 0
      (user 9)

abbrev made : Pool
made = share begun (new_fiber (view begun 0) none 0 true)

abbrev scheduled : Pool
scheduled = record made { sched = schedule_lock made.sched (fiber_task (some 2) none) }

abbrev twice : Pool
twice = record scheduled { sched = schedule_lock scheduled.sched (fiber_task (some 2) none) }

abbrev tested : Pool
tested = test (lock (take twice 0) 0 2) 0 2

begun-Reach : Reach begun
unfolding new_scheduler
begun-Reach = steps (starts 2 0 sched refl) (begins 0 false (user 9) refl) tt

twice-Reach : Reach twice
unfolding get_this main_fiber new_fiber
twice-Reach =
    steps
      (steps (steps begun-Reach (makes 0 none 0 true) tt)
        (schedules (fiber_task (some 2) none) (omega arith)) known)
      (schedules (fiber_task (some 2) none) (omega arith)) known
  where
    known : IsKnown made (some 2)
    known = (omega arith, refl, refl)

-- The first of the two tasks is for thread 0, and the fiber behind its lock.
tested-Reach : Reach tested
unfolding schedule_lock take_task get_this main_fiber new_fiber
tested-Reach =
    steps (steps (steps twice-Reach (takes 0 refl) tt) (locks 0 2 refl refl) tt) (tests 0 2 refl) tt

at_resume : tested.places 0 ≡ entering 2
unfolding schedule_lock take_task get_this main_fiber new_fiber
at_resume = refl

resume_succeeds_example :
    (m : Machine) × (resume (view tested 0) 2 ≡ done m)
    × (m.this ≡ some 2)
    × (m.stack ≡ stack_of 2)
    × ((m.fibers 2).state ≡ running)
resume_succeeds_example = resume_succeeds 0 2 tested-Reach (inl at_resume)

abbrev entered : Pool
entered = write_back tested 0 (resumed_to (view tested 0) 2 0) (inside 2)

entered-Reach : Reach entered
unfolding schedule_lock take_task get_this main_fiber new_fiber resume swapcontext
entered-Reach = steps tested-Reach (resumes 0 2 (resumed_to (view tested 0) 2 0) refl refl) tt

yield_succeeds_example :
    (c : ℕ) × (m m' : Machine) × ((entered.cores 0).scheduler_fiber ≡ some c)
    × (yield (view entered 0) 2 ≡ done m)
    × (m.this ≡ some c)
    × (m.stack ≡ home_of entered.fibers c)
    × ((m.fibers 2).state ≡ ready)
    × (finish (view entered 0) 2 ≡ done m')
    × (m'.this ≡ some c)
    × (m'.stack ≡ home_of entered.fibers c)
    × ((m'.fibers 2).state ≡ term)
yield_succeeds_example = yield_succeeds 0 2 entered-Reach (inl refl)

runs_once_example : (i : ℕ) × IsIn entered i 2 × ((j : ℕ) → Owns entered j 2 ↔ (j ≡ i))
unfolding get_this main_fiber new_fiber schedule_lock take_task
runs_once_example = runs_once 2 entered-Reach (omega arith) refl refl refl

-- The creating thread 7 of a pool, which takes part, goes into run().
abbrev rooted_sched : Scheduler
rooted_sched = record sched { thread_cnt = 1; use_caller = true; root_thread = some 7 }

abbrev rooted : Pool
rooted = root_pool rooted_sched 7 false (user 0)

rooted-Reach : Reach rooted
unfolding new_scheduler
rooted-Reach = starts_root 2 7 rooted_sched false (user 0) refl

abbrev in_run : Pool
in_run = with_idle (write_back rooted 7 (resumed_to (view rooted 7) 1 0) looking) 7 (user 9)

in_run-Reach : Reach in_run
unfolding get_this main_fiber new_fiber resume swapcontext
in_run-Reach =
    steps rooted-Reach (enters 7 1 (resumed_to (view rooted 7) 1 0) (user 9) refl refl refl) tt

-- It comes to resume a fiber that returns to its main fiber 0, and after yield() runs on the stack of
-- m_schedulerFiber 1 with t_fiber at the main fiber.
abbrev strayed : Pool
strayed = share in_run (new_fiber (view in_run 7) none 0 false)

stray_run :
    (c : ℕ) × (m' m'' : Machine) × ((strayed.cores 7).thread_fiber ≡ some c)
    × (resume (view strayed 7) 3 ≡ done m')
    × (yield m' 3 ≡ done m'')
    × (m''.this ≡ some c)
    × (c ≢ 1)
    × (m''.stack ≡ stack_of 1)
unfolding get_this main_fiber new_fiber
stray_run =
    stray_confuses 7 1 3 (steps in_run-Reach (makes 7 none 0 false) tt) refl refl refl (omega arith)
      refl refl refl

-- Thread 0 finds no task, and goes into its idle fiber.
abbrev restful : Pool
restful = take begun 0

abbrev at_rest : Pool
at_rest = enter_rest (write_back restful 0 (resumed_to (view restful 0) 1 0) idling)

at_rest-Reach : Reach at_rest
unfolding get_this main_fiber new_fiber take_task resume swapcontext
at_rest-Reach =
    steps (steps begun-Reach (takes 0 refl) tt)
      (rests 0 1 (resumed_to (view restful 0) 1 0) refl refl refl refl) tt
