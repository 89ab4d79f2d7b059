-- ===== src/Pool.antt =====
-- code/scheduler.cpp: run() on the threads of a pool, with the fibers that it resumes under their locks.
--
-- The fibers and the queue are shared; each thread has its own t_fiber, t_thread_fiber and
-- t_scheduler_fiber and runs on its own stack. The threads are those that start() makes and, where it
-- takes part (use_caller), the thread that made the Scheduler, which enters run() by stop(), in the
-- fiber m_schedulerFiber. Each thread has an idle fiber, which it resumes where it finds no task.
pub mod Valid
pub mod Views
pub mod Grow
pub mod Keep
pub mod Adopt
pub mod Moves
pub mod Switches
pub mod Enter
pub mod Rest
pub mod Invariant
pub mod Safety
pub mod Stray
pub mod Tests
use tiny_coroutine.Base.{
  ℕ, ◌+◌, ◌-◌, ◌<◌, ◌≡◌, Bool, true, false, Option, none, some, update, not, ◌&&◌, ◌==◌,
  if◌then◌else◌,
}
use tiny_coroutine.Callback.{Callback}
use tiny_coroutine.Result.{Result, done}
use tiny_coroutine.Fiber.{
  State, term, Stack, thread_stack, Fiber, Machine, start_thread, new_fiber, get_this, resume,
  yield, finish, is_term, set_scheduler_fiber,
}
use tiny_coroutine.Scheduler.{ScheduleTask, Scheduler, new_scheduler, schedule_lock, take_task}

-- What is thread_local in fiber.cpp, and the stack that the thread runs on.
pub record Core : Type 0 where
  pub this : Option ℕ
  pub thread_fiber : Option ℕ
  pub scheduler_fiber : Option ℕ
  pub stack : Stack

-- Where a thread stands in run(), with the fiber of its task.
pub data Place : Type 0 where
  -- the creating thread before stop(), outside of run()
  apart : Place
  -- before Fiber::GetThis
  starting : Place
  -- at the top of the loop
  looking : Place
  -- before the lock of the fiber
  locking : ℕ → Place
  -- behind the lock, before the test of its state
  holding : ℕ → Place
  -- before resume()
  entering : ℕ → Place
  -- in the fiber
  inside : ℕ → Place
  -- before the lock is given up
  leaving : ℕ → Place
  -- without a task, before the test of the idle fiber
  resting : Place
  -- in the idle fiber
  idling : Place
  -- behind the loop
  ended : Place

-- `mutex` is the thread that holds the m_mtx of a fiber; an idle fiber, which only its thread knows,
-- counts as held by it. `idles` has the idle fibers. `root` is m_rootThread with m_schedulerFiber.
pub record Pool : Type 0 where
  pub root : Option (ℕ × ℕ)
  pub sched : Scheduler
  pub fibers : ℕ → Fiber
  pub fresh : ℕ
  pub fiber_cnt : ℕ
  pub mutex : ℕ → Option ℕ
  pub idles : ℕ → Option ℕ
  pub cores : ℕ → Core
  pub places : ℕ → Place

abbrev pub start_core : Core
start_core = record {
  this = none;
  thread_fiber = none;
  scheduler_fiber = none;
  stack = thread_stack;
}

-- What the calls of fiber.cpp see on the thread `i`, and what they leave.
abbrev pub view : Pool → ℕ → Machine
view p i = record {
  fibers = p.fibers;
  fresh = p.fresh;
  fiber_cnt = p.fiber_cnt;
  this = (p.cores i).this;
  thread_fiber = (p.cores i).thread_fiber;
  scheduler_fiber = (p.cores i).scheduler_fiber;
  stack = (p.cores i).stack;
}

abbrev pub share : Pool → Machine → Pool
share p m = record p { fibers = m.fibers; fresh = m.fresh; fiber_cnt = m.fiber_cnt }

abbrev pub write_back : Pool → ℕ → Machine → Place → Pool
write_back p i m w = record (share p m) {
  cores = update p.cores i (record {
    this = m.this;
    thread_fiber = m.thread_fiber;
    scheduler_fiber = m.scheduler_fiber;
    stack = m.stack;
  });
  places = update p.places i w;
}

abbrev pub move : Pool → ℕ → Place → Pool
move p i w = record p { places = update p.places i w }

-- The branches of run() behind the search. Nobody else knows the fiber that is made for a function, so
-- that its lock is free.
abbrev pub after_take : Pool → ℕ → Option ℕ → Option Callback → Pool
after_take p i (some f) cb = move p i (locking f)
after_take p i none (some cb) =
    let made = share p (new_fiber (view p i) (some cb) 0 true) in
    record (move made i (entering p.fresh)) { mutex = update p.mutex p.fresh (some i) }
after_take p i none none = p

abbrev pub take : Pool → ℕ → Pool
take p i =
    let (sched, task) = take_task p.sched i in
    elim task [
      | none ↦ record (move p i resting) { sched = sched }
      | some t ↦ after_take (record p { sched = sched }) i t.fiber t.cb
    ]

abbrev pub lock : Pool → ℕ → ℕ → Pool
lock p i f = record (move p i (holding f)) { mutex = update p.mutex f (some i) }

-- task.fiber->getState() != Fiber::TERM
abbrev pub test : Pool → ℕ → ℕ → Pool
test p i f = move p i (if is_term (p.fibers f).state then leaving f else entering f)

-- The end of the block with the lock, and what follows it.
abbrev pub unlock : Pool → ℕ → ℕ → Pool
unlock p i f = record (move p i looking) {
  mutex = update p.mutex f none;
  sched = record (p.sched) { active_thread_cnt = p.sched.active_thread_cnt - 1 };
}

-- Does the fiber return to where run() resumes it? Without the creating thread every fiber does. With it,
-- m_schedulerFiber, which is private, is none of the tasks, and a fiber that does not return to the
-- scheduling fiber must not be scheduled: resume() writes the context of run() over that of the main
-- fiber, so that yield() goes on in run(), on the stack of m_schedulerFiber, while t_fiber points to
-- the main fiber.
abbrev pub fits : Pool → ℕ → Bool
fits p f = elim p.root [ none ↦ true | some r ↦ not (r.1 == f) && (p.fibers f).run_in_scheduler ]

-- The idle fiber of the thread `i`, made at the top of run(), for the function `idle`.
abbrev pub with_idle : Pool → ℕ → Callback → Pool
with_idle p i idle = record (share p (new_fiber (view p i) (some idle) 0 true)) {
  idles = update p.idles i (some p.fresh);
  mutex = update p.mutex p.fresh (some i);
}

-- m_idleThreadCnt++ and m_idleThreadCnt--
abbrev pub enter_rest : Pool → Pool
enter_rest p = record p {
  sched = record (p.sched) { idle_thread_cnt = p.sched.idle_thread_cnt + 1 };
}

abbrev pub leave_rest : Pool → Pool
leave_rest p = record p {
  sched = record (p.sched) { idle_thread_cnt = p.sched.idle_thread_cnt - 1 };
}

-- A fiber that a task may name, so that run() finds its way back.
abbrev pub IsKnown : Pool → Option ℕ → Type 0
IsKnown p none = Unit
IsKnown p (some f) = (f < p.fresh) × ((p.fibers f).has_stack ≡ true) × (fits p f ≡ true)

-- A task points to a fiber that was made.
abbrev pub IsMade : Pool → Option ℕ → Type 0
IsMade p none = Unit
IsMade p (some f) = f < p.fresh

-- A step of the pool. Any thread may make a fiber, and schedule a task, at any time.
pub data Step (p : Pool) : Pool → Type 0 where
  begins :
      (i : ℕ) (garbage : Bool) (idle : Callback)
      → p.places i ≡ starting
      → Step p (with_idle (write_back p i (get_this garbage (view p i)).0 looking) i idle)
  -- m_schedulerFiber->resume() in stop()
  enters :
      (i s : ℕ) (m : Machine) (idle : Callback)
      → p.root ≡ some (i, s)
      → p.places i ≡ apart
      → resume (view p i) s ≡ done m
      → Step p (with_idle (write_back p i m looking) i idle)
  makes :
      (i : ℕ) (cb : Option Callback) (stacksize : ℕ) (run_in_scheduler : Bool)
      → Step p (share p (new_fiber (view p i) cb stacksize run_in_scheduler))
  schedules :
      (t : ScheduleTask) → IsMade p t.fiber → Step p (record p { sched = schedule_lock p.sched t })
  takes : (i : ℕ) → p.places i ≡ looking → Step p (take p i)
  locks : (i f : ℕ) → p.places i ≡ locking f → p.mutex f ≡ none → Step p (lock p i f)
  tests : (i f : ℕ) → p.places i ≡ holding f → Step p (test p i f)
  resumes :
      (i f : ℕ) (m : Machine)
      → p.places i ≡ entering f
      → resume (view p i) f ≡ done m
      → Step p (write_back p i m (inside f))
  yields :
      (i f : ℕ) (m : Machine)
      → p.places i ≡ inside f
      → yield (view p i) f ≡ done m
      → Step p (write_back p i m (leaving f))
  finishes :
      (i f : ℕ) (m : Machine)
      → p.places i ≡ inside f
      → finish (view p i) f ≡ done m
      → Step p (write_back p i m (leaving f))
  -- the idle fiber is over, or is resumed, and comes back by yield() or at its end
  ends :
      (i f : ℕ)
      → p.places i ≡ resting
      → p.idles i ≡ some f
      → is_term (p.fibers f).state ≡ true
      → Step p (move p i ended)
  rests :
      (i f : ℕ) (m : Machine)
      → p.places i ≡ resting
      → p.idles i ≡ some f
      → is_term (p.fibers f).state ≡ false
      → resume (view p i) f ≡ done m
      → Step p (enter_rest (write_back p i m idling))
  wakes :
      (i f : ℕ) (m : Machine)
      → p.places i ≡ idling
      → p.idles i ≡ some f
      → yield (view p i) f ≡ done m
      → Step p (leave_rest (write_back p i m looking))
  idle_ends :
      (i f : ℕ) (m : Machine)
      → p.places i ≡ idling
      → p.idles i ≡ some f
      → finish (view p i) f ≡ done m
      → Step p (leave_rest (write_back p i m looking))
  unlocks : (i f : ℕ) → p.places i ≡ leaving f → Step p (unlock p i f)

-- The pool before any of its threads has begun.
abbrev pub start_pool : Scheduler → Pool
start_pool sched = record {
  root = none;
  sched = sched;
  fibers = start_thread.fibers;
  fresh = 0;
  fiber_cnt = 0;
  mutex = λ _. none;
  idles = λ _. none;
  cores = λ _. start_core;
  places = λ _. starting;
}

-- The constructor of a Scheduler on the thread `caller`, which takes part: its main fiber, and
-- m_schedulerFiber for `run`.
abbrev pub made_root : Bool → Callback → Machine → Machine
made_root garbage run m =
    let (m', _) = get_this garbage m in
    set_scheduler_fiber (new_fiber m' (some run) 0 false) (some m'.fresh)

abbrev pub root_pool : Scheduler → ℕ → Bool → Callback → Pool
root_pool sched caller garbage run =
    let p = start_pool sched in
    let (m, _) = get_this garbage (view p caller) in
    record (write_back p caller (made_root garbage run (view p caller)) apart) {
      root = some (caller, m.fresh);
    }

-- What the code does not test, and its users keep to: a task is a function, or a fiber with a stack which
-- returns to the scheduling fiber where the creating thread takes part.
abbrev pub IsProper : {p p' : Pool} → Step p p' → Type 0
IsProper {p} (schedules t _) = IsKnown p t.fiber
IsProper _ = Unit

-- The states that a pool comes to by proper steps.
pub data Reach : Pool → Type 0 where
  starts :
      (threads caller : ℕ) (sched : Scheduler)
      → new_scheduler threads false caller ≡ some sched
      → Reach (start_pool sched)
  starts_root :
      (threads caller : ℕ) (sched : Scheduler) (garbage : Bool) (run : Callback)
      → new_scheduler threads true caller ≡ some sched
      → Reach (root_pool sched caller garbage run)
  steps : {p p' : Pool} → Reach p → (s : Step p p') → IsProper s → Reach p'
