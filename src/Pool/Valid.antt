-- ===== src/Pool/Valid.antt =====
-- code/scheduler.cpp and code/fiber.cpp: what holds of the fibers and threads of a pool.
use tiny_coroutine.Base.{
  ℕ, ◌<◌, ◌≡◌, ◌≢◌, Bool, true, false, not, Option, none, some, List, [], ◌∷◌, if◌then◌else◌, ◌==◌,
  ◌⊎◌,
}
use tiny_coroutine.Fiber.{
  State, ready, running, Stack, thread_stack, stack_of, Fiber, is_ready, is_running,
}
use tiny_coroutine.Scheduler.{ScheduleTask}
use tiny_coroutine.Pool.{
  Core, Place, apart, starting, looking, locking, holding, entering, inside, leaving, resting,
  idling, ended, Pool, start_core, IsKnown,
}

-- The fiber whose lock the thread holds, and the one that it has a pointer to.
abbrev pub holds : Place → Option ℕ
holds (holding f) = some f
holds (entering f) = some f
holds (inside f) = some f
holds (leaving f) = some f
holds _ = none

abbrev pub refers : Place → Option ℕ
refers (locking f) = some f
refers w = holds w

-- The states that the fiber of a thread can have.
abbrev pub allowed : Place → State → Bool
allowed (entering f) s = is_ready s
allowed (inside f) s = is_running s
allowed _ s = not (is_running s)

-- The thread's own variables, where `c` is its main fiber.
abbrev pub this_at : Place → ℕ → ℕ
this_at (inside f) c = f
this_at _ c = c

abbrev pub stack_at : Place → Stack → Stack
stack_at (inside f) home = stack_of f
stack_at _ home = home

abbrev pub home_of : (ℕ → Fiber) → ℕ → Stack
home_of fibers f = if (fibers f).has_stack then stack_of f else thread_stack

abbrev pub is_apart : Place → Bool
is_apart apart = true
is_apart _ = false

-- m_schedulerFiber: it has a stack, returns to the main fiber, and runs once its thread is in run().
pub record RootOf (fibers : ℕ → Fiber) (fresh : ℕ) (place : Place) (s : ℕ) : Type 0 where
  pub below : s < fresh
  pub stacked : (fibers s).has_stack ≡ true
  pub returns : (fibers s).run_in_scheduler ≡ false
  pub state : (fibers s).state ≡ (if is_apart place then ready else running)

abbrev pub IsRoot : Pool → ℕ → ℕ → Type 0
IsRoot p r s = RootOf p.fibers p.fresh (p.places r) s

abbrev pub core_at : Place → ℕ → ℕ → Stack → Core
core_at w c s home = record {
  this = some (this_at w s);
  thread_fiber = some c;
  scheduler_fiber = some s;
  stack = stack_at w home;
}

-- The fiber that run() is in: the main fiber of the thread, or m_schedulerFiber on the creating thread.
abbrev pub IsHome : Pool → ℕ → ℕ → ℕ → Type 0
IsHome p i c s = (s ≡ c) ⊎ (p.root ≡ some (i, s))

abbrev pub IsMain : Pool → ℕ → Type 0
IsMain p c = (c < p.fresh) × ((p.fibers c).has_stack ≡ false)

-- The variables of the thread `i` in run(), for the root and the fibers of the pool.
pub record CoreOf (root : Option (ℕ × ℕ)) (fibers : ℕ → Fiber) (fresh i : ℕ) (w : Place) (k : Core)
    : Type 0 where
  pub main : ℕ
  pub sched : ℕ
  pub known : (main < fresh) × ((fibers main).has_stack ≡ false)
  pub home : (sched ≡ main) ⊎ (root ≡ some (i, sched))
  pub core : k ≡ core_at w main sched (home_of fibers sched)

abbrev pub HasCore : Pool → ℕ → Place → Core → Type 0
HasCore p i w k = CoreOf p.root p.fibers p.fresh i w k

-- The creating thread before stop(): t_scheduler_fiber is set, but its main fiber runs.
pub record ApartOf (root : Option (ℕ × ℕ)) (fibers : ℕ → Fiber) (fresh : ℕ) (idle : Option ℕ)
    (i : ℕ) (k : Core) : Type 0 where
  pub main : ℕ
  pub sched : ℕ
  pub known : (main < fresh) × ((fibers main).has_stack ≡ false)
  pub rooted : root ≡ some (i, sched)
  pub unborn : idle ≡ none
  pub core : k ≡ record {
    this = some main;
    thread_fiber = some main;
    scheduler_fiber = some sched;
    stack = thread_stack;
  }

abbrev pub IsApart : Pool → ℕ → Core → Type 0
IsApart p i k = ApartOf p.root p.fibers p.fresh (p.idles i) i k

-- The thread is in its idle fiber.
pub record IdlingOf (root : Option (ℕ × ℕ)) (fibers : ℕ → Fiber) (fresh : ℕ) (idle : Option ℕ)
    (i : ℕ) (k : Core) : Type 0 where
  pub fiber : ℕ
  pub own : idle ≡ some fiber
  pub core : CoreOf root fibers fresh i (inside fiber) k

abbrev pub IsIdling : Pool → ℕ → Core → Type 0
IsIdling p i k = IdlingOf p.root p.fibers p.fresh (p.idles i) i k

abbrev pub IsAt : Pool → ℕ → Place → Core → Type 0
IsAt p i apart k = IsApart p i k
IsAt p i starting k = (k ≡ start_core) × (p.idles i ≡ none)
IsAt p i looking k = HasCore p i looking k
IsAt p i (locking f) k = HasCore p i looking k
IsAt p i (holding f) k = HasCore p i looking k
IsAt p i (entering f) k = HasCore p i looking k
IsAt p i (inside f) k = HasCore p i (inside f) k
IsAt p i (leaving f) k = HasCore p i looking k
IsAt p i resting k = HasCore p i looking k
IsAt p i idling k = IsIdling p i k
IsAt p i ended k = HasCore p i looking k

abbrev pub AllKnown : Pool → List ScheduleTask → Type 0
AllKnown p [] = Unit
AllKnown p (t ∷ ts) = IsKnown p t.fiber × AllKnown p ts

-- Is the fiber m_schedulerFiber?
abbrev pub own_root : Pool → ℕ → Bool
own_root p f = elim p.root [ none ↦ false | some r ↦ r.1 == f ]

-- The thread has locked the fiber, or it is the thread's idle fiber.
abbrev pub Owns : Pool → ℕ → ℕ → Type 0
Owns p i f = (holds (p.places i) ≡ some f) ⊎ (p.idles i ≡ some f)

-- The states that an idle fiber can have.
abbrev pub is_idling : Place → Bool
is_idling idling = true
is_idling _ = false

abbrev pub allowed_idle : Place → State → Bool
allowed_idle w s = if is_idling w then is_running s else not (is_running s)

abbrev pub IsIdle : Pool → ℕ → ℕ → Type 0
IsIdle p i f =
    IsKnown p (some f)
    × (p.mutex f ≡ some i)
    × (allowed_idle (p.places i) (p.fibers f).state ≡ true)

-- Every context continues on the stack of its fiber; a main fiber counts as running. A thread holds the
-- lock of the fiber of its task, whose state fits where the thread stands; a fiber that no thread has
-- locked is not running, but for m_schedulerFiber. What the queue and the threads point to exists.
pub record IsPool (p : Pool) : Type 0 where
  pub own : (f : ℕ) → f < p.fresh → (p.fibers f).ctx ≡ some (home_of p.fibers f)
  pub mains : (f : ℕ) → f < p.fresh → (p.fibers f).has_stack ≡ false → (p.fibers f).state ≡ running
  pub holder :
      (i f : ℕ)
      → holds (p.places i) ≡ some f
      → (p.mutex f ≡ some i) × (allowed (p.places i) (p.fibers f).state ≡ true)
  pub held : (i f : ℕ) → p.mutex f ≡ some i → Owns p i f
  pub separate : (i f : ℕ) → holds (p.places i) ≡ some f → p.idles i ≢ some f
  pub idle : (i f : ℕ) → p.idles i ≡ some f → IsIdle p i f
  pub free :
      (f : ℕ)
      → f < p.fresh
      → (p.fibers f).has_stack ≡ true
      → p.mutex f ≡ none
      → own_root p f ≡ false
      → is_running (p.fibers f).state ≡ false
  pub known : (i f : ℕ) → refers (p.places i) ≡ some f → IsKnown p (some f)
  pub tasks : AllKnown p p.sched.tasks
  pub core : (i : ℕ) → IsAt p i (p.places i) (p.cores i)
  pub root : (r s : ℕ) → p.root ≡ some (r, s) → IsRoot p r s

pub refers-holds : (w : Place) (f : ℕ) → holds w ≡ some f → refers w ≡ some f
refers-holds apart f e = cc
refers-holds resting f e = cc
refers-holds idling f e = cc
refers-holds ended f e = cc
refers-holds starting f e = cc
refers-holds (inside g) f e = e
refers-holds looking f e = cc
refers-holds (locking g) f e = cc
refers-holds (holding g) f e = e
refers-holds (entering g) f e = e
refers-holds (leaving g) f e = e
