-- ===== src/Pool/Safety.antt =====
-- code/scheduler.cpp: what the lock of a fiber is for.
use tiny_coroutine.Base.{
  ℕ, ◌<◌, ◌≡◌, refl, true, false, none, some, arith, ap, sym, subst, ◌⊎◌, inl, inr, Option-cases,
  ◌↔◌,
}
use tiny_coroutine.Result.{done}
use tiny_coroutine.Fiber.{ready, running, term, is_term, stack_of, Machine, resume, yield, finish}
use tiny_coroutine.Fiber.Switch.{resumed_to, yielded_to}
use tiny_coroutine.Pool.{
  Place, apart, starting, looking, locking, holding, entering, inside, leaving, resting, idling,
  ended, IsKnown, Pool, view, Reach,
}
use tiny_coroutine.Pool.Rest.{resume-resting, yield_idling}
use tiny_coroutine.Pool.Enter.{resume_apart}
use tiny_coroutine.Pool.Valid.{
  HasCore, IsPool, Owns, allowed, allowed_idle, holds, home_of, own_root, refers,
}
use tiny_coroutine.Pool.Switches.{resume_entering, yield_inside}
use tiny_coroutine.Pool.Invariant.{Reach-IsPool}

-- The thread is about to resume the fiber: that of its task, behind the test, or its idle fiber.
abbrev pub IsResuming : Pool → ℕ → ℕ → Type 0
IsResuming p i f =
    (p.places i ≡ entering f)
    ⊎ ((p.places i ≡ resting) × (p.idles i ≡ some f) × (is_term (p.fibers f).state ≡ false))

-- The thread is in the fiber.
abbrev pub IsIn : Pool → ℕ → ℕ → Type 0
IsIn p i f = (p.places i ≡ inside f) ⊎ ((p.places i ≡ idling) × (p.idles i ≡ some f))

resumed_known :
    {p : Pool} (i f : ℕ)
    → IsPool p
    → IsResuming p i f
    → IsKnown p (some f)
      × (k : HasCore p i looking (p.cores i)) × (resume (view p i) f
          ≡ done (resumed_to (view p i) f k.sched))
resumed_known i f v (inl at) =
    let (k, e) = resume_entering i f v at in (v.known i f (ap refers at), k, e)
resumed_known i f v (inr (at, own, alive)) =
    let (k, e) = resume-resting i f v at own alive in ((v.idle i f own).0, k, e)

-- In every state of a pool, with or without the thread that made the Scheduler, whose threads take
-- tasks, lock, test, resume, yield, finish, unlock and rest, make fibers, and schedule functions and
-- fibers with a stack, in any order, where with the thread that made the Scheduler only fibers that
-- return to the scheduling fiber (m_runInScheduler) are scheduled: where a thread is about to resume
-- the fiber of its task, behind the test, or its idle fiber, which is not over, resume() runs into
-- no assertion, and the fiber then runs, on its own stack, as the one that the thread's t_fiber
-- names.
pub resume_succeeds :
    {p : Pool} (i f : ℕ)
    → Reach p
    → IsResuming p i f
    → (m : Machine) × (resume (view p i) f ≡ done m)
      × (m.this ≡ some f)
      × (m.stack ≡ stack_of f)
      × ((m.fibers f).state ≡ running)
resume_succeeds {p} i f r at =
    let ((there, stacked, fit), k, resumed) = resumed_known i f (Reach-IsPool r) at in
    (resumed_to (view p i) f k.sched, resumed, refl, ground (arith, stacked), ground arith)

-- In every state of a pool, the thread that made the Scheduler can resume m_schedulerFiber in
-- stop(), and then is in it, on its own stack.
pub enter_succeeds :
    {p : Pool} (i s : ℕ)
    → Reach p
    → p.root ≡ some (i, s)
    → p.places i ≡ apart
    → (m : Machine) × (resume (view p i) s ≡ done m)
      × (m.this ≡ some s)
      × (m.stack ≡ stack_of s)
      × ((m.fibers s).state ≡ running)
enter_succeeds {p} i s r e at =
    let v = Reach-IsPool r in
    let (k, resumed) = resume_apart i s v e at in
    (
      resumed_to (view p i) s k.main,
      resumed,
      refl,
      ground (arith, (v.root i s e).stacked),
      ground arith,
    )

yielded :
    {p : Pool} (i f : ℕ)
    → IsPool p
    → IsIn p i f
    → (k : HasCore p i (inside f) (p.cores i)) × (yield (view p i) f
        ≡ done (yielded_to (view p i) f ready (p.fibers f).cb k.sched))
      × (finish (view p i) f ≡ done (yielded_to (view p i) f term none k.sched))
yielded i f v (inl at) = yield_inside i f v at
yielded i f v (inr (at, own)) = yield_idling i f v at own

-- In every state of a pool, with or without the thread that made the Scheduler, whose threads take
-- tasks, lock, test, resume, yield, finish, unlock and rest, make fibers, and schedule functions and
-- fibers with a stack, in any order, where with the thread that made the Scheduler only fibers that
-- return to the scheduling fiber (m_runInScheduler) are scheduled: a thread that is in the fiber of
-- its task, or in its idle fiber, can yield and can end the fiber's function. Either way it goes on
-- in its scheduling fiber, on that fiber's stack, and leaves the fiber ready or over.
pub yield_succeeds :
    {p : Pool} (i f : ℕ)
    → Reach p
    → IsIn p i f
    → (c : ℕ) × (m m' : Machine) × ((p.cores i).scheduler_fiber ≡ some c)
      × (yield (view p i) f ≡ done m)
      × (m.this ≡ some c)
      × (m.stack ≡ home_of p.fibers c)
      × ((m.fibers f).state ≡ ready)
      × (finish (view p i) f ≡ done m')
      × (m'.this ≡ some c)
      × (m'.stack ≡ home_of p.fibers c)
      × ((m'.fibers f).state ≡ term)
yield_succeeds {p} i f r at =
    let (k, y, d) = yielded i f (Reach-IsPool r) at in
    (
      k.sched,
      yielded_to (view p i) f ready (p.fibers f).cb k.sched,
      yielded_to (view p i) f term none k.sched,
      ground (arith, k.core),
      y,
      refl,
      refl,
      ground arith,
      d,
      refl,
      refl,
      ground arith,
    )

allowed_running : (w : Place) (f : ℕ) → holds w ≡ some f → allowed w running ≡ true → w ≡ inside f
allowed_running apart f h a = cc
allowed_running starting f h a = cc
allowed_running resting f h a = cc
allowed_running idling f h a = cc
allowed_running ended f h a = cc
allowed_running looking f h a = cc
allowed_running (locking g) f h a = cc
allowed_running (holding g) f h a = cc
allowed_running (entering g) f h a = cc
allowed_running (inside g) f h a = cc
allowed_running (leaving g) f h a = cc

idle_running : (w : Place) → allowed_idle w running ≡ true → w ≡ idling
idle_running idling a = refl
idle_running apart a = cc
idle_running starting a = cc
idle_running looking a = cc
idle_running (locking g) a = cc
idle_running (holding g) a = cc
idle_running (entering g) a = cc
idle_running (inside g) a = cc
idle_running (leaving g) a = cc
idle_running resting a = cc
idle_running ended a = cc

-- Who owns a fiber has its lock.
Owns-mutex : {p : Pool} (j f : ℕ) → IsPool p → Owns p j f → p.mutex f ≡ some j
Owns-mutex j f v (inl h) = (v.holder j f h).0
Owns-mutex j f v (inr q) = (v.idle j f q).1

runs-IsIn : {p : Pool} (i f : ℕ) → IsPool p → (p.fibers f).state ≡ running → Owns p i f → IsIn p i f
runs-IsIn {p} i f v s (inl h) = inl (allowed_running (p.places i) f h (rw s at (v.holder i f h).1))
runs-IsIn {p} i f v s (inr q) = inr (idle_running (p.places i) (rw s at (v.idle i f q).2), q)

-- In every state of a pool, with or without the thread that made the Scheduler, whose threads take
-- tasks, lock, test, resume, yield, finish, unlock and rest, make fibers, and schedule functions and
-- fibers with a stack, in any order, where with the thread that made the Scheduler only fibers that
-- return to the scheduling fiber (m_runInScheduler) are scheduled: a fiber with a stack that has the
-- state RUNNING and is not m_schedulerFiber is what one thread is in, as the fiber of its task or as
-- its idle fiber, and that thread alone has locked it or has it as its idle fiber.
pub runs_once :
    {p : Pool} (f : ℕ)
    → Reach p
    → f < p.fresh
    → (p.fibers f).has_stack ≡ true
    → own_root p f ≡ false
    → (p.fibers f).state ≡ running
    → (i : ℕ) × IsIn p i f × ((j : ℕ) → Owns p j f ↔ (j ≡ i))
runs_once {p} f r lt st o s = elim (Option-cases (p.mutex f)) [
  | inl e ↦ absurd (ground (arith, v.free f lt st e o, s))
  | inr (i, e) ↦ (
    i,
    runs-IsIn i f v s (v.held i f e),
    λ j. (
      λ h. ground (arith, Owns-mutex j f v h, e),
      λ q. subst (λ j. Owns p j f) (sym q) (v.held i f e),
    ),
  )
]
  where
    v : IsPool p
    v = Reach-IsPool r
