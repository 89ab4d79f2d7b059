-- ===== src/Fiber/Laws.antt =====
-- code/fiber.cpp: resume(), yield() and reset() together, and a fiber that resumes another.
use tiny_coroutine.Base.{
  ℕ, ◌≡◌, ◌≢◌, ◌<◌, refl, Bool, true, false, Option, none, some, arith, sym, ◌∙◌, ap, ◌&&◌, update,
}
use tiny_coroutine.Callback.{Callback}
use tiny_coroutine.Result.{done, abort}
use tiny_coroutine.Fiber.{
  State, ready, running, term, Machine, reset, resume, yield, finish, target, is_term, is_ready,
  stack_of, write_fiber,
}
use tiny_coroutine.Fiber.Linked.{IsLinked}
use tiny_coroutine.Fiber.Switch.{
  resume_ready, resume_to, resumed_to, resumed_to-IsLinked, yield_running, yielded_to,
  finish_running, other_state, swapcontext-done,
}
use tiny_coroutine.Fiber.Reach.{Reach, Reach-IsLinked, has_target}

-- After calls of a thread that Reach describes, the fiber that runs, where it has a stack, can yield and
-- can end: the
-- call returns to the fiber that it is meant to return to, which is another one, on that fiber's
-- stack, and leaves the one that ran ready, or over and without its function. Nothing else of any
-- fiber changes.
pub yield_returns :
    (m : Machine) (f : ℕ)
    → Reach m
    → m.this ≡ some f
    → (m.fibers f).has_stack ≡ true
    → (c : ℕ) × (target m f ≡ some c)
      × (c ≢ f)
      × (yield m f ≡ done (yielded_to m f ready (m.fibers f).cb c))
      × (finish m f ≡ done (yielded_to m f term none c))
yield_returns m f r h st =
    let v = Reach-IsLinked m r in
    let (c, t) = has_target m f v h in
    (c, t, (v.waits f c h st t).1, yield_running m f c v h st t, finish_running m f c v h st t)

-- After calls of a thread that resume a fiber only from the one that it will return to, let only the
-- running fiber yield or end, and only where it has a stack, and set the scheduling fiber only in
-- the main fiber, to one that returns to the main fiber: a fiber with a stack that is ready and
-- resumed from the one that it will return to runs, on its own stack; when it then yields, the first
-- fiber runs again, on the stack it ran on, and every fiber has the state it had.
pub resume-yield :
    (m : Machine) (f c : ℕ)
    → Reach m
    → f < m.fresh
    → (m.fibers f).has_stack ≡ true
    → (m.fibers f).state ≡ ready
    → target m f ≡ some c
    → m.this ≡ some c
    → (m' m'' : Machine) × (resume m f ≡ done m')
      × (m'.this ≡ some f)
      × (m'.stack ≡ stack_of f)
      × (yield m' f ≡ done m'')
      × (m''.this ≡ some c)
      × (m''.stack ≡ m.stack)
      × ((g : ℕ) → (m''.fibers g).state ≡ (m.fibers g).state)
resume-yield m f c r lt st e t h =
    let v = Reach-IsLinked m r in
    let m' = resumed_to m f c in
    let v' : IsLinked m' = resumed_to-IsLinked m f c v lt e t h in
    let apart : f ≢ c = λ i. other_state e (v.runs f (h ∙ ap some (sym i))) in
    (
      m',
      yielded_to m' f ready (m'.fibers f).cb c,
      resume_ready m f c v lt e t h,
      refl,
      ground (arith, st),
      yield_running m' f c v' refl (ground (arith, st)) (ground (arith, t, apart)),
      refl,
      ground (arith, apart, v.on_stack c h),
      λ g. ground (arith, e, apart),
    )

not_ready : (s : State) → s ≢ ready → is_ready s ≡ false
not_ready ready ne = absurd (ne refl)
not_ready running ne = refl
not_ready term ne = refl

not_over : (b : Bool) (s : State) → s ≢ term → (b && is_term s) ≡ false
not_over true ready ne = refl
not_over true running ne = refl
not_over true term ne = absurd (ne refl)
not_over false s ne = refl

-- resume() on a fiber that is not ready, and reset() on one that is not over, fail their assertion.
pub not_ready_aborts :
    (m : Machine) (f : ℕ) (cb : Option Callback)
    → ((m.fibers f).state ≢ ready → resume m f ≡ abort)
      × ((m.fibers f).state ≢ term → reset m f cb ≡ abort)
unfolding resume reset
not_ready_aborts m f cb =
    (λ ne. rw (not_ready _ ne) refl, λ ne. rw (not_over (m.fibers f).has_stack _ ne) refl)

-- Where a fiber with a stack itself resumes another one that is ready, has a stack and returns to the same
-- fiber as it does: when that one yields, the thread goes on on the stack of the first, but t_fiber
-- says that the fiber they both return to runs.
pub nested_confuses :
    (m : Machine) (f g s : ℕ)
    → IsLinked m
    → m.this ≡ some f
    → (m.fibers f).has_stack ≡ true
    → target m f ≡ some s
    → g < m.fresh
    → (m.fibers g).has_stack ≡ true
    → (m.fibers g).state ≡ ready
    → target m g ≡ some s
    → (m' m'' : Machine) × (resume m g ≡ done m')
      × (yield m' g ≡ done m'')
      × (m''.this ≡ some s)
      × (s ≢ f)
      × (m''.stack ≡ stack_of f)
unfolding yield
nested_confuses m f g s v h st t lt stg e tg =
    let (runs, ne) = v.waits f s h st t in
    let idle : m.this ≢ some g = λ i. other_state e (v.runs g i) in
    let apart : s ≢ g = λ i. other_state e (rw i at runs) in
    let m' = resumed_to m g s in
    let stopped = record (m'.fibers g) { state = ready } in
    let fibers = update m'.fibers g stopped in
    let tg' : target m' g ≡ some s = ground (arith, tg, apart) in
    let going : (m'.fibers g).state ≡ running = ground (arith, apart) in
    (
      m',
      record m' {
        fibers = update fibers g (record (fibers g) { ctx = some m'.stack });
        this = some s;
        stack = stack_of f;
      },
      resume_to m g s e tg apart (v.kept g lt idle),
      rw (going, tg')
          (swapcontext-done (record (write_fiber m' g stopped) { this = some s }) g s (stack_of f)
            (λ i. apart (sym i)) (ground (arith, apart, v.on_stack f h, st))),
      refl,
      ne,
      refl,
    )

-- The same after any calls that Reach describes: a fiber that is resumed from another one than it returns
-- to leaves the thread on a stack that t_fiber does not name.
pub nested_resume_confuses :
    (m : Machine) (f g s : ℕ)
    → Reach m
    → m.this ≡ some f
    → (m.fibers f).has_stack ≡ true
    → target m f ≡ some s
    → g < m.fresh
    → (m.fibers g).has_stack ≡ true
    → (m.fibers g).state ≡ ready
    → target m g ≡ some s
    → (m' m'' : Machine) × (resume m g ≡ done m')
      × (yield m' g ≡ done m'')
      × (m''.this ≡ some s)
      × (s ≢ f)
      × (m''.stack ≡ stack_of f)
nested_resume_confuses m f g s r = nested_confuses m f g s (Reach-IsLinked m r)
