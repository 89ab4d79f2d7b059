-- ===== src/Pool/Stray.antt =====
-- code/scheduler.cpp and code/fiber.cpp: a fiber in the pool that does not return to the scheduling fiber.
use tiny_coroutine.Base.{ℕ, ◌<◌, ◌≡◌, ◌≢◌, true, false, some, arith, ap}
use tiny_coroutine.Result.{done}
use tiny_coroutine.Fiber.{ready, stack_of, Machine, resume, yield}
use tiny_coroutine.Fiber.Laws.{nested_confuses}
use tiny_coroutine.Pool.{looking, Pool, view, Reach}
use tiny_coroutine.Pool.Grow.{core_in}
use tiny_coroutine.Pool.Invariant.{Reach-IsPool}
use tiny_coroutine.Pool.Valid.{is_apart}
use tiny_coroutine.Pool.Views.{view_outside}

-- In run() on the thread that made the Scheduler, a fiber that is ready and returns to the main fiber can
-- be resumed and can yield, but the thread is then on the stack of m_schedulerFiber, in run(), while
-- its t_fiber points to the main fiber.
pub stray_confuses :
    {p : Pool} (i s f : ℕ)
    → Reach p
    → p.root ≡ some (i, s)
    → p.places i ≡ looking
    → (p.cores i).this ≡ some s
    → f < p.fresh
    → (p.fibers f).has_stack ≡ true
    → (p.fibers f).run_in_scheduler ≡ false
    → (p.fibers f).state ≡ ready
    → (c : ℕ) × (m' m'' : Machine) × ((p.cores i).thread_fiber ≡ some c)
      × (resume (view p i) f ≡ done m')
      × (yield m' f ≡ done m'')
      × (m''.this ≡ some c)
      × (c ≢ s)
      × (m''.stack ≡ stack_of s)
stray_confuses {p} i s f r e at here lt st stray going =
    let v = Reach-IsPool r in
    let k = core_in i at v in
    let root = v.root i s e in
    let (m', m'', resumed, yielded, this, apart, stack) =
      nested_confuses (view p i) s f k.main (view_outside p i v (ap is_apart at) k) here
        root.stacked (ground (arith, root.returns, k.core)) lt st going
        (ground (arith, stray, k.core)) in
    (k.main, m', m'', ground (arith, k.core), resumed, yielded, this, apart, stack)
