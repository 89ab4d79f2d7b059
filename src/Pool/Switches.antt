-- ===== src/Pool/Switches.antt =====
-- code/scheduler.cpp and code/fiber.cpp: resume(), yield() and the end of a fiber, on the threads of a pool.
use tiny_coroutine.Base.{
  ℕ, ◌≡◌, ◌≢◌, refl, true, false, Option, none, some, if◌then◌else◌, arith, sym, ap, ◌∙◌, subst,
  ◌⊎◌, inl, inr,
}
use tiny_coroutine.Callback.{Callback}
use tiny_coroutine.Result.{Result, done, abort}
use tiny_coroutine.Fiber.{
  State, ready, running, term, is_running, is_ready, Machine, resume, yield, finish,
}
use tiny_coroutine.Fiber.Switch.{
  resume_ready, resumed_to, yield_running, finish_running, yielded_to,
}
use tiny_coroutine.Pool.{looking, entering, inside, leaving, Pool, view, write_back, fits, IsKnown}
use tiny_coroutine.Pool.Views.{is_running-running, other_home, target_home, view_in, view_outside}
use tiny_coroutine.Pool.Valid.{HasCore, IsPool, IsRoot, holds, is_apart, refers}
use tiny_coroutine.Pool.Grow.{AllKnown-grow, Grows, IsKnown-grow, IsMain-grow, core_in, moved_core}
use tiny_coroutine.Pool.Keep.{moved-Owns}

is_ready-ready : (s : State) → is_ready s ≡ true → s ≡ ready
is_ready-ready ready h = refl
is_ready-ready running h = cc
is_ready-ready term h = cc

-- From run() resume() takes the thread to a fiber that is ready, on its own stack.
pub resume_outside :
    {p : Pool} (i f : ℕ)
    → IsPool p
    → is_apart (p.places i) ≡ false
    → IsKnown p (some f)
    → (p.fibers f).state ≡ ready
    → (k : HasCore p i looking (p.cores i))
    → resume (view p i) f ≡ done (resumed_to (view p i) f k.sched)
resume_outside {p} i f v run (there, stacked, fit) state k =
    resume_ready (view p i) f k.sched (view_outside p i v run k) there state
      (target_home p i k.main k.sched f k.home fit (ground (arith, k.core))
        (ground (arith, k.core)))
      (ground (arith, k.core))

-- From a fiber yield() and its end take the thread back to run(), on the stack that run() has there.
pub yield_from :
    {p : Pool} (i f : ℕ)
    → IsPool p
    → is_apart (p.places i) ≡ false
    → IsKnown p (some f)
    → (p.fibers f).state ≡ running
    → (k : HasCore p i (inside f) (p.cores i))
    → (yield (view p i) f ≡ done (yielded_to (view p i) f ready (p.fibers f).cb k.sched))
      × (finish (view p i) f ≡ done (yielded_to (view p i) f term none k.sched))
yield_from {p} i f v run (there, stacked, fit) state k =
    let linked = view_in p i f v run (there, stacked, fit) state k in
    let t =
      target_home p i k.main k.sched f k.home fit (ground (arith, k.core))
        (ground (arith, k.core)) in
    (
      yield_running (view p i) f k.sched linked (ground (arith, k.core)) stacked t,
      finish_running (view p i) f k.sched linked (ground (arith, k.core)) stacked t,
    )

-- Behind the test, resume() succeeds.
pub resume_entering :
    {p : Pool} (i f : ℕ)
    → IsPool p
    → p.places i ≡ entering f
    → (k : HasCore p i looking (p.cores i)) × (resume (view p i) f
        ≡ done (resumed_to (view p i) f k.sched))
resume_entering {p} i f v at =
    let s : is_ready (p.fibers f).state ≡ true = rw at at (v.holder i f (ap holds at)).1 in
    let k = core_in i at v in
    (k, resume_outside i f v (ap is_apart at) (v.known i f (ap refers at)) (is_ready-ready _ s) k)

-- In a fiber, yield() succeeds, and its end does.
pub yield_inside :
    {p : Pool} (i f : ℕ)
    → IsPool p
    → p.places i ≡ inside f
    → (k : HasCore p i (inside f) (p.cores i)) × (yield (view p i) f
        ≡ done (yielded_to (view p i) f ready (p.fibers f).cb k.sched))
      × (finish (view p i) f ≡ done (yielded_to (view p i) f term none k.sched))
yield_inside {p} i f v at =
    let s : is_running (p.fibers f).state ≡ true = rw at at (v.holder i f (ap holds at)).1 in
    let k = core_in i at v in
    let (y, d) =
      yield_from i f v (ap is_apart at) (v.known i f (ap refers at)) (is_running-running _ s) k in
    (k, y, d)

-- m_schedulerFiber is none of the fibers of tasks.
pub other_root : (p : Pool) (r s f : ℕ) → p.root ≡ some (r, s) → fits p f ≡ true → s ≢ f
other_root p r s f e h q = absurd (ground (arith, e, h, q))

pub kept-IsRoot :
    {p q : Pool} (r s : ℕ)
    → IsRoot p r s
    → Grows p q
    → (q.fibers s).state ≡ (p.fibers s).state
    → is_apart (q.places r) ≡ is_apart (p.places r)
    → IsRoot q r s
kept-IsRoot r s v g state place =
    let (below, stacked, returns) = g.fibers s v.below in
    record {
      below = below;
      stacked = stacked ∙ v.stacked;
      returns = returns ∙ v.returns;
      state = state ∙ v.state ∙ ap (λ b. if b then ready else running) (sym place);
    }

resumed-IsPool :
    {p : Pool} (i f : ℕ)
    → IsPool p
    → p.places i ≡ entering f
    → (k : HasCore p i looking (p.cores i))
    → IsPool (write_back p i (resumed_to (view p i) f k.sched) (inside f))
resumed-IsPool {p} i f v at k =
    let (there, stacked, fit) = v.known i f (ap refers at) in
    let (m, s) = v.holder i f (ap holds at) in
    let q = write_back p i (resumed_to (view p i) f k.sched) (inside f) in
    let grows : Grows p q = record { root = refl; fibers = λ g h. ground arith } in
    let apart = other_home p i k.main k.sched f k.known k.home stacked fit in
    record {
      own = λ g h. ground (arith, v.own g, k.core, apart);
      mains = λ g h st. ground (arith, v.mains g, stacked);
      holder = λ j g h. ground (arith, v.holder j g, v.known j g, m, stacked);
      held = λ j g h. moved-Owns p i (inside f) j g (λ q. ground (arith, q, at)) (v.held j g h);
      separate = λ j g h q. ground (arith, v.separate j g, h, q, at);
      idle = λ j g h.
          let (known, owned, state) = v.idle j g h in
          (
            IsKnown-grow p q (some g) grows known,
            owned,
            ground (arith, known, owned, state, v.separate i f (ap holds at), h, m, at, apart),
          );
      free = λ g h st n o. ground (arith, v.free g, m, o);
      known = λ j g h.
          IsKnown-grow p q (some g) grows (ground (arith, v.known j g, there, stacked, fit));
      tasks = AllKnown-grow p q p.sched.tasks grows v.tasks;
      core =
          moved_core p q i (inside f) _ v grows (λ j e. refl)
            (record {
              main = k.main;
              sched = k.sched;
              known = IsMain-grow p q k.main grows k.known;
              home = k.home;
              core = ground (arith, k.core, stacked);
            });
      root = λ r s e.
          kept-IsRoot r s (v.root r s e) grows (ground (arith, other_root p r s f e fit))
            (ground (arith, at));
    }

yielded-IsPool :
    {p : Pool} (i f : ℕ) (s : State) (cb : Option Callback)
    → is_running s ≡ false
    → IsPool p
    → p.places i ≡ inside f
    → (k : HasCore p i (inside f) (p.cores i))
    → IsPool (write_back p i (yielded_to (view p i) f s cb k.sched) (leaving f))
yielded-IsPool {p} i f s cb r v at k =
    let (there, stacked, fit) = v.known i f (ap refers at) in
    let (m, _) = v.holder i f (ap holds at) in
    let q = write_back p i (yielded_to (view p i) f s cb k.sched) (leaving f) in
    let grows : Grows p q = record { root = refl; fibers = λ g h. ground arith } in
    let apart = other_home p i k.main k.sched f k.known k.home stacked fit in
    record {
      own = λ g h. ground (arith, v.own g, k.core, stacked);
      mains = λ g h st. ground (arith, v.mains g, stacked);
      holder = λ j g h. ground (arith, v.holder j g, v.known j g, m, stacked, r);
      held = λ j g h. moved-Owns p i (leaving f) j g (λ q. ground (arith, q, at)) (v.held j g h);
      separate = λ j g h q. ground (arith, v.separate j g, h, q, at);
      idle = λ j g h.
          let (known, owned, state) = v.idle j g h in
          (
            IsKnown-grow p q (some g) grows known,
            owned,
            ground (arith, known, owned, state, v.separate i f (ap holds at), h, m, at, apart),
          );
      free = λ g h st n o. ground (arith, v.free g, m, o);
      known = λ j g h.
          IsKnown-grow p q (some g) grows (ground (arith, v.known j g, there, stacked, fit));
      tasks = AllKnown-grow p q p.sched.tasks grows v.tasks;
      core =
          moved_core p q i (leaving f) _ v grows (λ j e. refl)
            (record {
              main = k.main;
              sched = k.sched;
              known = IsMain-grow p q k.main grows k.known;
              home = k.home;
              core = ground (arith, k.core, apart);
            });
      root = λ r s e.
          kept-IsRoot r s (v.root r s e) grows (ground (arith, other_root p r s f e fit))
            (ground (arith, at));
    }

pub done-injective : {A : Type 0} {a b : A} → done a ≡ done b → a ≡ b
done-injective {a} e = ap (unwrap a) e
  where
    unwrap : {A : Type 0} → A → Result A → A
    unwrap a (done x) = x
    unwrap a abort = a

pub resume-IsPool :
    {p : Pool} (i f : ℕ) (m : Machine)
    → p.places i ≡ entering f
    → resume (view p i) f ≡ done m
    → IsPool p
    → IsPool (write_back p i m (inside f))
resume-IsPool {p} i f m at r v =
    let (k, r') = resume_entering i f v at in
    subst (λ m. IsPool (write_back p i m (inside f))) (done-injective (sym r' ∙ r))
      (resumed-IsPool i f v at k)

pub yield-IsPool :
    {p : Pool} (i f : ℕ) (m : Machine)
    → p.places i ≡ inside f
    → (yield (view p i) f ≡ done m) ⊎ (finish (view p i) f ≡ done m)
    → IsPool p
    → IsPool (write_back p i m (leaving f))
yield-IsPool {p} i f m at (inl r) v =
    let (k, r', _) = yield_inside i f v at in
    subst (λ m. IsPool (write_back p i m (leaving f))) (done-injective (sym r' ∙ r))
      (yielded-IsPool i f ready (p.fibers f).cb refl v at k)
yield-IsPool {p} i f m at (inr r) v =
    let (k, _, r') = yield_inside i f v at in
    subst (λ m. IsPool (write_back p i m (leaving f))) (done-injective (sym r' ∙ r))
      (yielded-IsPool i f term none refl v at k)
