-- ===== src/Pool/Enter.antt =====
-- code/scheduler.cpp: the thread that made a Scheduler enters run() in stop().
use tiny_coroutine.Base.{ℕ, ◌≡◌, ◌≢◌, refl, true, false, Option, some, arith, sym, ◌∙◌, subst, inr}
use tiny_coroutine.Callback.{Callback}
use tiny_coroutine.Result.{done}
use tiny_coroutine.Fiber.{ready, Machine, resume}
use tiny_coroutine.Fiber.Linked.{IsLinked}
use tiny_coroutine.Fiber.Switch.{resume_ready, resumed_to}
use tiny_coroutine.Pool.{apart, looking, Pool, view, write_back, fits, with_idle}
use tiny_coroutine.Pool.Valid.{IsApart, IsPool, own_root}
use tiny_coroutine.Pool.Switches.{done-injective, other_root}
use tiny_coroutine.Pool.Grow.{AllKnown-grow, Grows, IsKnown-grow, IsMain-grow, core_in, moved_core}
use tiny_coroutine.Pool.Keep.{moved-Owns}
use tiny_coroutine.Pool.Moves.{with_idle-IsPool}

-- The creating thread enters run(): m_schedulerFiber is resumed from the main fiber.
pub resume_apart :
    {p : Pool} (i s : ℕ)
    → IsPool p
    → p.root ≡ some (i, s)
    → p.places i ≡ apart
    → (k : IsApart p i (p.cores i)) × (resume (view p i) s ≡ done (resumed_to (view p i) s k.main))
resume_apart {p} i s v e at =
    let k = core_in i at v in
    let r = v.root i s e in
    let state : (p.fibers s).state ≡ ready = ground (arith, r.state, at) in
    let linked : IsLinked (view p i) = record {
      on_stack = λ f q. ground (arith, k.core, k.known);
      known = λ f q. ground (arith, k.core, k.known);
      runs = λ f q. ground (arith, k.core, k.known, v.mains k.main);
      kept = λ f q ne. v.own f q;
      main = λ t q. ground (arith, k.core, k.known, v.mains k.main);
      scheduling = λ t q. ground (arith, k.core, k.rooted, e, r.below, r.returns);
      waits = λ f d q q' t. absurd (ground (arith, k.core, k.known, q, q'));
      outside = λ q. ground (arith, k.core);
      inside = λ f q. ground (arith, k.core);
    } in
    (
      k,
      resume_ready (view p i) s k.main linked r.below state (ground (arith, k.core, r.returns))
          (ground (arith, k.core)),
    )

not_own : (p : Pool) (r s f : ℕ) → p.root ≡ some (r, s) → own_root p f ≡ false → s ≢ f
not_own p r s f e h q = absurd (ground (arith, e, h, q))

pub same_root :
    {o : Option (ℕ × ℕ)} (i s j t : ℕ) → o ≡ some (i, s) → o ≡ some (j, t) → (j ≡ i) × (t ≡ s)
same_root i s j t p q = (cc, cc)

entered-IsPool :
    {p : Pool} (i s : ℕ)
    → IsPool p
    → p.root ≡ some (i, s)
    → p.places i ≡ apart
    → (k : IsApart p i (p.cores i))
    → IsPool (write_back p i (resumed_to (view p i) s k.main) looking)
entered-IsPool {p} i s v e at k =
    let r = v.root i s e in
    let q = write_back p i (resumed_to (view p i) s k.main) looking in
    let grows : Grows p q = record { root = refl; fibers = λ g h. ground arith } in
    let fresh_of : (g : ℕ) → fits p g ≡ true → s ≢ g = λ g h. other_root p i s g e h in
    let free_of : (g : ℕ) → own_root p g ≡ false → s ≢ g = λ g h. not_own p i s g e h in
    record {
      own = λ g h. ground (arith, v.own g, k.core, r.stacked, k.known);
      mains = λ g h st. ground (arith, v.mains g, r.stacked);
      holder = λ j g h. ground (arith, v.holder j g, v.known j g, fresh_of g, at, k.known);
      held =
          λ j g h. moved-Owns p i looking j g (λ q. absurd (ground (arith, q, at))) (v.held j g h);
      separate = λ j g h q. ground (arith, v.separate j g, h, q, at);
      idle = λ j g h.
          let (known, owned, state) = v.idle j g h in
          (
            IsKnown-grow p q (some g) grows known,
            owned,
            ground (arith, known, owned, state, fresh_of g, at, k.known),
          );
      free = λ g h st n o. ground (arith, v.free g, free_of g, o);
      known = λ j g h. IsKnown-grow p q (some g) grows (ground (arith, v.known j g));
      tasks = AllKnown-grow p q p.sched.tasks grows v.tasks;
      core =
          moved_core p q i looking _ v grows (λ j e. refl)
            (record {
              main = k.main;
              sched = s;
              known = IsMain-grow p q k.main grows k.known;
              home = inr e;
              core = ground (arith, k.core, k.rooted, e, r.stacked);
            });
      root = λ j t h.
          let (pj, pt) = same_root i s j t e h in
          rw (pj, pt)
            (record {
              below = r.below;
              stacked = ground (arith, r.stacked);
              returns = ground (arith, r.returns);
              state = ground (arith, k.known, r.stacked);
            });
    }

pub enter-IsPool :
    {p : Pool} (i s : ℕ) (m : Machine) (idle : Callback)
    → p.root ≡ some (i, s)
    → p.places i ≡ apart
    → resume (view p i) s ≡ done m
    → IsPool p
    → IsPool (with_idle (write_back p i m looking) i idle)
enter-IsPool {p} i s m idle e at r v =
    let (k, r') = resume_apart i s v e at in
    with_idle-IsPool i idle (ground arith) k.unborn (
      subst (λ m. IsPool (write_back p i m looking)) (done-injective (sym r' ∙ r))
        (entered-IsPool i s v e at k))
