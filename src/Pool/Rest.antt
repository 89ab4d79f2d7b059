-- ===== src/Pool/Rest.antt =====
-- code/scheduler.cpp and code/fiber.cpp: the idle fibers of a pool.
use tiny_coroutine.Base.{
  ℕ, ◌≡◌, refl, true, false, not, Option, none, some, arith, sym, ap, ◌∙◌, subst, ◌⊎◌, inl, inr,
}
use tiny_coroutine.Callback.{Callback}
use tiny_coroutine.Result.{done}
use tiny_coroutine.Fiber.{
  State, ready, running, term, is_running, is_term, Machine, resume, yield, finish,
}
use tiny_coroutine.Fiber.Switch.{resumed_to, yielded_to}
use tiny_coroutine.Pool.{
  looking, inside, Pool, view, write_back, resting, idling, ended, move, enter_rest, leave_rest,
}
use tiny_coroutine.Pool.Views.{is_running-running, other_home}
use tiny_coroutine.Pool.Valid.{HasCore, IsPool, holds, is_apart, is_idling}
use tiny_coroutine.Pool.Switches.{
  done-injective, kept-IsRoot, other_root, resume_outside, yield_from,
}
use tiny_coroutine.Pool.Grow.{
  AllKnown-grow, Grows, IsKnown-grow, IsMain-grow, core_in, moved, moved_core,
}
use tiny_coroutine.Pool.Keep.{moved-Owns, requeue-IsPool, walk-IsPool}

-- The idle fiber of a thread that rests is ready, if it is not over.
rested : (s : State) → not (is_running s) ≡ true → is_term s ≡ false → s ≡ ready
rested ready h n = refl
rested running h n = cc
rested term h n = cc

pub resume-resting :
    {p : Pool} (i f : ℕ)
    → IsPool p
    → p.places i ≡ resting
    → p.idles i ≡ some f
    → is_term (p.fibers f).state ≡ false
    → (k : HasCore p i looking (p.cores i)) × (resume (view p i) f
        ≡ done (resumed_to (view p i) f k.sched))
resume-resting {p} i f v at own alive =
    let (known, owned, state) = v.idle i f own in
    let k = core_in i at v in
    (k, resume_outside i f v (ap is_apart at) known (rested _ (rw at at state) alive) k)

pub yield_idling :
    {p : Pool} (i f : ℕ)
    → IsPool p
    → p.places i ≡ idling
    → p.idles i ≡ some f
    → (k : HasCore p i (inside f) (p.cores i)) × (yield (view p i) f
        ≡ done (yielded_to (view p i) f ready (p.fibers f).cb k.sched))
      × (finish (view p i) f ≡ done (yielded_to (view p i) f term none k.sched))
yield_idling {p} i f v at own =
    let (known, owned, state) = v.idle i f own in
    let c = core_in i at v in
    let k : HasCore p i (inside f) (p.cores i) =
      subst (λ g. HasCore p i (inside g) (p.cores i)) (same_fiber c.own own) c.core in
    let (y, d) =
      yield_from i f v (ap is_apart at) known (is_running-running _ (rw at at state)) k in
    (k, y, d)
  where
    same_fiber : {o : Option ℕ} {a b : ℕ} → o ≡ some a → o ≡ some b → a ≡ b
    same_fiber p q = cc

rested-IsPool :
    {p : Pool} (i f : ℕ)
    → IsPool p
    → p.places i ≡ resting
    → p.idles i ≡ some f
    → (k : HasCore p i looking (p.cores i))
    → IsPool (write_back p i (resumed_to (view p i) f k.sched) idling)
rested-IsPool {p} i f v at own k =
    let ((there, stacked, fit), owned, state) = v.idle i f own in
    let q = write_back p i (resumed_to (view p i) f k.sched) idling in
    let grows : Grows p q = record { root = refl; fibers = λ g h. ground arith } in
    let apart = other_home p i k.main k.sched f k.known k.home stacked fit in
    record {
      own = λ g h. ground (arith, v.own g, k.core, apart);
      mains = λ g h st. ground (arith, v.mains g, stacked);
      holder = λ j g h. ground (arith, v.holder j g, v.separate j g, h, owned, own, at);
      held =
          λ j g h. moved-Owns p i idling j g (λ q. absurd (ground (arith, q, at))) (v.held j g h);
      separate = λ j g h q. ground (arith, v.separate j g, h, q, at);
      idle = λ j g h.
          let (known', owned', state') = v.idle j g h in
          (
            IsKnown-grow p q (some g) grows known',
            owned',
            ground (arith, state', h, owned, owned', own, at, apart),
          );
      free = λ g h st n o. ground (arith, v.free g, owned, o);
      known = λ j g h. IsKnown-grow p q (some g) grows (ground (arith, v.known j g, h));
      tasks = AllKnown-grow p q p.sched.tasks grows v.tasks;
      core =
          moved_core p q i idling _ v grows (λ j e. refl)
            (record {
              fiber = f;
              own = own;
              core = record {
                main = k.main;
                sched = k.sched;
                known = IsMain-grow p q k.main grows k.known;
                home = k.home;
                core = ground (arith, k.core, stacked);
              };
            });
      root = λ r s e.
          kept-IsRoot r s (v.root r s e) grows (ground (arith, other_root p r s f e fit))
            (ground (arith, at));
    }

woken-IsPool :
    {p : Pool} (i f : ℕ) (s : State) (cb : Option Callback)
    → is_running s ≡ false
    → IsPool p
    → p.places i ≡ idling
    → p.idles i ≡ some f
    → (k : HasCore p i (inside f) (p.cores i))
    → IsPool (write_back p i (yielded_to (view p i) f s cb k.sched) looking)
woken-IsPool {p} i f s cb r v at own k =
    let ((there, stacked, fit), owned, state) = v.idle i f own in
    let q = write_back p i (yielded_to (view p i) f s cb k.sched) looking in
    let grows : Grows p q = record { root = refl; fibers = λ g h. ground arith } in
    let apart = other_home p i k.main k.sched f k.known k.home stacked fit in
    record {
      own = λ g h. ground (arith, v.own g, k.core, stacked);
      mains = λ g h st. ground (arith, v.mains g, stacked);
      holder = λ j g h. ground (arith, v.holder j g, v.separate j g, h, owned, own, at);
      held =
          λ j g h. moved-Owns p i looking j g (λ q. absurd (ground (arith, q, at))) (v.held j g h);
      separate = λ j g h q. ground (arith, v.separate j g, h, q, at);
      idle = λ j g h.
          let (known', owned', state') = v.idle j g h in
          (
            IsKnown-grow p q (some g) grows known',
            owned',
            ground (arith, state', h, owned, owned', own, at, apart, r),
          );
      free = λ g h st n o. ground (arith, v.free g, owned, o);
      known = λ j g h. IsKnown-grow p q (some g) grows (ground (arith, v.known j g, h));
      tasks = AllKnown-grow p q p.sched.tasks grows v.tasks;
      core =
          moved_core p q i looking _ v grows (λ j e. refl)
            (record {
              main = k.main;
              sched = k.sched;
              known = IsMain-grow p q k.main grows k.known;
              home = k.home;
              core = ground (arith, k.core, apart);
            });
      root = λ r s e.
          kept-IsRoot r s (v.root r s e) grows (ground (arith, other_root p r s f e fit))
            (ground (arith, at));
    }

pub ends-IsPool : {p : Pool} (i : ℕ) → p.places i ≡ resting → IsPool p → IsPool (move p i ended)
ends-IsPool {p} i at v =
    walk-IsPool i ended p.cores (ap holds at) refl (ap is_apart at) refl (ap is_idling at) refl
      (λ g h. cc) (moved p i ended v (core_in i at v)) v

pub rests-IsPool :
    {p : Pool} (i f : ℕ) (m : Machine)
    → p.places i ≡ resting
    → p.idles i ≡ some f
    → is_term (p.fibers f).state ≡ false
    → resume (view p i) f ≡ done m
    → IsPool p
    → IsPool (enter_rest (write_back p i m idling))
rests-IsPool {p} i f m at own alive r v =
    let (k, r') = resume-resting i f v at own alive in
    let w : IsPool (write_back p i m idling) =
      subst (λ m. IsPool (write_back p i m idling)) (done-injective (sym r' ∙ r))
        (rested-IsPool i f v at own k) in
    requeue-IsPool _ w.tasks w

pub wakes-IsPool :
    {p : Pool} (i f : ℕ) (m : Machine)
    → p.places i ≡ idling
    → p.idles i ≡ some f
    → (yield (view p i) f ≡ done m) ⊎ (finish (view p i) f ≡ done m)
    → IsPool p
    → IsPool (leave_rest (write_back p i m looking))
wakes-IsPool {p} i f m at own back v =
    let (k, y, d) = yield_idling i f v at own in
    let w : IsPool (write_back p i m looking) = woken back k y d in requeue-IsPool _ w.tasks w
  where
    woken :
        (yield (view p i) f ≡ done m) ⊎ (finish (view p i) f ≡ done m)
        → (k : HasCore p i (inside f) (p.cores i))
        → yield (view p i) f ≡ done (yielded_to (view p i) f ready (p.fibers f).cb k.sched)
        → finish (view p i) f ≡ done (yielded_to (view p i) f term none k.sched)
        → IsPool (write_back p i m looking)
    woken (inl r) k y d =
        subst (λ m. IsPool (write_back p i m looking)) (done-injective (sym y ∙ r))
          (woken-IsPool i f ready (p.fibers f).cb refl v at own k)
    woken (inr r) k y d =
        subst (λ m. IsPool (write_back p i m looking)) (done-injective (sym d ∙ r))
          (woken-IsPool i f term none refl v at own k)
