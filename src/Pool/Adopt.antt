-- ===== src/Pool/Adopt.antt =====
-- code/scheduler.cpp: a new fiber comes to a pool, and a thread gets its idle fiber.
use tiny_coroutine.Base.{
  ℕ, suc, ◌+◌, ◌<◌, ◌≡◌, refl, false, none, some, arith, sym, ◌==◌, ◌⊎◌, Bool-cases, Option-cases,
  inl, inr, update, if◌then◌else◌, subst,
}
use tiny_coroutine.Fiber.{ready, running, is_running, stack_of, thread_stack, Fiber}
use tiny_coroutine.Pool.{looking, Pool, IsKnown}
use tiny_coroutine.Pool.Valid.{IsAt, IsPool, Owns, holds, refers-holds}
use tiny_coroutine.Pool.Grow.{AllKnown-grow, Grows, IsAt-grow, IsKnown-grow, core_in}

-- A new fiber comes to the pool.
abbrev pub grown : Pool → Fiber → Pool
grown p x = record p {
  fibers = update p.fibers p.fresh x;
  fresh = suc p.fresh;
  fiber_cnt = p.fiber_cnt + 1;
}

pub grown-Grows : (p : Pool) (x : Fiber) → Grows p (grown p x)
grown-Grows p x = record { root = refl; fibers = λ f lt. ground arith }

pub unlocked : {p : Pool} → IsPool p → p.mutex p.fresh ≡ none
unlocked {p} v = elim (Option-cases (p.mutex p.fresh)) [
  | inl e ↦ e
  | inr (i, e) ↦ absurd (owned i (v.held i p.fresh e))
]
  where
    owned : (i : ℕ) → Owns p i p.fresh → ⊥
    owned i (inl h) = omega (arith, (v.known i p.fresh (refers-holds (p.places i) p.fresh h)).0)
    owned i (inr h) = omega (arith, (v.idle i p.fresh h).0.0)

pub below : {p : Pool} → IsPool p → (i f : ℕ) → holds (p.places i) ≡ some f → f < p.fresh
below {p} v i f h = (v.known i f (refers-holds (p.places i) f h)).0

pub grown-IsPool :
    {p : Pool} (x : Fiber)
    → x.ctx ≡ some (if x.has_stack then stack_of p.fresh else thread_stack)
    → x.state ≡ (if x.has_stack then ready else running)
    → IsPool p
    → IsPool (grown p x)
grown-IsPool {p} x c s v = record {
  own = λ f lt. ground (arith, v.own f);
  mains = λ f lt st. ground (arith, v.mains f);
  holder = λ j g h. ground (arith, v.holder j g h, below v j g h);
  held = λ j g h. v.held j g h;
  separate = v.separate;
  idle = λ j g q.
      let (k, m, a) = v.idle j g q in
      (IsKnown-grow p (grown p x) (some g) (grown-Grows p x) k, m, ground (arith, k, a));
  free = λ g lt st h o. ground (arith, v.free g, o);
  known = λ j g h. IsKnown-grow p (grown p x) (some g) (grown-Grows p x) (v.known j g h);
  tasks = AllKnown-grow p (grown p x) p.sched.tasks (grown-Grows p x) v.tasks;
  core =
      λ j. IsAt-grow p (grown p x) j (p.places j) (p.cores j) v (grown-Grows p x) refl (v.core j);
  root = λ r s e.
      let q = v.root r s e in
      record {
        below = ground (arith, q.below);
        stacked = ground (arith, q.stacked, q.below);
        returns = ground (arith, q.returns, q.below);
        state = ground (arith, q.state, q.below);
      };
}

-- A thread in run() gets its idle fiber.
pub adopt-IsPool :
    {p : Pool} (i f : ℕ)
    → p.places i ≡ looking
    → p.mutex f ≡ none
    → p.idles i ≡ none
    → IsKnown p (some f)
    → is_running (p.fibers f).state ≡ false
    → IsPool p
    → IsPool (record p { mutex = update p.mutex f (some i); idles = update p.idles i (some f) })
adopt-IsPool {p} i f at m new k st v = record {
  own = v.own;
  mains = v.mains;
  holder = λ j g h. ground (arith, v.holder j g h, m);
  held = λ j g h. elim (Bool-cases (f == g)) [
    | inl e ↦ inr (ground (arith, h, e))
    | inr e ↦ kept j g (v.held j g (rw e at h))
  ];
  separate = λ j g h q. ground (arith, v.separate j g h, v.holder j g h, q, m);
  idle = λ j g q. ground (arith, v.idle j g, q, m, k, st, at, new);
  free = λ g lt t h o. ground (arith, v.free g lt t, o);
  known = v.known;
  tasks = v.tasks;
  core = λ j. elim (Bool-cases (i == j)) [
    | inl e ↦
        let same : i ≡ j = ground (arith, e) in
        let q : Pool = record p {
          mutex = update p.mutex f (some i);
          idles = update p.idles i (some f);
        } in
        subst (λ j. IsAt q j (p.places j) (p.cores j)) same
          (subst (λ w. IsAt q i w (p.cores i)) (sym at) (core_in i at v))
    | inr e ↦
        IsAt-grow p
          (record p { mutex = update p.mutex f (some i); idles = update p.idles i (some f) }) j
          (p.places j) (p.cores j) v (record { root = refl; fibers = λ g lt. (lt, refl, refl) })
          (ground (arith, e)) (v.core j)
  ];
  root = v.root;
}
  where
    kept :
        (j g : ℕ)
        → Owns p j g
        → (holds (p.places j) ≡ some g) ⊎ (update p.idles i (some f) j ≡ some g)
    kept j g (inl h) = inl h
    kept j g (inr q) = inr (ground (arith, q, new))
