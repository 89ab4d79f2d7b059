-- ===== src/Pool/Keep.antt =====
-- code/scheduler.cpp: a pool in which one thread moves, takes a lock or adds a fiber.
use tiny_coroutine.Base.{
  ℕ, ◌≡◌, refl, true, false, none, some, List, [], ◌∷◌, ◌++◌, arith, ◌==◌, ◌⊎◌, Bool-cases, inl,
  inr, update, subst,
}
use tiny_coroutine.Scheduler.{ScheduleTask, Scheduler}
use tiny_coroutine.Pool.{
  Place, apart, starting, looking, locking, holding, entering, inside, leaving, resting, idling,
  ended, Pool, Core, move, IsKnown,
}
use tiny_coroutine.Pool.Valid.{
  AllKnown, IsAt, IsPool, IsRoot, Owns, allowed, holds, is_apart, is_idling, refers, refers-holds,
}
use tiny_coroutine.Pool.Grow.{moved}

pub AllKnown-append :
    (p : Pool) (ts us : List ScheduleTask) → AllKnown p ts → AllKnown p us → AllKnown p (ts ++ us)
AllKnown-append p [] us a b = b
AllKnown-append p (t ∷ ts) us (k, a) b = (k, AllKnown-append p ts us a b)

pub AllKnown-split :
    (p : Pool) (ts us : List ScheduleTask) → AllKnown p (ts ++ us) → AllKnown p ts × AllKnown p us
AllKnown-split p [] us a = (tt, a)
AllKnown-split p (t ∷ ts) us (k, a) = let (b, c) = AllKnown-split p ts us a in ((k, b), c)

pub holds-apart : (w : Place) (f : ℕ) → holds w ≡ some f → is_apart w ≡ false
holds-apart apart f h = cc
holds-apart starting f h = refl
holds-apart resting f h = cc
holds-apart idling f h = cc
holds-apart ended f h = cc
holds-apart looking f h = refl
holds-apart (locking g) f h = refl
holds-apart (holding g) f h = refl
holds-apart (entering g) f h = refl
holds-apart (inside g) f h = refl
holds-apart (leaving g) f h = refl

pub holds-idling : (w : Place) (f : ℕ) → holds w ≡ some f → is_idling w ≡ false
holds-idling apart f h = cc
holds-idling starting f h = refl
holds-idling looking f h = refl
holds-idling (locking g) f h = refl
holds-idling (holding g) f h = refl
holds-idling (entering g) f h = refl
holds-idling (inside g) f h = refl
holds-idling (leaving g) f h = refl
holds-idling resting f h = cc
holds-idling idling f h = cc
holds-idling ended f h = cc

-- A thread that moves still owns its idle fiber, and what it had locked if it goes on to hold it.
pub moved-Owns :
    (p : Pool) (i : ℕ) (w : Place) (j g : ℕ)
    → (holds (p.places i) ≡ some g → holds w ≡ some g)
    → Owns p j g
    → (holds (update p.places i w j) ≡ some g) ⊎ (p.idles j ≡ some g)
moved-Owns p i w j g k (inl h) = elim (Bool-cases (i == j)) [
  | inl e ↦
      let same : j ≡ i = ground (arith, e) in
      inl (rw e (k (subst (λ j. holds (p.places j) ≡ some g) same h)))
  | inr e ↦ inl (rw e h)
]
moved-Owns p i w j g k (inr q) = inr q

-- A thread in run() moves within it.
pub moved_root :
    {p : Pool} (i : ℕ) (w : Place)
    → is_apart (p.places i) ≡ false
    → is_apart w ≡ false
    → IsPool p
    → (r s : ℕ) → p.root ≡ some (r, s)
    → IsRoot (move p i w) r s
moved_root i w before after v r s e =
    let q = v.root r s e in
    record {
      below = q.below;
      stacked = q.stacked;
      returns = q.returns;
      state = ground (arith, q.state, before, after);
    }

-- A thread takes the lock of a fiber that no thread has locked.
pub acquire-IsPool :
    {p : Pool} (i f : ℕ) (w : Place)
    → holds (p.places i) ≡ none
    → is_apart (p.places i) ≡ false
    → is_idling (p.places i) ≡ false
    → p.mutex f ≡ none
    → holds w ≡ some f
    → refers w ≡ some f
    → IsKnown p (some f)
    → allowed w (p.fibers f).state ≡ true
    → IsAt p i w (p.cores i)
    → IsPool p
    → IsPool (record (move p i w) { mutex = update p.mutex f (some i) })
acquire-IsPool {p} i f w before run awake m after r k s a v = record {
  own = v.own;
  mains = v.mains;
  holder = λ j g h. ground (arith, v.holder j g);
  held = λ j g h. elim (Bool-cases (f == g)) [
    | inl e ↦ inl (ground (arith, h, e, after))
    | inr e ↦
        moved-Owns p i w j g (λ q. absurd (ground (arith, q, before))) (v.held j g (rw e at h))
  ];
  separate = λ j g h q. ground (arith, v.separate j g, v.idle j g q, h, q, m, after);
  idle = λ j g q. ground (arith, v.idle j g q, m, awake, holds-idling w f after);
  free = λ g lt st h o. ground (arith, v.free g lt st, o);
  known = λ j g h. ground (arith, v.known j g, k);
  tasks = v.tasks;
  core = moved p i w v a;
  root = moved_root i w run (holds-apart w f after) v;
}

-- A thread that keeps its lock moves on.
pub keep-IsPool :
    {p : Pool} (i f : ℕ) (w : Place)
    → holds (p.places i) ≡ some f
    → holds w ≡ some f
    → refers w ≡ some f
    → allowed w (p.fibers f).state ≡ true
    → IsAt p i w (p.cores i)
    → IsPool p
    → IsPool (move p i w)
keep-IsPool {p} i f w before after r s a v = record {
  own = v.own;
  mains = v.mains;
  holder = λ j g h. ground (arith, v.holder j g, v.holder i f before);
  held = λ j g h. moved-Owns p i w j g (λ q. ground (arith, q, before, after)) (v.held j g h);
  separate = λ j g h q. ground (arith, v.separate j g, v.separate i f before, h, q, before, after);
  idle = λ j g q.
      ground (arith, v.idle j g q, holds-idling (p.places i) f before, holds-idling w f after);
  free = v.free;
  known = λ j g h. ground (arith, v.known j g, v.known i f (refers-holds (p.places i) f before));
  tasks = v.tasks;
  core = moved p i w v a;
  root = moved_root i w (holds-apart (p.places i) f before) (holds-apart w f after) v;
}

-- A thread without a lock moves on.
pub walk-IsPool :
    {p : Pool} (i : ℕ) (w : Place) (cores : ℕ → Core)
    → holds (p.places i) ≡ none
    → holds w ≡ none
    → is_apart (p.places i) ≡ false
    → is_apart w ≡ false
    → is_idling (p.places i) ≡ false
    → is_idling w ≡ false
    → ((f : ℕ) → refers w ≡ some f → IsKnown p (some f))
    → ((j : ℕ) → IsAt p j (update p.places i w j) (cores j))
    → IsPool p
    → IsPool (record p { places = update p.places i w; cores = cores })
walk-IsPool {p} i w cores before after run run' awake awake' k c v = record {
  own = v.own;
  mains = v.mains;
  holder = λ j g h. ground (arith, v.holder j g);
  held = λ j g h. moved-Owns p i w j g (λ q. absurd (ground (arith, q, before))) (v.held j g h);
  separate = λ j g h q. ground (arith, v.separate j g, h, q, after);
  idle = λ j g q. ground (arith, v.idle j g q, awake, awake');
  free = v.free;
  known = λ j g h. ground (arith, v.known j g, k g);
  tasks = v.tasks;
  core = c;
  root = moved_root i w run run' v;
}

-- The queue changes, and the counters.
pub requeue-IsPool :
    {p : Pool} (sched : Scheduler)
    → AllKnown p sched.tasks
    → IsPool p
    → IsPool (record p { sched = sched })
requeue-IsPool sched a v = record {
  own = v.own;
  mains = v.mains;
  holder = v.holder;
  held = v.held;
  separate = v.separate;
  idle = v.idle;
  free = v.free;
  known = v.known;
  tasks = a;
  core = v.core;
  root = v.root;
}
