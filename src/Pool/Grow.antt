-- ===== src/Pool/Grow.antt =====
-- code/scheduler.cpp: a pool that gets more fibers, and a thread that moves in it.
use tiny_coroutine.Base.{
  ℕ, ◌<◌, ◌≡◌, refl, false, Option, none, some, List, [], ◌∷◌, arith, ◌∙◌, ap, sym, ◌==◌,
  Bool-cases, inl, inr, update, if◌then◌else◌, subst,
}
use tiny_coroutine.Fiber.{stack_of, thread_stack}
use tiny_coroutine.Scheduler.{ScheduleTask}
use tiny_coroutine.Pool.{
  Place, apart, starting, looking, locking, holding, entering, inside, leaving, resting, idling,
  ended, Pool, Core, IsKnown,
}
use tiny_coroutine.Pool.Valid.{AllKnown, HasCore, IsAt, IsHome, IsMain, IsPool, core_at}

-- A later pool has the fibers of an earlier one.
pub record Grows (p p' : Pool) : Type 0 where
  pub root : p'.root ≡ p.root
  pub fibers :
      (f : ℕ)
      → f < p.fresh
      → (f < p'.fresh)
        × ((p'.fibers f).has_stack ≡ (p.fibers f).has_stack)
        × ((p'.fibers f).run_in_scheduler ≡ (p.fibers f).run_in_scheduler)

pub Grows-refl : (p : Pool) → Grows p p
Grows-refl p = record { root = refl; fibers = λ f lt. (lt, refl, refl) }

pub IsKnown-grow : (p p' : Pool) (o : Option ℕ) → Grows p p' → IsKnown p o → IsKnown p' o
IsKnown-grow p p' none g k = tt
IsKnown-grow p p' (some f) g (lt, st, fit) =
    let (lt', st', run) = g.fibers f lt in (lt', st' ∙ st, ground (arith, g.root, run, fit))

pub AllKnown-grow :
    (p p' : Pool) (ts : List ScheduleTask) → Grows p p' → AllKnown p ts → AllKnown p' ts
AllKnown-grow p p' [] g a = tt
AllKnown-grow p p' (t ∷ ts) g (k, a) = (IsKnown-grow p p' t.fiber g k, AllKnown-grow p p' ts g a)

pub IsMain-grow : (p p' : Pool) (c : ℕ) → Grows p p' → IsMain p c → IsMain p' c
IsMain-grow p p' c g (lt, st) = ((g.fibers c lt).0, (g.fibers c lt).1 ∙ st)

pub IsHome-grow : (p p' : Pool) (i c s : ℕ) → Grows p p' → IsHome p i c s → IsHome p' i c s
IsHome-grow p p' i c s g (inl e) = inl e
IsHome-grow p p' i c s g (inr e) = inr (g.root ∙ e)

pub home_below : {p : Pool} (i c s : ℕ) → IsPool p → IsMain p c → IsHome p i c s → s < p.fresh
home_below i c s v (lt, st) (inl e) = rw e lt
home_below i c s v k (inr e) = (v.root i s e).below

pub HasCore-grow :
    (p p' : Pool) (i : ℕ) (w : Place) (k : Core)
    → IsPool p
    → Grows p p'
    → HasCore p i w k
    → HasCore p' i w k
HasCore-grow p p' i w k v g a = record {
  main = a.main;
  sched = a.sched;
  known = IsMain-grow p p' a.main g a.known;
  home = IsHome-grow p p' i a.main a.sched g a.home;
  core =
      a.core
      ∙ ap (λ b. core_at w a.main a.sched (if b then stack_of a.sched else thread_stack))
          (sym (g.fibers a.sched (home_below i a.main a.sched v a.known a.home)).1);
}

pub IsAt-grow :
    (p p' : Pool) (i : ℕ) (w : Place) (k : Core)
    → IsPool p
    → Grows p p'
    → p'.idles i ≡ p.idles i
    → IsAt p i w k
    → IsAt p' i w k
IsAt-grow p p' i apart k v g s a = record {
  main = a.main;
  sched = a.sched;
  known = IsMain-grow p p' a.main g a.known;
  rooted = g.root ∙ a.rooted;
  unborn = s ∙ a.unborn;
  core = a.core;
}
IsAt-grow p p' i starting k v g s a = (a.0, s ∙ a.1)
IsAt-grow p p' i looking k v g s a = HasCore-grow p p' i looking k v g a
IsAt-grow p p' i (locking f) k v g s a = HasCore-grow p p' i looking k v g a
IsAt-grow p p' i (holding f) k v g s a = HasCore-grow p p' i looking k v g a
IsAt-grow p p' i (entering f) k v g s a = HasCore-grow p p' i looking k v g a
IsAt-grow p p' i (inside f) k v g s a = HasCore-grow p p' i (inside f) k v g a
IsAt-grow p p' i (leaving f) k v g s a = HasCore-grow p p' i looking k v g a
IsAt-grow p p' i resting k v g s a = HasCore-grow p p' i looking k v g a
IsAt-grow p p' i idling k v g s a = record {
  fiber = a.fiber;
  own = s ∙ a.own;
  core = HasCore-grow p p' i (inside a.fiber) k v g a.core;
}
IsAt-grow p p' i ended k v g s a = HasCore-grow p p' i looking k v g a

-- The threads after the thread `i` has moved.
pub moved_core :
    (p p' : Pool) (i : ℕ) (w : Place) (k : Core)
    → IsPool p
    → Grows p p'
    → ((j : ℕ) → (i == j) ≡ false → p'.idles j ≡ p.idles j)
    → IsAt p' i w k
    → (j : ℕ) → IsAt p' j (update p.places i w j) (update p.cores i k j)
moved_core p p' i w k v g s a j = elim (Bool-cases (i == j)) [
  | inl e ↦ let same : i ≡ j = ground (arith, e) in rw e (subst (λ j. IsAt p' j w k) same a)
  | inr e ↦ rw e (IsAt-grow p p' j (p.places j) (p.cores j) v g (s j e) (v.core j))
]

-- The same, where its own variables stay.
pub moved :
    (p : Pool) (i : ℕ) (w : Place)
    → IsPool p
    → IsAt p i w (p.cores i)
    → (j : ℕ) → IsAt p j (update p.places i w j) (p.cores j)
moved p i w v a j =
    subst (IsAt p j (update p.places i w j)) (update-same p.cores i j)
      (moved_core p p i w (p.cores i) v (Grows-refl p) (λ j e. refl) a j)
  where
    update-same : {A : Type 0} (h : ℕ → A) (i j : ℕ) → update h i (h i) j ≡ h j
    update-same h i j = ground arith

pub core_in : {p : Pool} (i : ℕ) {w : Place} → p.places i ≡ w → IsPool p → IsAt p i w (p.cores i)
core_in {p} i at v = subst (λ w. IsAt p i w (p.cores i)) at (v.core i)
