-- ===== src/Pool/Invariant.antt =====
-- code/scheduler.cpp: the invariant of a pool holds in every state that it comes to.
use tiny_coroutine.Base.{
  ℕ, zero, suc, ◌≡◌, refl, Bool, true, false, some, arith, ap, inl, inr, Bool-cases, ◌==◌,
}
use tiny_coroutine.Callback.{Callback}
use tiny_coroutine.Fiber.{get_this, main_fiber, new_fiber}
use tiny_coroutine.Scheduler.{Scheduler, new_scheduler}
use tiny_coroutine.Pool.{
  ends, rests, wakes, idle_ends, Pool, Step, begins, enters, makes, schedules, takes, locks, tests,
  resumes, yields, finishes, unlocks, start_pool, Reach, starts, starts_root, root_pool, steps,
  IsProper,
}
use tiny_coroutine.Pool.Moves.{
  begin-IsPool, lock-IsPool, make-IsPool, schedule-IsPool, take-IsPool, test-IsPool, unlock-IsPool,
}
use tiny_coroutine.Pool.Rest.{ends-IsPool, rests-IsPool, wakes-IsPool}
use tiny_coroutine.Pool.Enter.{enter-IsPool, same_root}
use tiny_coroutine.Pool.Valid.{IsPool}
use tiny_coroutine.Pool.Switches.{resume-IsPool, yield-IsPool}

Step-IsPool : {p p' : Pool} (s : Step p p') → IsProper s → IsPool p → IsPool p'
Step-IsPool (begins i garbage idle at) h v = begin-IsPool i garbage idle at v
Step-IsPool (enters i s m idle e at r) h v = enter-IsPool i s m idle e at r v
Step-IsPool (makes i cb n r) h v = make-IsPool i cb n r v
Step-IsPool (schedules t _) h v = schedule-IsPool t h v
Step-IsPool (takes i at) h v = take-IsPool i at v
Step-IsPool (locks i f at m) h v = lock-IsPool i f at m v
Step-IsPool (tests i f at) h v = test-IsPool i f at v
Step-IsPool (resumes i f m at r) h v = resume-IsPool i f m at r v
Step-IsPool (yields i f m at r) h v = yield-IsPool i f m at (inl r) v
Step-IsPool (finishes i f m at r) h v = yield-IsPool i f m at (inr r) v
Step-IsPool (ends i f at own over) h v = ends-IsPool i at v
Step-IsPool (rests i f m at own alive r) h v = rests-IsPool i f m at own alive r v
Step-IsPool (wakes i f m at own r) h v = wakes-IsPool i f m at own (inl r) v
Step-IsPool (idle_ends i f m at own r) h v = wakes-IsPool i f m at own (inr r) v
Step-IsPool (unlocks i f at) h v = unlock-IsPool i f at v

start-IsPool :
    (threads caller : ℕ) (sched : Scheduler)
    → new_scheduler threads false caller ≡ some sched
    → IsPool (start_pool sched)
unfolding new_scheduler
start-IsPool zero caller sched h = cc
start-IsPool (suc n) caller sched h = record {
  own = λ f lt. absurd (omega (arith, lt));
  mains = λ f lt. absurd (omega (arith, lt));
  holder = λ i f e. cc;
  held = λ i f e. cc;
  separate = λ i f e q. cc;
  idle = λ i f q. cc;
  free = λ f lt. absurd (omega (arith, lt));
  known = λ i f e. cc;
  tasks = ground (arith, h);
  core = λ i. (refl, refl);
  root = λ r s e. cc;
}

start_root-IsPool :
    (threads caller : ℕ) (sched : Scheduler) (garbage : Bool) (run : Callback)
    → new_scheduler threads true caller ≡ some sched
    → IsPool (root_pool sched caller garbage run)
unfolding new_scheduler get_this main_fiber new_fiber
start_root-IsPool zero caller sched garbage run h = cc
start_root-IsPool (suc n) caller sched garbage run h = record {
  own = λ f lt. ground (arith, lt);
  mains = λ f lt st. ground (arith, lt, st);
  holder = λ i f e. absurd (ground (arith, e));
  held = λ i f e. cc;
  separate = λ i f e q. cc;
  idle = λ i f q. cc;
  free = λ f lt st e o. ground (arith, lt, st, o);
  known = λ i f e. absurd (ground (arith, e));
  tasks = ground (arith, h);
  core = λ i. elim (Bool-cases (caller == i)) [
    | inl e ↦
        let same : caller ≡ i = ground (arith, e) in
        rw e (record {
          main = 0;
          sched = 1;
          known = (omega arith, refl);
          rooted = ap (λ j. some (j, 1)) same;
          unborn = refl;
          core = refl;
        })
    | inr e ↦ rw e (refl, refl)
  ];
  root = λ r s e.
      let (p, q) = same_root caller 1 r s refl e in
      rw (p, q)
        (record { below = omega arith; stacked = refl; returns = refl; state = ground arith });
}

-- Every state that the pool comes to meets its invariant.
pub Reach-IsPool : {p : Pool} → Reach p → IsPool p
Reach-IsPool (starts threads caller sched h) = start-IsPool threads caller sched h
Reach-IsPool (starts_root threads caller sched garbage run h) =
    start_root-IsPool threads caller sched garbage run h
Reach-IsPool (steps r s h) = Step-IsPool s h (Reach-IsPool r)
