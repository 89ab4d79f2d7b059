-- ===== src/Scheduler/End.antt =====
-- code/scheduler.cpp: the end of a pool, and the assertion of ~Scheduler.
use tiny_coroutine.Base.{
  ℕ, ◌<◌, ◌≡◌, refl, ap, ◌∙◌, Bool, true, false, Option, none, some, arith, ◌==◌, if◌then◌else◌,
  is_empty, sum_below-zero,
}
use tiny_coroutine.Scheduler.{stopping, delete_scheduler}
use tiny_coroutine.Scheduler.System.{ended, System, Reach}
use tiny_coroutine.Scheduler.Account.{Account, busy, is_over}
use tiny_coroutine.Scheduler.Safety.{Reach-Account}

-- t_scheduler without the scheduler `self`.
abbrev pub forgotten : ℕ → Option ℕ → Option ℕ
forgotten self none = none
forgotten self (some t) = if t == self then none else some t

delete-stopping :
    (s : System) (self : ℕ) (this : Option ℕ) (b : Bool)
    → s.sched.stopping ≡ true
    → s.sched.active_thread_cnt ≡ 0
    → is_empty s.sched.tasks ≡ b
    → delete_scheduler s.sched self this ≡ (if b then some (forgotten self this) else none)
unfolding delete_scheduler stopping
delete-stopping s self this true flag none_active e = ground (arith, flag, none_active, e)
delete-stopping s self this false flag none_active e = ground (arith, flag, none_active, e)

-- In a pool of at least one thread, once all threads are behind their loops: ~Scheduler passes its
-- assertion, and then leaves no t_scheduler that names the scheduler, exactly if no task is left in
-- the queue.
pub ended_deletes :
    {n : ℕ} {s : System} (self : ℕ) (this : Option ℕ)
    → Reach n s
    → 0 < n
    → ((i : ℕ) → i < n → s.workers i ≡ ended)
    → delete_scheduler s.sched self this
      ≡ (if is_empty s.sched.tasks then some (forgotten self this) else none)
ended_deletes {n} {s} self this r some_thread over =
    delete-stopping s self this (is_empty s.sched.tasks)
      (a.flagged 0 (ap is_over (over 0 some_thread)))
      (a.active ∙ sum_below-zero (λ i. busy (s.workers i)) n (λ i lt. ap busy (over i lt))) refl
  where
    a : Account n s
    a = Reach-Account r
