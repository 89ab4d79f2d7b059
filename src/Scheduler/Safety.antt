-- ===== src/Scheduler/Safety.antt =====
-- code/scheduler.cpp: what holds in every state that a pool of threads comes to.
use tiny_coroutine.Base.{
  ℕ, zero, suc, ◌+◌, ◌-◌, ◌≤◌, ◌<◌, ◌≡◌, refl, ap, Bool, true, false, some, [], arith,
  sum_below-zero, sum_below-ge, count, ◌∙◌,
}
use tiny_coroutine.Scheduler.{
  ScheduleTask, Scheduler, new_scheduler, stopping, begin_stop, stop, tickle, tickle_times, pick,
}
use tiny_coroutine.Scheduler.Queue.{pick_asserted}
use tiny_coroutine.Scheduler.System.{
  Worker, searching, running, resting, idling, leaving, ended, System, Step, Reach, start_system,
  schedules, searches, finishes, rests, yields, idle_ends, leaves, stops, starts, steps,
}
use tiny_coroutine.Scheduler.Account.{
  Account, busy, asleep, carries, is_over, schedule-Account, finish-Account, move-Account,
  search-Account,
}

-- tickle() and stop() leave the queue and the counters alone.
record SameWork (s s' : Scheduler) : Type 0 where
  tasks : s'.tasks ≡ s.tasks
  active : s'.active_thread_cnt ≡ s.active_thread_cnt
  idle : s'.idle_thread_cnt ≡ s.idle_thread_cnt
  flag : s'.stopping ≡ s.stopping

tickle-SameWork : (s : Scheduler) → SameWork s (tickle s)
unfolding tickle
tickle-SameWork s = ground arith

tickle_times-SameWork : (k : ℕ) (s : Scheduler) → SameWork s (tickle_times k s)
unfolding tickle_times
tickle_times-SameWork zero s = record { tasks = refl; active = refl; idle = refl; flag = refl }
tickle_times-SameWork (suc k) s =
    ground (arith, tickle_times-SameWork k (tickle s), tickle-SameWork s)

-- The flag is set, and neither the queue nor the counters change.
abbrev pub Flagged : Scheduler → Scheduler → Type 0
Flagged s s' =
    (s'.stopping ≡ true)
    × (s'.tasks ≡ s.tasks)
    × (s'.active_thread_cnt ≡ s.active_thread_cnt)
    × (s'.idle_thread_cnt ≡ s.idle_thread_cnt)

pub begin_stop-Flagged : (s : Scheduler) → Flagged s (begin_stop s)
begin_stop-Flagged s = ground (
  arith,
  tickle_times-SameWork s.thread_cnt flagged,
  tickle-SameWork (tickle_times s.thread_cnt flagged),
)
  where
    flagged : Scheduler
    flagged = record s { stopping = true }

stop-Flagged : (s : Scheduler) → Flagged s (stop s)
unfolding stop stopping
stop-Flagged s = ground (arith, begin_stop-Flagged s)

stop-Account : {n : ℕ} {s : System} → Account n s → Account n (record s { sched = stop s.sched })
stop-Account {s} a =
    let (flag, tasks, active, idle) = stop-Flagged s.sched in
    record {
      active = active ∙ a.active;
      idle = idle ∙ a.idle;
      balance = λ p. omega (arith, a.balance p, ap (count p) tasks);
      work = ground (arith, tasks, a.work);
      own = a.own;
      flagged = λ i h. flag;
    }

-- An idle thread is counted, so that the count does not fall below 0.
asleep_counted :
    {n : ℕ} {s : System} (i : ℕ)
    → i < n
    → Account n s
    → asleep (s.workers i) ≤ s.sched.idle_thread_cnt
asleep_counted {n} {s} i lt a =
    omega (arith, a.idle, sum_below-ge (λ j. asleep (s.workers j)) n i lt)

pub Step-Account : {n : ℕ} {s s' : System} → Step n s s' → Account n s → Account n s'
unfolding stopping
Step-Account (schedules t) a = schedule-Account t a
Step-Account (searches i b lt e) a = search-Account i b lt e a
Step-Account (finishes i t b lt e) a = finish-Account i t b lt e a
Step-Account {s} (rests i lt e) a =
    move-Account (record (s.sched) { idle_thread_cnt = s.sched.idle_thread_cnt + 1 }) i idling lt a
      refl refl refl (rw e (omega arith)) (rw e (omega arith)) (λ p. rw e (omega arith)) tt
      (λ h. cc)
Step-Account {s} (yields i lt e) a =
    move-Account s.sched i (leaving false) lt a refl refl refl (rw e (omega arith))
      (rw e (omega arith)) (λ p. rw e (omega arith)) tt (λ h. cc)
Step-Account {s} (idle_ends i lt e over) a =
    move-Account s.sched i (leaving true) lt a refl refl refl (rw e (omega arith))
      (rw e (omega arith)) (λ p. rw e (omega arith)) tt (λ h. ground (arith, over))
Step-Account {s} (leaves i b lt e) a =
    move-Account (record (s.sched) { idle_thread_cnt = s.sched.idle_thread_cnt - 1 }) i
      (searching b) lt a refl refl refl (rw e (omega arith))
      (omega (arith, asleep_counted i lt a, ap asleep e)) (λ p. rw e (omega arith)) tt
      (λ h. a.flagged i (ap is_over e ∙ h))
Step-Account stops a = stop-Account a

start-Account :
    (n threads : ℕ) (use_caller : Bool) (caller : ℕ) (sched : Scheduler)
    → new_scheduler threads use_caller caller ≡ some sched
    → Account n (start_system sched)
unfolding new_scheduler
start-Account n zero use_caller caller sched h = cc
start-Account n (suc k) use_caller caller sched h = record {
  active = ground (arith, h, sum_below-zero (λ j. busy (searching false)) n (λ j lt. refl));
  idle = ground (arith, h, sum_below-zero (λ j. asleep (searching false)) n (λ j lt. refl));
  balance =
      λ p. ground (arith, h, sum_below-zero (λ j. carries p (searching false)) n (λ j lt. refl));
  work = ground (arith, h);
  own = λ i. tt;
  flagged = λ i e. cc;
}

-- In every state of a pool the active count is the number of threads with a task, the idle count that
-- of the threads about the idle fiber, each task that came waits in the queue, is run by one thread or
-- is over, exactly once, a thread runs only tasks that are free or meant for it, and an idle fiber has
-- come to its end only after stop().
pub Reach-Account : {n : ℕ} {s : System} → Reach n s → Account n s
Reach-Account {n} (starts threads use_caller caller sched h) =
    start-Account n threads use_caller caller sched h
Reach-Account (steps r st) = Step-Account st (Reach-Account r)

not_busy :
    {n : ℕ} {s : System} (i : ℕ)
    → i < n
    → Account n s
    → s.sched.active_thread_cnt ≡ 0
    → busy (s.workers i) ≡ 0
not_busy {n} {s} i lt a h = omega (arith, a.active, sum_below-ge (λ j. busy (s.workers j)) n i lt)

carries-not_busy : (p : ScheduleTask → Bool) (w : Worker) → busy w ≡ 0 → carries p w ≡ 0
carries-not_busy p (running t b) h = absurd (omega arith)
carries-not_busy p (searching b) h = refl
carries-not_busy p resting h = refl
carries-not_busy p idling h = refl
carries-not_busy p (leaving b) h = refl
carries-not_busy p ended h = refl

-- Once stopping() answers true, the queue is empty, no thread of the pool has a task, and every task
-- that came is over.
pub stopping_quiet :
    {n : ℕ} {s : System}
    → Reach n s
    → stopping s.sched ≡ true
    → (s.sched.tasks ≡ [])
      × ((i : ℕ) → i < n → busy (s.workers i) ≡ 0)
      × ((p : ScheduleTask → Bool) → count p s.scheduled ≡ count p s.done)
unfolding stopping
stopping_quiet {n} {s} r h = (
  empty,
  λ i lt. not_busy i lt a none_active,
  λ p. omega (
    arith,
    a.balance p,
    ap (count p) empty,
    sum_below-zero (λ j. carries p (s.workers j)) n
        (λ j lt. carries-not_busy p (s.workers j) (not_busy j lt a none_active)),
  ),
)
  where
    a : Account n s
    a = Reach-Account r

    empty : s.sched.tasks ≡ []
    empty = ground (arith, h)

    none_active : s.sched.active_thread_cnt ≡ 0
    none_active = ground (arith, h)

-- The assertion of run() on the task that it takes never fails.
pub run_assertion :
    {n : ℕ} {s : System} (i : ℕ) → Reach n s → (pick i false s.sched.tasks).asserted ≡ true
run_assertion {s} i r = (pick_asserted i false s.sched.tasks (Reach-Account r).work).0
