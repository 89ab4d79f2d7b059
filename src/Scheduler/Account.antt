-- ===== src/Scheduler/Account.antt =====
-- code/scheduler.cpp: the counters count the threads, and no task is lost or run twice.
use tiny_coroutine.Base.{
  ℕ, ◌+◌, ◌<◌, ◌≡◌, refl, ap, Bool, true, false, ◌&&◌, Option, none, some, List, [], ◌∷◌, ◌++◌,
  arith, if◌then◌else◌, update, is_some, sum_below, sum_below-change, count, count-append, ◌∙◌,
}
use tiny_coroutine.Scheduler.{ScheduleTask, Scheduler, for_other, schedule_lock, take_task}
use tiny_coroutine.Scheduler.Queue.{
  Picked, nothing, taken, Taken, take_task-Taken, Scheduled, schedule_lock-Scheduled, all_work,
  all_work-snoc,
}
use tiny_coroutine.Scheduler.System.{
  Worker, searching, running, resting, idling, leaving, ended, System, after_search, search_task,
  finish_task, schedule_task,
}

abbrev pub busy : Worker → ℕ
busy (running t b) = 1
busy _ = 0

abbrev pub asleep : Worker → ℕ
asleep idling = 1
asleep (leaving b) = 1
asleep _ = 0

-- Does the task that a thread runs pass the test?
abbrev pub carries : (ScheduleTask → Bool) → Worker → ℕ
carries p (running t b) = if p t then 1 else 0
carries p _ = 0

-- Has the idle fiber of the thread come to its end?
abbrev pub is_over : Worker → Bool
is_over (searching b) = b
is_over (running t b) = b
is_over resting = false
is_over idling = false
is_over (leaving b) = b
is_over ended = true

abbrev pub IsOwn : ℕ → Worker → Type 0
IsOwn i (running t b) = for_other i t ≡ false
IsOwn i _ = Unit

pub record Account (n : ℕ) (s : System) : Type 0 where
  pub active : s.sched.active_thread_cnt ≡ sum_below n (λ i. busy (s.workers i))
  pub idle : s.sched.idle_thread_cnt ≡ sum_below n (λ i. asleep (s.workers i))
  pub balance :
      (p : ScheduleTask → Bool)
      → count p s.scheduled
        ≡ count p s.sched.tasks + sum_below n (λ i. carries p (s.workers i)) + count p s.done
  pub work : all_work s.sched.tasks ≡ true
  pub own : (i : ℕ) → IsOwn i (s.workers i)
  pub flagged : (i : ℕ) → is_over (s.workers i) ≡ true → s.sched.stopping ≡ true

-- A weight of the threads after one of them has changed.
module _ (n : ℕ) (ws : ℕ → Worker) (i : ℕ) (w : Worker) (lt : i < n) where
  pub weigh :
      (f : Worker → ℕ)
      → sum_below n (λ j. f (update ws i w j)) + f (ws i) ≡ sum_below n (λ j. f (ws j)) + f w
  weigh f =
      rw (← weigh_self)
        (sum_below-change (λ j. f (ws j)) (λ j. f (update ws i w j)) n i lt (λ j e. ground arith))
    where
      weigh_self : f (update ws i w i) ≡ f w
      weigh_self = ground arith

pub schedule-Account :
    {n : ℕ} {s : System} (t : ScheduleTask) → Account n s → Account n (schedule_task s t)
schedule-Account {s} t a = record {
  active = q.active ∙ a.active;
  idle = q.idle ∙ a.idle;
  balance =
      λ p. ground (arith, a.balance p, ap (count p) q.queue, count-append p s.sched.tasks (t ∷ []));
  work = ground (arith, ap all_work q.queue, all_work-snoc s.sched.tasks t a.work, a.work);
  own = a.own;
  flagged = λ i h. q.flag ∙ a.flagged i h;
}
  where
    q : Scheduled s.sched (schedule_lock s.sched t) t
    q = schedule_lock-Scheduled s.sched t

pub finish-Account :
    {n : ℕ} {s : System} (i : ℕ) (t : ScheduleTask) (b : Bool)
    → i < n
    → s.workers i ≡ running t b
    → Account n s
    → Account n (finish_task s i t b)
finish-Account {n} {s} i t b lt e a = record {
  active = omega (arith, a.active, change busy, ap busy e);
  idle = omega (arith, a.idle, change asleep, ap asleep e);
  balance = λ p. omega (arith, a.balance p, change (carries p), ap (carries p) e);
  work = a.work;
  own = λ j. ground (arith, a.own j);
  flagged = λ j h. ground (arith, a.flagged j, a.flagged i, ap is_over e, h);
}
  where
    change :
        (f : Worker → ℕ)
        → sum_below n (λ j. f (update s.workers i (searching b) j)) + f (s.workers i)
          ≡ sum_below n (λ j. f (s.workers j)) + f (searching b)
    change = weigh n s.workers i (searching b) lt

-- A thread without a task goes on to another place without one.
pub move-Account :
    {n : ℕ} {s : System} (sched : Scheduler) (i : ℕ) (w : Worker)
    → i < n
    → Account n s
    → sched.tasks ≡ s.sched.tasks
    → sched.stopping ≡ s.sched.stopping
    → sched.active_thread_cnt ≡ s.sched.active_thread_cnt
    → (busy (s.workers i) ≡ 0) × (busy w ≡ 0)
    → sched.idle_thread_cnt + asleep (s.workers i) ≡ s.sched.idle_thread_cnt + asleep w
    → ((p : ScheduleTask → Bool) → (carries p (s.workers i) ≡ 0) × (carries p w ≡ 0))
    → IsOwn i w
    → (is_over w ≡ true → s.sched.stopping ≡ true)
    → Account n (record s { sched = sched; workers = update s.workers i w })
move-Account {n} {s} sched i w lt a tasks flag act free idle none_carried own over = record {
  active = omega (arith, a.active, act, weigh n s.workers i w lt busy, free);
  idle = omega (arith, a.idle, idle, weigh n s.workers i w lt asleep);
  balance = λ p. omega (
    arith,
    a.balance p,
    weigh n s.workers i w lt (carries p),
    none_carried p,
    ap (count p) tasks,
  );
  work = ap all_work tasks ∙ a.work;
  own = λ j. ground (arith, a.own j, own);
  flagged = λ j h. ground (arith, a.flagged j, over, flag, h);
}

-- What the search of a thread does to the account.
count-Picked :
    (p : ScheduleTask → Bool) {i : ℕ} {tasks rest : List ScheduleTask} {o : Option ScheduleTask}
    (b : Bool)
    → Picked i tasks o rest
    → count p tasks ≡ count p rest + carries p (after_search b o)
count-Picked p true (nothing _) = omega arith
count-Picked p false (nothing _) = omega arith
count-Picked p b (taken before t after e _ _) =
    omega (arith, ap (count p) e, count-append p before (t ∷ after), count-append p before after)

IsOwn-Picked :
    {i : ℕ} {tasks rest : List ScheduleTask} {o : Option ScheduleTask} (b : Bool)
    → Picked i tasks o rest
    → IsOwn i (after_search b o)
IsOwn-Picked true (nothing _) = tt
IsOwn-Picked false (nothing _) = tt
IsOwn-Picked b (taken before t after e _ own) = own

all_work-append : (xs ys : List ScheduleTask) → all_work (xs ++ ys) ≡ (all_work xs && all_work ys)
all_work-append [] ys = refl
all_work-append (x ∷ xs) ys = ground (arith, all_work-append xs ys)

work-Picked :
    {i : ℕ} {tasks rest : List ScheduleTask} {o : Option ScheduleTask}
    → Picked i tasks o rest
    → all_work tasks ≡ true
    → all_work rest ≡ true
work-Picked (nothing _) h = h
work-Picked (taken before t after e _ _) h =
    ground
      (arith, ap all_work e, all_work-append before (t ∷ after), all_work-append before after, h)

after_search-weights :
    (b : Bool) (o : Option ScheduleTask)
    → (busy (after_search b o) ≡ (if is_some o then 1 else 0))
      × (asleep (after_search b o) ≡ 0)
      × (is_over (after_search b o) ≡ true → b ≡ true)
after_search-weights true none = (refl, refl, λ h. refl)
after_search-weights false none = (refl, refl, λ h. h)
after_search-weights b (some t) = (refl, refl, λ h. h)

pub search-Account :
    {n : ℕ} {s : System} (i : ℕ) (b : Bool)
    → i < n
    → s.workers i ≡ searching b
    → Account n s
    → Account n (search_task s i b)
search-Account {n} {s} i b lt e a = record {
  active = ground (arith, q.active, a.active, weight.0, change busy, ap busy e);
  idle = omega (arith, q.idle, a.idle, weight.1, change asleep, ap asleep e);
  balance = λ p.
      omega (arith, a.balance p, count-Picked p b q.picked, change (carries p), ap (carries p) e);
  work = work-Picked q.picked a.work;
  own = λ j. ground (arith, a.own j, IsOwn-Picked b q.picked);
  flagged = λ j h. ground (arith, a.flagged j, a.flagged i, weight.2, ap is_over e, q.flag, h);
}
  where
    r : Scheduler × Option ScheduleTask
    r = take_task s.sched i

    q : Taken s.sched r.0 i r.1
    q = take_task-Taken s.sched i

    weight :
        (busy (after_search b r.1) ≡ (if is_some r.1 then 1 else 0))
        × (asleep (after_search b r.1) ≡ 0)
        × (is_over (after_search b r.1) ≡ true → b ≡ true)
    weight = after_search-weights b r.1

    change :
        (f : Worker → ℕ)
        → sum_below n (λ j. f (update s.workers i (after_search b r.1) j)) + f (s.workers i)
          ≡ sum_below n (λ j. f (s.workers j)) + f (after_search b r.1)
    change = weigh n s.workers i (after_search b r.1) lt
