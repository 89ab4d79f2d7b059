-- ===== src/Scheduler/Queue.antt =====
-- code/scheduler.h and code/scheduler.cpp: the order of the task queue.
use tiny_coroutine.Base.{
  ℕ, ◌+◌, ◌≡◌, refl, ap, Bool, true, false, ◌&&◌, ◌||◌, not, Option, none, some, List, [], ◌∷◌,
  ◌++◌, arith, if◌then◌else◌, is_some, is_empty, Bool-cases, inl, inr, subst, sym, ◌∙◌,
}
use tiny_coroutine.Scheduler.{
  ScheduleTask, Scheduler, has_work, has_idle_threads, for_other, Pick, pick, schedule_lock, tickle,
  take_task,
}

-- Every task is meant for another thread.
abbrev pub all_for_other : ℕ → List ScheduleTask → Bool
all_for_other thread_id [] = true
all_for_other thread_id (t ∷ ts) = for_other thread_id t && all_for_other thread_id ts

-- Every task has a fiber or a function.
abbrev pub all_work : List ScheduleTask → Bool
all_work [] = true
all_work (t ∷ ts) = has_work t && all_work ts

-- How a search comes out: nothing for this thread, or the first task that it may take, with all others
-- left in their order.
pub data Picked (thread_id : ℕ) (tasks : List ScheduleTask)
    : Option ScheduleTask → List ScheduleTask → Type 0 where
  nothing : all_for_other thread_id tasks ≡ true → Picked thread_id tasks none tasks
  taken :
      (before : List ScheduleTask) (t : ScheduleTask) (after : List ScheduleTask)
      → tasks ≡ before ++ t ∷ after
      → all_for_other thread_id before ≡ true
      → for_other thread_id t ≡ false
      → Picked thread_id tasks (some t) (before ++ after)

Picked-skip :
    (thread_id : ℕ) (x : ScheduleTask) (xs : List ScheduleTask) {o : Option ScheduleTask}
    {rest : List ScheduleTask}
    → for_other thread_id x ≡ true
    → Picked thread_id xs o rest
    → Picked thread_id (x ∷ xs) o (x ∷ rest)
Picked-skip thread_id x xs h (nothing all) = nothing (ground (arith, h, all))
Picked-skip thread_id x xs h (taken before t after e all own) =
    taken (x ∷ before) t after (ap (λ l. x ∷ l) e) (ground (arith, h, all)) own

pub pick-Picked :
    (thread_id : ℕ) (b : Bool) (tasks : List ScheduleTask)
    → Picked thread_id tasks (pick thread_id b tasks).task (pick thread_id b tasks).tasks
unfolding pick
pick-Picked thread_id b [] = nothing refl
pick-Picked thread_id b (x ∷ xs) = elim (Bool-cases (for_other thread_id x)) [
  | inl h ↦ rw h (Picked-skip thread_id x xs h (pick-Picked thread_id true xs))
  | inr h ↦ rw h (taken [] x xs refl refl h)
]

-- The other threads are woken exactly if a task is left in the queue.
pub pick_tickles :
    (thread_id : ℕ) (b : Bool) (tasks : List ScheduleTask)
    → (pick thread_id b tasks).tickle_me ≡ (b || not (is_empty (pick thread_id b tasks).tasks))
unfolding pick
pick_tickles thread_id b [] = ground arith
pick_tickles thread_id b (x ∷ xs) = ground (arith, pick_tickles thread_id true xs)

pub pick_asserted :
    (thread_id : ℕ) (b : Bool) (tasks : List ScheduleTask)
    → all_work tasks ≡ true
    → ((pick thread_id b tasks).asserted ≡ true) × (all_work (pick thread_id b tasks).tasks ≡ true)
unfolding pick
pick_asserted thread_id b [] h = (refl, refl)
pick_asserted thread_id b (x ∷ xs) h = ground (arith, pick_asserted thread_id true xs)

pub all_work-snoc :
    (tasks : List ScheduleTask) (t : ScheduleTask)
    → all_work tasks ≡ true
    → has_work t ≡ true
    → all_work (tasks ++ t ∷ []) ≡ true
all_work-snoc [] t h w = ground arith
all_work-snoc (x ∷ xs) t h w = ground (arith, all_work-snoc xs t)

-- What scheduleLock does: a task with work goes to the end of the queue, any other is dropped. A
-- sleeping thread is woken exactly if the queue was empty before. Nothing else changes.
pub record Scheduled (s s' : Scheduler) (task : ScheduleTask) : Type 0 where
  pub queue : s'.tasks ≡ (if has_work task then s.tasks ++ task ∷ [] else s.tasks)
  pub woken : s'.pipe ≡ (if is_empty s.tasks && has_idle_threads s then s.pipe + 1 else s.pipe)
  pub active : s'.active_thread_cnt ≡ s.active_thread_cnt
  pub idle : s'.idle_thread_cnt ≡ s.idle_thread_cnt
  pub flag : s'.stopping ≡ s.stopping

pub schedule_lock-Scheduled :
    (s : Scheduler) (task : ScheduleTask) → Scheduled s (schedule_lock s task) task
unfolding schedule_lock
schedule_lock-Scheduled s task = ground arith

-- What the critical section of run() does: the first task of the queue that the thread may take is
-- taken, all others stay in their order, the active count rises with a task only, and a sleeping
-- thread is woken exactly if a task is left.
pub record Taken (s s' : Scheduler) (thread_id : ℕ) (o : Option ScheduleTask) : Type 0 where
  pub picked : Picked thread_id s.tasks o s'.tasks
  pub active :
      s'.active_thread_cnt ≡ (if is_some o then s.active_thread_cnt + 1 else s.active_thread_cnt)
  pub woken :
      s'.pipe ≡ (if not (is_empty s'.tasks) && has_idle_threads s then s.pipe + 1 else s.pipe)
  pub idle : s'.idle_thread_cnt ≡ s.idle_thread_cnt
  pub flag : s'.stopping ≡ s.stopping

tickle_fields :
    (b : Bool) (s : Scheduler)
    → let s' = if b then tickle s else s in
      (s'.tasks ≡ s.tasks)
      × (s'.active_thread_cnt ≡ s.active_thread_cnt)
      × (s'.pipe ≡ (if b && has_idle_threads s then s.pipe + 1 else s.pipe))
      × (s'.idle_thread_cnt ≡ s.idle_thread_cnt)
      × (s'.stopping ≡ s.stopping)
unfolding tickle
tickle_fields b s = ground arith

-- What the critical section of run() does: the first task of the queue that the thread may take is
-- taken, all others stay in their order, the active count rises with a task only, and a sleeping
-- thread is woken exactly if a task is left.
pub take_task-Taken :
    (s : Scheduler) (thread_id : ℕ)
    → Taken s (take_task s thread_id).0 thread_id (take_task s thread_id).1
unfolding take_task
take_task-Taken s thread_id = record {
  picked =
      subst (Picked thread_id s.tasks p.task) (sym (f.0)) (pick-Picked thread_id false s.tasks);
  active = f.1;
  woken = f.2 ∙ rw (f.0, pick_tickles thread_id false s.tasks) refl;
  idle = f.3;
  flag = f.4;
}
  where
    p : Pick
    p = pick thread_id false s.tasks

    s' : Scheduler
    s' = record s {
      tasks = p.tasks;
      active_thread_cnt = if is_some p.task then s.active_thread_cnt + 1 else s.active_thread_cnt;
    }

    f :
        let r = if p.tickle_me then tickle s' else s' in
        (r.tasks ≡ p.tasks)
        × (r.active_thread_cnt ≡ s'.active_thread_cnt)
        × (r.pipe ≡ (if p.tickle_me && has_idle_threads s then s.pipe + 1 else s.pipe))
        × (r.idle_thread_cnt ≡ s.idle_thread_cnt)
        × (r.stopping ≡ s.stopping)
    f = tickle_fields p.tickle_me s'
