-- ===== src/Idle/Queues.antt =====
-- code/ioscheduler.cpp: the queues of the schedulers during a turn of idle().
use tiny_coroutine.Base.{
  ℕ, ◌≡◌, refl, Bool, true, false, ◌&&◌, Option, none, some, List, [], ◌∷◌, ◌++◌, arith, ◌==◌,
  if◌then◌else◌, update, sym, ap, ◌∙◌, inl, inr, Option-cases,
}
use mathlib.Core.List.{append-nil, append_assoc}
use tiny_coroutine.Callback.{Callback}
use tiny_coroutine.Scheduler.{Scheduler, ScheduleTask, cb_task, has_work, schedule_lock}
use tiny_coroutine.Scheduler.Queue.{schedule_lock-Scheduled}
use tiny_coroutine.IoManager.Context.{EventContext, task_of}
use tiny_coroutine.IoManager.Valid.{IsValid}
use tiny_coroutine.IoManager.Slots.{posted}
use tiny_coroutine.IoManager.Handled.{same-IsValid}
use tiny_coroutine.Idle.{Manager, with_scheduler, schedule_cbs}

-- The tasks of the callbacks: a timer that has lost its callback gives none.
abbrev pub tasks_of : List (Option Callback) → List ScheduleTask
tasks_of [] = []
tasks_of (none ∷ cbs) = tasks_of cbs
tasks_of (some cb ∷ cbs) = cb_task (some cb) none ∷ tasks_of cbs

-- The queues of all schedulers are what they were, with tasks put at their ends.
abbrev pub Extends : (ℕ → Scheduler) → (ℕ → Scheduler) → Type 0
Extends ss ss' = (i : ℕ) → (more : List ScheduleTask) × ((ss' i).tasks ≡ (ss i).tasks ++ more)

pub Extends-refl : (ss : ℕ → Scheduler) → Extends ss ss
Extends-refl ss i = ([], sym (append-nil (ss i).tasks))

pub Extends-trans : (a b c : ℕ → Scheduler) → Extends a b → Extends b c → Extends a c
Extends-trans a b c p q i =
    let (xs, e) = p i in
    let (ys, f) = q i in (xs ++ ys, f ∙ ap (λ l. l ++ ys) e ∙ append_assoc (a i).tasks xs ys)

pub Extends-schedule :
    (ss : ℕ → Scheduler) (s : ℕ) (task : ScheduleTask)
    → Extends ss (update ss s (schedule_lock (ss s) task))
Extends-schedule ss s task i = (
  if s == i && has_work task then task ∷ [] else [],
  ground (arith, (schedule_lock-Scheduled (ss s) task).queue, append-nil (ss i).tasks),
)

pub Extends-posted : (ss : ℕ → Scheduler) (ctx : EventContext) → Extends ss (posted ss ctx)
Extends-posted ss ctx = elim (Option-cases ctx.scheduler) [
  | inl e ↦ rw e (Extends-refl ss)
  | inr (s, e) ↦ rw e (Extends-schedule ss s (task_of ctx))
]

pub Extends-if :
    (b : Bool) (a s s' : ℕ → Scheduler)
    → Extends a s
    → Extends a s'
    → Extends a (if b then s else s')
Extends-if true a s s' p q = p
Extends-if false a s s' p q = q

-- One callback of a timer, scheduled.
abbrev pub scheduled : Manager → Option Callback → Manager
scheduled m cb = with_scheduler m (schedule_lock (m.io.schedulers m.self) (cb_task cb none))

pub scheduled-tasks :
    (m : Manager) (cb : Option Callback)
    → ((scheduled m cb).io.schedulers m.self).tasks
      ≡ (m.io.schedulers m.self).tasks ++ tasks_of (cb ∷ [])
scheduled-tasks m none = ground (
  arith,
  (schedule_lock-Scheduled (m.io.schedulers m.self) (cb_task none none)).queue,
  append-nil (m.io.schedulers m.self).tasks,
)
scheduled-tasks m (some cb) =
    ground
      (arith, (schedule_lock-Scheduled (m.io.schedulers m.self) (cb_task (some cb) none)).queue)

pub schedule_cbs-IsValid :
    (cbs : List (Option Callback)) (m : Manager) → IsValid m.io → IsValid (schedule_cbs m cbs).io
unfolding schedule_cbs
schedule_cbs-IsValid [] m v = v
schedule_cbs-IsValid (cb ∷ cbs) m v =
    schedule_cbs-IsValid cbs (scheduled m cb) (same-IsValid m.io _ refl refl refl refl v)

-- Scheduling callbacks changes the schedulers only, and reported events stay what they are.
pub schedule_cbs_kept :
    (cbs : List (Option Callback)) (m : Manager)
    → ((schedule_cbs m cbs).io.contexts ≡ m.io.contexts)
      × ((schedule_cbs m cbs).io.size ≡ m.io.size)
      × ((schedule_cbs m cbs).timers ≡ m.timers)
      × ((schedule_cbs m cbs).self ≡ m.self)
unfolding schedule_cbs
schedule_cbs_kept [] m = (refl, refl, refl, refl)
schedule_cbs_kept (cb ∷ cbs) m = schedule_cbs_kept cbs (scheduled m cb)

-- The callbacks go to the end of the queue of this scheduler, in their order.
pub schedule_cbs-tasks :
    (cbs : List (Option Callback)) (m : Manager)
    → ((schedule_cbs m cbs).io.schedulers m.self).tasks
      ≡ (m.io.schedulers m.self).tasks ++ tasks_of cbs
unfolding schedule_cbs
schedule_cbs-tasks [] m = sym (append-nil (m.io.schedulers m.self).tasks)
schedule_cbs-tasks (cb ∷ cbs) m =
    schedule_cbs-tasks cbs (scheduled m cb)
    ∙ ap (λ l. l ++ tasks_of cbs) (scheduled-tasks m cb)
    ∙ append_assoc (m.io.schedulers m.self).tasks (tasks_of (cb ∷ [])) (tasks_of cbs)
    ∙ ap (λ l. (m.io.schedulers m.self).tasks ++ l) (tasks_of_cons cb cbs)
  where
    tasks_of_cons :
        (cb : Option Callback) (cbs : List (Option Callback))
        → tasks_of (cb ∷ []) ++ tasks_of cbs ≡ tasks_of (cb ∷ cbs)
    tasks_of_cons none cbs = refl
    tasks_of_cons (some cb) cbs = refl
