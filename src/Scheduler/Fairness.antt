-- ===== src/Scheduler/Fairness.antt =====
-- code/scheduler.h and code/scheduler.cpp: a task that waits in the queue has its turn.
use mathlib.Core.List.{append_assoc}
use tiny_coroutine.Base.{
  ℕ, suc, ◌<◌, ◌≡◌, refl, ap, Bool, true, false, not, Option, some, List, [], ◌∷◌, ◌++◌, arith,
  if◌then◌else◌, length, count, Bool-cases, inl, inr, subst, sym,
}
use tiny_coroutine.Scheduler.{
  ScheduleTask, Scheduler, has_work, for_other, Pick, pick, schedule_lock, take_task, tickle,
}
use tiny_coroutine.Scheduler.Queue.{schedule_lock-Scheduled}

-- What happens to the queue: a task comes, or a thread searches it.
pub data Event : Type 0 where
  comes : ScheduleTask → Event
  turn : ℕ → Event

abbrev pub after_event : Scheduler → Event → Scheduler
after_event s (comes t) = schedule_lock s t
after_event s (turn i) = (take_task s i).0

abbrev pub after_events : Scheduler → List Event → Scheduler
after_events s [] = s
after_events s (e ∷ es) = after_events (after_event s e) es

-- The turn of a thread that may take the task.
abbrev pub serves : ScheduleTask → Event → Bool
serves t (comes u) = false
serves t (turn i) = not (for_other i t)

-- How a search comes out for a task that stands behind those of `before`.
data Shift (i : ℕ) (before : List ScheduleTask) (t : ScheduleTask) (after : List ScheduleTask)
    : Option ScheduleTask → List ScheduleTask → Type 0 where
  hits : for_other i t ≡ false → Shift i before t after (some t) (before ++ after)
  nearer :
      (before' : List ScheduleTask) (x : ScheduleTask)
      → suc (length before') ≡ length before
      → Shift i before t after (some x) (before' ++ t ∷ after)
  passes :
      (o : Option ScheduleTask) (after' : List ScheduleTask)
      → for_other i t ≡ true
      → Shift i before t after o (before ++ t ∷ after')

Shift-skip :
    (i : ℕ) (x : ScheduleTask) (before : List ScheduleTask) (t : ScheduleTask)
    (after : List ScheduleTask) {o : Option ScheduleTask} {rest : List ScheduleTask}
    → Shift i before t after o rest
    → Shift i (x ∷ before) t after o (x ∷ rest)
Shift-skip i x before t after (hits h) = hits h
Shift-skip i x before t after (nearer before' y e) = nearer (x ∷ before') y (ap suc e)
Shift-skip i x before t after (passes o after' h) = passes o after' h

pick-Shift :
    (i : ℕ) (b : Bool) (before : List ScheduleTask) (t : ScheduleTask) (after : List ScheduleTask)
    → let p = pick i b (before ++ t ∷ after) in Shift i before t after p.task p.tasks
unfolding pick
pick-Shift i b [] t after = elim (Bool-cases (for_other i t)) [
  | inl h ↦ rw h (passes (pick i true after).task (pick i true after).tasks h)
  | inr h ↦ rw h (hits h)
]
pick-Shift i b (x ∷ before) t after = elim (Bool-cases (for_other i x)) [
  | inl h ↦ rw h (Shift-skip i x before t after (pick-Shift i true before t after))
  | inr h ↦ rw h (nearer before x refl)
]

take_task-Shift :
    (s : Scheduler) (i : ℕ) (before : List ScheduleTask) (t : ScheduleTask)
    (after : List ScheduleTask)
    → s.tasks ≡ before ++ t ∷ after
    → Shift i before t after (take_task s i).1 (take_task s i).0.tasks
unfolding take_task tickle
take_task-Shift s i before t after e =
    subst (λ l. Shift i before t after p.task l) (sym same)
      (subst (λ q. Shift i before t after (pick i false q).task (pick i false q).tasks) (sym e)
        (pick-Shift i false before t after))
  where
    p : Pick
    p = pick i false s.tasks

    same : (take_task s i).0.tasks ≡ p.tasks
    same = ground arith

-- Among the events there is a search that takes the task, from where it stands in the queue.
pub record HasTurn (s : Scheduler) (es : List Event) (t : ScheduleTask) : Type 0 where
  pub earlier : List Event
  pub thread : ℕ
  pub later : List Event
  pub split : es ≡ earlier ++ turn thread ∷ later
  pub before : List ScheduleTask
  pub after : List ScheduleTask
  pub queued : (after_events s earlier).tasks ≡ before ++ t ∷ after
  pub result : (take_task (after_events s earlier) thread).1 ≡ some t
  pub removed : (take_task (after_events s earlier) thread).0.tasks ≡ before ++ after

HasTurn-later :
    {s : Scheduler} {es : List Event} {t : ScheduleTask} (e : Event)
    → HasTurn (after_event s e) es t
    → HasTurn s (e ∷ es) t
HasTurn-later e h = record {
  earlier = e ∷ h.earlier;
  thread = h.thread;
  later = h.later;
  split = ap (λ l. e ∷ l) h.split;
  before = h.before;
  after = h.after;
  queued = h.queued;
  result = h.result;
  removed = h.removed;
}

-- Where the task comes closer, or another thread searches, a later event takes it.
turn-HasTurn :
    (s : Scheduler) (i : ℕ) (es : List Event) (before : List ScheduleTask) (t : ScheduleTask)
    (after : List ScheduleTask) {o : Option ScheduleTask} {rest : List ScheduleTask}
    → Shift i before t after o rest
    → s.tasks ≡ before ++ t ∷ after
    → (take_task s i).1 ≡ o
    → (take_task s i).0.tasks ≡ rest
    → length before < count (serves t) (turn i ∷ es)
    → ((before' after' : List ScheduleTask)
        → (take_task s i).0.tasks ≡ before' ++ t ∷ after'
        → length before' < count (serves t) es
        → HasTurn (take_task s i).0 es t)
    → HasTurn s (turn i ∷ es) t
turn-HasTurn s i es before t after (hits h) e r q lt next = record {
  earlier = [];
  thread = i;
  later = es;
  split = refl;
  before = before;
  after = after;
  queued = e;
  result = r;
  removed = q;
}
turn-HasTurn s i es before t after (nearer before' x l) e r q lt next =
    HasTurn-later (turn i) (next before' after q (ground (arith, l, lt)))
turn-HasTurn s i es before t after (passes o after' h) e r q lt next =
    HasTurn-later (turn i) (next before after' q (ground (arith, h, lt)))

-- A task that waits in the queue is taken by the time that threads that may take it have searched the
-- queue once more often than there are tasks before it, whatever is scheduled and whatever other
-- threads take in between.
pub has_turn :
    (es : List Event) (s : Scheduler) (before : List ScheduleTask) (t : ScheduleTask)
    (after : List ScheduleTask)
    → s.tasks ≡ before ++ t ∷ after
    → length before < count (serves t) es
    → HasTurn s es t
has_turn [] s before t after e lt = absurd (omega (arith, lt))
has_turn (comes u ∷ es) s before t after e lt = HasTurn-later (comes u) (
    has_turn es (schedule_lock s u) before t (if has_work u then after ++ u ∷ [] else after)
      (ground
        (arith, (schedule_lock-Scheduled s u).queue, e, append_assoc before (t ∷ after) (u ∷ [])))
      (omega (arith, lt)))
has_turn (turn i ∷ es) s before t after e lt =
    turn-HasTurn s i es before t after (take_task-Shift s i before t after e) e refl refl lt
      (λ before' after' q l. has_turn es (take_task s i).0 before' t after' q l)
