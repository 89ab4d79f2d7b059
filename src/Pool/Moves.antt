-- ===== src/Pool/Moves.antt =====
-- code/scheduler.cpp: the steps of run() that do not switch fibers keep the pool together.
use tiny_coroutine.Base.{
  ℕ, ◌%◌, ◌^◌, ◌≡◌, refl, Bool, true, false, not, Option, none, some, List, [], ◌∷◌, ◌++◌, arith,
  sym, ap, ◌==◌, Bool-cases, Option-cases, inl, inr, update, if◌then◌else◌, subst,
}
use tiny_coroutine.Callback.{Callback}
use tiny_coroutine.Fiber.{
  State, ready, running, term, is_running, is_term, is_ready, new_fiber, get_this, main_fiber,
  stack_of, thread_stack, Fiber,
}
use tiny_coroutine.Scheduler.{ScheduleTask, schedule_lock, take_task, has_work}
use tiny_coroutine.Scheduler.Queue.{
  Picked, nothing, taken, take_task-Taken, schedule_lock-Scheduled,
}
use tiny_coroutine.Pool.{
  starting, looking, locking, holding, entering, leaving, resting, move, with_idle, Pool, view,
  write_back, share, IsKnown, fits, lock, test, unlock, take, after_take,
}
use tiny_coroutine.Pool.Valid.{
  AllKnown, IsAt, IsPool, core_at, holds, is_apart, is_idling, own_root, refers,
}
use tiny_coroutine.Pool.Keep.{
  AllKnown-append, AllKnown-split, acquire-IsPool, keep-IsPool, moved-Owns, moved_root,
  requeue-IsPool, walk-IsPool,
}
use tiny_coroutine.Pool.Adopt.{adopt-IsPool, grown, grown-IsPool, unlocked}
use tiny_coroutine.Pool.Grow.{Grows-refl, core_in, moved, moved_core}

is_not : (b : Bool) → b ≡ false → not b ≡ true
is_not b e = rw e refl

-- What may be scheduled is not m_schedulerFiber.
pub fits-own_root : (p : Pool) (f : ℕ) → fits p f ≡ true → own_root p f ≡ false
fits-own_root p f h = elim (Option-cases p.root) [
  | inl e ↦ rw e refl
  | inr (r, e) ↦ ground (arith, e, h)
]

pub lock-IsPool :
    {p : Pool} (i f : ℕ)
    → p.places i ≡ locking f
    → p.mutex f ≡ none
    → IsPool p
    → IsPool (lock p i f)
lock-IsPool {p} i f at m v =
    let (lt, st, fit) = v.known i f (ap refers at) in
    acquire-IsPool i f (holding f) (ap holds at) (ap is_apart at) (ap is_idling at) m refl refl
      (lt, st, fit) (is_not _ (v.free f lt st m (fits-own_root p f fit))) (core_in i at v) v

not_over_ready : (s : State) → not (is_running s) ≡ true → is_term s ≡ false → is_ready s ≡ true
not_over_ready ready h n = refl
not_over_ready running h n = cc
not_over_ready term h n = cc

pub test-IsPool : {p : Pool} (i f : ℕ) → p.places i ≡ holding f → IsPool p → IsPool (test p i f)
test-IsPool {p} i f at v =
    let s = rw at at (v.holder i f (ap holds at)).1 in
    elim (Bool-cases (is_term (p.fibers f).state)) [
      | inl e ↦ rw e (keep-IsPool i f (leaving f) (ap holds at) refl refl s (core_in i at v) v)
      | inr e ↦ rw e (
          keep-IsPool i f (entering f) (ap holds at) refl refl (not_over_ready _ s e)
            (core_in i at v) v)
    ]

pub unlock-IsPool : {p : Pool} (i f : ℕ) → p.places i ≡ leaving f → IsPool p → IsPool (unlock p i f)
unlock-IsPool {p} i f at v =
    let (m, s) = v.holder i f (ap holds at) in
    record {
      own = v.own;
      mains = v.mains;
      holder = λ j g h. ground (arith, v.holder j g, m);
      held = λ j g h.
          moved-Owns p i looking j g (λ q. absurd (ground (arith, q, at, h)))
            (v.held j g (ground (arith, h)));
      separate = λ j g h q. ground (arith, v.separate j g, h, q);
      idle = λ j g q. ground (arith, v.idle j g q, v.separate i f (ap holds at), m, at);
      free = λ g lt st h o. ground (arith, v.free g lt st, s, at, o);
      known = λ j g h. ground (arith, v.known j g);
      tasks = v.tasks;
      core = moved p i looking v (core_in i at v);
      root = moved_root i looking (ap is_apart at) refl v;
    }

-- What new_fiber and main_fiber write.
abbrev new_entry : ℕ → Option Callback → ℕ → Bool → Fiber
new_entry f cb stacksize run_in_scheduler = record {
  stacksize = if stacksize == 0 then 128000 else stacksize % 2 ^ 32;
  state = ready;
  ctx = some (stack_of f);
  has_stack = true;
  cb = cb;
  run_in_scheduler = run_in_scheduler;
}

abbrev main_entry : Bool → Fiber
main_entry garbage = record {
  stacksize = 0;
  state = running;
  ctx = some thread_stack;
  has_stack = false;
  cb = none;
  run_in_scheduler = garbage;
}

pub make-IsPool :
    {p : Pool} (i : ℕ) (cb : Option Callback) (stacksize : ℕ) (run_in_scheduler : Bool)
    → IsPool p
    → IsPool (share p (new_fiber (view p i) cb stacksize run_in_scheduler))
unfolding new_fiber
make-IsPool {p} i cb n r v = grown-IsPool (new_entry p.fresh cb n r) refl refl v

pub fresh_fits :
    {p : Pool} (x : Fiber) → IsPool p → x.run_in_scheduler ≡ true → fits (grown p x) p.fresh ≡ true
fresh_fits {p} x v h = elim (Option-cases p.root) [
  | inl e ↦ rw e refl
  | inr ((r, s), e) ↦ ground (arith, e, h, (v.root r s e).below)
]

-- The idle fiber is made at the top of run().
pub with_idle-IsPool :
    {p : Pool} (i : ℕ) (idle : Callback)
    → p.places i ≡ looking
    → p.idles i ≡ none
    → IsPool p
    → IsPool (with_idle p i idle)
unfolding new_fiber
with_idle-IsPool {p} i idle at new v =
    let x = new_entry p.fresh (some idle) 0 true in
    adopt-IsPool {p = grown p x} i p.fresh at (unlocked v) new
      (omega arith, ground arith, fresh_fits x v refl) (ground arith) (grown-IsPool x refl refl v)

pub begin-IsPool :
    {p : Pool} (i : ℕ) (garbage : Bool) (idle : Callback)
    → p.places i ≡ starting
    → IsPool p
    → IsPool (with_idle (write_back p i (get_this garbage (view p i)).0 looking) i idle)
unfolding get_this main_fiber
begin-IsPool {p} i garbage idle at v =
    with_idle-IsPool i idle (ground arith) (ground (arith, (core_in i at v).1)) (
      rw (core_in i at v).0 (
        walk-IsPool i looking _ (ap holds at) refl (ap is_apart at) refl (ap is_idling at) refl
          (λ f h. cc) at_looking joined))
  where
    joined : IsPool (grown p (main_entry garbage))
    joined = grown-IsPool (main_entry garbage) refl refl v

    at_looking :
        (j : ℕ)
        → IsAt
            (grown p (main_entry garbage))
            j
            (update p.places i looking j)
            (update p.cores i (core_at looking p.fresh p.fresh thread_stack) j)
    at_looking =
        moved_core (grown p (main_entry garbage)) (grown p (main_entry garbage)) i looking
          (core_at looking p.fresh p.fresh thread_stack) joined
          (Grows-refl (grown p (main_entry garbage))) (λ j e. refl)
          (record {
            main = p.fresh;
            sched = p.fresh;
            known = (omega arith, ground arith);
            home = inl refl;
            core = ground arith;
          })

pub schedule-IsPool :
    {p : Pool} (t : ScheduleTask)
    → IsKnown p t.fiber
    → IsPool p
    → IsPool (record p { sched = schedule_lock p.sched t })
schedule-IsPool {p} t k v =
    requeue-IsPool (schedule_lock p.sched t)
      (subst (AllKnown p) (sym (schedule_lock-Scheduled p.sched t).queue) queued) v
  where
    queued : AllKnown p (if has_work t then p.sched.tasks ++ t ∷ [] else p.sched.tasks)
    queued =
        elim (has_work t)
          as (λ b. AllKnown p (if b then p.sched.tasks ++ t ∷ [] else p.sched.tasks)) [
            | true ↦ AllKnown-append p p.sched.tasks (t ∷ []) v.tasks (k, tt)
            | false ↦ v.tasks
          ]

TaskKnown : Pool → Option ScheduleTask → Type 0
TaskKnown p none = Unit
TaskKnown p (some t) = IsKnown p t.fiber

Picked-known :
    (p : Pool) {i : ℕ} {ts rest : List ScheduleTask} {o : Option ScheduleTask}
    → Picked i ts o rest
    → AllKnown p ts
    → TaskKnown p o × AllKnown p rest
unfolding TaskKnown
Picked-known p (nothing all) a = (tt, a)
Picked-known p (taken before t after e all own) a =
    let (b, (k, c)) = AllKnown-split p before (t ∷ after) (subst (AllKnown p) e a) in
    (k, AllKnown-append p before after b c)

after_take-IsPool :
    {p : Pool} (i : ℕ) (f : Option ℕ) (cb : Option Callback)
    → p.places i ≡ looking
    → IsKnown p f
    → IsPool p
    → IsPool (after_take p i f cb)
unfolding new_fiber
after_take-IsPool {p} i (some f) cb at k v =
    walk-IsPool i (locking f) p.cores (ap holds at) refl (ap is_apart at) refl (ap is_idling at)
      refl (λ g h. ground (arith, h, k)) (moved p i (locking f) v (core_in i at v)) v
after_take-IsPool {p} i none (some cb) at k v =
    let x = new_entry p.fresh (some cb) 0 true in
    let joined : IsPool (grown p x) = grown-IsPool x refl refl v in
    acquire-IsPool i p.fresh (entering p.fresh) (ap holds at) (ap is_apart at) (ap is_idling at)
      (unlocked v) refl refl (omega arith, ground arith, fresh_fits x v refl) (ground arith)
      (core_in i at joined) joined
after_take-IsPool i none none at k v = v

pub take-IsPool : {p : Pool} (i : ℕ) → p.places i ≡ looking → IsPool p → IsPool (take p i)
unfolding TaskKnown
take-IsPool {p} i at v =
    took (take_task p.sched i).1 (Picked-known p (take_task-Taken p.sched i).picked v.tasks)
  where
    took :
        (o : Option ScheduleTask)
        → TaskKnown p o × AllKnown p (take_task p.sched i).0.tasks
        → IsPool (elim o [
          | none ↦ record (move p i resting) { sched = (take_task p.sched i).0 }
          | some t ↦ after_take (record p { sched = (take_task p.sched i).0 }) i t.fiber t.cb
        ])
    took none (_, a) = requeue-IsPool {p = move p i resting} (take_task p.sched i).0 a (
        walk-IsPool i resting p.cores (ap holds at) refl (ap is_apart at) refl (ap is_idling at)
          refl (λ g h. cc) (moved p i resting v (core_in i at v)) v)
    took (some t) (k, a) =
        after_take-IsPool i t.fiber t.cb at k (requeue-IsPool (take_task p.sched i).0 a v)
