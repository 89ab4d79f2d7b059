-- ===== src/Idle/Stop.antt =====
-- code/scheduler.cpp and code/ioscheduler.cpp: stop() on an IOManager, and what it takes for its threads to
-- end.
use tiny_coroutine.Base.{
  ℕ, ◌≤◌, ◌<◌, ◌≡◌, ◌^◌, Option, some, ◌↔◌, ap, sym, subst, ◌∙◌, true, [], arith, sum_below-zero,
  if◌then◌else◌, Bool-cases, inl, inr,
}
use tiny_coroutine.OrderedSet.{IsOrdered}
use tiny_coroutine.Timer.{milliseconds, next_of, get_next_timer}
use tiny_coroutine.Scheduler.{Scheduler, begin_stop, delete_scheduler}
use tiny_coroutine.Scheduler.End.{forgotten}
use tiny_coroutine.IoManager.Mask
use tiny_coroutine.IoManager.Mask.{EventMask, empty_mask}
use tiny_coroutine.IoManager.Handled.{same-IsValid}
use tiny_coroutine.Idle.{Manager, with_scheduler, stopping}
use tiny_coroutine.Scheduler.Safety.{begin_stop-Flagged}
use tiny_coroutine.Idle.Wait.{stopping_drained}

-- Scheduler::stop on an IOManager, whose stopping() is IOManager::stopping, without the run of
-- m_schedulerFiber and the joins.
unfoldable pub stop_manager : Manager → ℕ → Manager
unfolding stopping
stop_manager m now =
    let (m', over) = stopping m now in
    if over then m' else with_scheduler m' (begin_stop (m'.io.schedulers m'.self))

-- IOManager::~IOManager behind stop(): the pipe, the epoll instance and the contexts are given up, and so
-- is the manager, but for the t_scheduler `this` of the thread.
abbrev pub delete_manager : Manager → Option ℕ → Option (Option ℕ)
delete_manager m this = delete_scheduler (m.io.schedulers m.self) m.self this

-- What keeps the threads of a manager: nothing waits, is scheduled or runs.
pub record IsDrained (m : Manager) : Type 0 where
  pub timers : m.timers.timers ≡ []
  pub events : (fd : ℕ) → fd < m.io.size → (m.io.contexts fd).events ≡ empty_mask
  pub tasks : (m.io.schedulers m.self).tasks ≡ []
  pub active : (m.io.schedulers m.self).active_thread_cnt ≡ 0

-- What stop() leaves as it was.
record Stopped (m m' : Manager) : Type 0 where
  self : m'.self ≡ m.self
  contexts : m'.io.contexts ≡ m.io.contexts
  size : m'.io.size ≡ m.io.size
  pending : m'.io.pending_event_cnt ≡ m.io.pending_event_cnt
  timers : m'.timers.timers ≡ m.timers.timers
  heap : m'.timers.heap ≡ m.timers.heap
  fresh : m'.timers.fresh ≡ m.timers.fresh
  requests : m'.io.requests ≡ m.io.requests
  tasks : (m'.io.schedulers m'.self).tasks ≡ (m.io.schedulers m.self).tasks
  active : (m'.io.schedulers m'.self).active_thread_cnt ≡ (m.io.schedulers m.self).active_thread_cnt
  flag : (m'.io.schedulers m'.self).stopping ≡ true

-- Where nothing waits, is scheduled or runs, and stop() was called, stopping() answers true.
drained-stopping :
    (m : Manager) (now : ℕ)
    → package.tiny_coroutine.IoManager.Valid.IsValid m.io
    → IsDrained m
    → (m.io.schedulers m.self).stopping ≡ true
    → (stopping m now).1 ≡ true
unfolding stopping package.tiny_coroutine.Scheduler.stopping get_next_timer
drained-stopping m now v d flag =
    let pending : m.io.pending_event_cnt ≡ 0 =
      v.pending
      ∙ sum_below-zero (λ fd. Mask.size (m.io.contexts fd).events) m.io.size
          (λ fd lt. ap Mask.size (d.events fd lt)) in
    ground (arith, d.timers, pending, d.tasks, d.active, flag)

stop_manager-Stopped : (m : Manager) (now : ℕ) → Stopped m (stop_manager m now)
unfolding stop_manager stopping package.tiny_coroutine.Scheduler.stopping get_next_timer
stop_manager-Stopped m now = elim (Bool-cases (stopping m now).1) [
  | inl over ↦ ground (arith, over)
  | inr goes_on ↦ ground (arith, goes_on, begin_stop-Flagged (m.io.schedulers m.self))
]

-- After stop(), without the run of m_schedulerFiber and the joins, on an IOManager with valid events
-- and timers, whose deadlines lie below 2^63 nanoseconds: stopping() answers true, which is what
-- ends idle(), exactly if there is no timer in the set, no event is registered, the queue is empty
-- and no thread has a task.
pub stop_lets_end :
    (m : Manager) (now later : ℕ)
    → package.tiny_coroutine.IoManager.Valid.IsValid m.io
    → package.tiny_coroutine.Timer.Valid.IsValid m.timers
    → ((j : ℕ) → next_of m.timers j < 2 ^ 63)
    → ((stopping (stop_manager m now) later).1 ≡ true) ↔ IsDrained m
stop_lets_end m now later v tv below = (
  λ h.
      let (timers, events, tasks, active, _) =
        stopping_drained m' later v' tv'
          (λ j. subst (λ heap. (heap j).next < 2 ^ 63) (sym s.heap) (below j)) h in
      record {
        timers = sym s.timers ∙ timers;
        events = λ fd lt. ground (arith, s.contexts, events fd (rw s.size lt));
        tasks = sym s.tasks ∙ tasks;
        active = sym s.active ∙ active;
      },
  λ d.
      drained-stopping m' later v'
        (record {
          timers = s.timers ∙ d.timers;
          events = λ fd lt. ground (arith, s.contexts, d.events fd (rw s.size at lt));
          tasks = s.tasks ∙ d.tasks;
          active = s.active ∙ d.active;
        })
        s.flag,
)
  where
    m' : Manager
    m' = stop_manager m now

    s : Stopped m m'
    s = stop_manager-Stopped m now

    v' : package.tiny_coroutine.IoManager.Valid.IsValid m'.io
    v' = same-IsValid m.io m'.io s.contexts s.size s.pending s.requests v

    tv' : package.tiny_coroutine.Timer.Valid.IsValid m'.timers
    tv' = record {
      ordered =
          rw s.timers (
            subst (λ heap. IsOrdered (λ j. (heap j).next) m.timers.timers) (sym s.heap) tv.ordered);
      allocated = λ j h. rw s.fresh (tv.allocated j (rw s.timers at h));
      started =
          λ j. subst (λ heap. milliseconds (heap j).ms ≤ (heap j).next) (sym s.heap) (tv.started j);
    }

-- Where IOManager::stopping answers true, the destructor passes the assertion of ~Scheduler, and leaves
-- no t_scheduler that names the manager.
pub stopped_deletes :
    (m : Manager) (now : ℕ) (this : Option ℕ)
    → (stopping m now).1 ≡ true
    → delete_manager m this ≡ some (forgotten m.self this)
unfolding stopping delete_scheduler package.tiny_coroutine.Scheduler.stopping
stopped_deletes m now this h = ground (arith, h)
