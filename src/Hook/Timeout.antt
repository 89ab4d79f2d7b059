-- ===== src/Hook/Timeout.antt =====
-- code/hook.cpp: how a wait with a timeout begins and ends.
use tiny_coroutine.Base.{
  ℕ, ◌<◌, ◌≡◌, ◌≢◌, refl, ap, ◌∙◌, Bool, true, false, Option, none, some, [], ◌∷◌, ◌++◌, arith,
  lt→ltb, update,
}
use tiny_coroutine.Callback.{on_timer, expire, Event, no_event, read, write}
use tiny_coroutine.Result.{Result, done, returned}
use tiny_coroutine.Scheduler.{fiber_task, schedule_lock}
use tiny_coroutine.Scheduler.Queue.{schedule_lock-Scheduled}
use tiny_coroutine.IoManager.Mask.{has}
use tiny_coroutine.IoManager.Context.{FdContext}
use tiny_coroutine.IoManager.{
  IoManager, Kernel, Caller, ask, removal, filled_context, add_event, cancel_event,
}
use tiny_coroutine.IoManager.Slots.{slot, posted, triggered}
use tiny_coroutine.IoManager.Removal.{removes, cancel_event-Removed}
use tiny_coroutine.Hook.Io.{error, etimedout}
use tiny_coroutine.Hook.Wait.{Process, with_io, end_wait, run_expire, run_callback}

-- Fiber `f` waits for an event, on the scheduler `s`.
abbrev pub IsWaiting : IoManager → ℕ → Event → ℕ → ℕ → Type 0
IsWaiting m fd event s f =
    (fd < m.size)
    × (has (m.contexts fd).events event ≡ true)
    × (slot (m.contexts fd) event ≡ record { scheduler = some s; fiber = some f; cb = none })

-- The fiber of a wait that has timed out is at the end of its queue, once, and no event is left.
pub record TimedOut (p : Process) (info fd : ℕ) (event : Event) (s f : ℕ) (p' : Process)
    : Type 0 where
  pub valid : package.tiny_coroutine.IoManager.Valid.IsValid p'.manager.io
  pub marked : p'.infos info ≡ some true
  pub free : has (p'.manager.io.contexts fd).events event ≡ false
  pub queued :
      (p'.manager.io.schedulers s).tasks
      ≡ (p.manager.io.schedulers s).tasks ++ fiber_task (some f) none ∷ []
  pub others : (i : ℕ) → s ≢ i → p'.manager.io.schedulers i ≡ p.manager.io.schedulers i
  pub timers : p'.manager.timers ≡ p.manager.timers

triggered_free : (c : FdContext) (event : Event) → has (triggered c event).events event ≡ false
triggered_free c no_event = refl
triggered_free c read = refl
triggered_free c write = refl

-- cancelEvent on an event that a fiber waits for.
record Woken (m : IoManager) (fd : ℕ) (event : Event) (s f : ℕ) (m' : IoManager) : Type 0 where
  valid : package.tiny_coroutine.IoManager.Valid.IsValid m'
  free : has (m'.contexts fd).events event ≡ false
  schedulers :
      m'.schedulers
      ≡ update m.schedulers s (schedule_lock (m.schedulers s) (fiber_task (some f) none))

cancel_event-Woken :
    (kernel : Kernel) (m : IoManager) (fd : ℕ) (event : Event) (s f : ℕ)
    → package.tiny_coroutine.IoManager.Valid.IsValid m
    → IsWaiting m fd event s f
    → ask kernel m (removal (m.contexts fd) fd event) ≡ true
    → (r : IoManager × Bool) × (cancel_event kernel m fd event ≡ done r) × Woken m fd event s f r.0
cancel_event-Woken kernel m fd event s f v (lt, old, waiting) taken =
    let (r, e, (a, q, _)) =
      returned _ (cancel_event kernel m fd event) (cancel_event-Removed kernel m fd event v) in
    let passes : removes kernel m fd event v ≡ true = ground (arith, lt→ltb _ _ lt, old, taken) in
    (
      r,
      e,
      record {
        valid = a.valid;
        free = ground (arith, a.contexts fd, passes, triggered_free (m.contexts fd) event);
        schedulers = q ∙ rw passes (ap (posted m.schedulers) waiting);
      },
    )

-- On valid events, where a fiber waits for an event, epoll_ctl takes the removal, and the wait's
-- timer_info is there and not cancelled: the call of the condition timer's function returns and
-- takes the event off. It puts the fiber at the end of the queue of its scheduler, leaves the other
-- schedulers and the timers, and the wait then ends with ETIMEDOUT.
pub timer_wakes_waiting :
    (kernel : Kernel) (users : ℕ → Process → Result Process) (p : Process) (info fd : ℕ)
    (event : Event) (s f : ℕ) (t : Option ℕ)
    → package.tiny_coroutine.IoManager.Valid.IsValid p.manager.io
    → IsWaiting p.manager.io fd event s f
    → ask kernel p.manager.io (removal (p.manager.io.contexts fd) fd event) ≡ true
    → p.infos info ≡ some false
    → (p' : Process) × (run_callback kernel users p (on_timer info (expire info fd event))
        ≡ done p')
      × TimedOut p info fd event s f p'
      × ((end_wait p' info t).1 ≡ some (error etimedout))
unfolding run_callback run_expire end_wait
timer_wakes_waiting kernel users p info fd event s f t v w taken fresh =
    let (r, e, o) = cancel_event-Woken kernel p.manager.io fd event s f v w taken in
    (
      record (with_io p r.0) { infos = update p.infos info (some true) },
      ground (arith, fresh, e),
      record {
        valid = o.valid;
        marked = ground arith;
        free = o.free;
        queued = ground (
          arith,
          o.schedulers,
          (schedule_lock-Scheduled (p.manager.io.schedulers s) (fiber_task (some f) none)).queue,
        );
        others = λ i ne. ground (arith, o.schedulers);
        timers = refl;
      },
      ground arith,
    )

-- Where the event of a wait has come and its timer_info is not cancelled: the call of the condition
-- timer's function changes no event, timer or queue, but the wait then ends with ETIMEDOUT all the
-- same.
pub late_timer_fails :
    (kernel : Kernel) (users : ℕ → Process → Result Process) (p : Process) (info fd : ℕ)
    (event : Event) (t : Option ℕ)
    → has (p.manager.io.contexts fd).events event ≡ false
    → p.infos info ≡ some false
    → (p' : Process) × (run_callback kernel users p (on_timer info (expire info fd event))
        ≡ done p')
      × (p'.manager ≡ p.manager)
      × ((end_wait p' info t).1 ≡ some (error etimedout))
unfolding run_callback run_expire end_wait cancel_event
late_timer_fails kernel users p info fd event t gone fresh = (
  record p { infos = update p.infos info (some true) },
  ground (arith, gone, fresh),
  refl,
  ground arith,
)
