-- ===== src/Idle/Turn.antt =====
-- code/ioscheduler.cpp: what a turn of idle() does with the timers that are due and the events.
use tiny_coroutine.Base.{
  ℕ, ◌+◌, ◌*◌, ◌≤◌, ◌<◌, ◌≡◌, refl, true, Option, some, List, ◌++◌, sym, ap, ◌∙◌, length, contains,
  subst,
}
use tiny_coroutine.Callback.{Callback}
use tiny_coroutine.Result.{Result, done, abort, Returns}
use tiny_coroutine.Timer.{TimerManager, next_of, milliseconds, list_expire_cb}
use tiny_coroutine.Timer.Expire.{IsPaced, expired_cbs, list_expire_cb_due}
use tiny_coroutine.Scheduler.{ScheduleTask}
use tiny_coroutine.IoManager.{Kernel}
use tiny_coroutine.IoManager.Valid.{IsValid}
use tiny_coroutine.Idle.{Manager, Ready, schedule_cbs, handle_all, turn}
use tiny_coroutine.Idle.Queues.{
  tasks_of, schedule_cbs-IsValid, schedule_cbs_kept, schedule_cbs-tasks,
}
use tiny_coroutine.Idle.Reported.{IsReported, IsReported-same, Handles, handle_all-Handles}
use tiny_coroutine.Timer.History.{list_expire_cb-IsValid}

Returns-done {ℓ} :
    {A : Type ℓ} (P : A → Type 0) (r : Result A) → Returns P r → (a : A) × (r ≡ done a) × P a
Returns-done P (done a) p = (a, refl, p)
Returns-done P abort p = absurd p

turn_run :
    (kernel : Kernel) (fuel : ℕ) (m : Manager) (now detected : ℕ) (ready : List Ready)
    (timers : TimerManager) (cbs : List (Option Callback))
    → list_expire_cb fuel m.timers now detected ≡ some (timers, cbs)
    → turn kernel fuel m now detected ready
      ≡ some (handle_all kernel (schedule_cbs (record m { timers = timers }) cbs) ready)
unfolding turn
turn_run kernel fuel m now detected ready timers cbs run = rw (run, turn)

-- What a turn of idle() comes to.
pub record Turned (kernel : Kernel) (m : Manager) (now : ℕ) (m' : Manager) : Type 0 where
  pub io_valid : IsValid m'.io
  pub timers_valid : package.tiny_coroutine.Timer.Valid.IsValid m'.timers
  pub later : (j : ℕ) → contains j m'.timers.timers ≡ true → now < next_of m'.timers j
  pub queue :
      (more : List ScheduleTask) × ((m'.io.schedulers m.self).tasks
        ≡ ((m.io.schedulers m.self).tasks
            ++ tasks_of (expired_cbs now m.timers.heap m.timers.timers))
          ++ more)

-- A turn of idle() on a valid state, with timers that have a period if they recur, while the clock does
-- not run back by more than an hour, and with events of which each descriptor has at most one, with a
-- context and registered events only: it needs no more rounds than there are timers, runs into no
-- assertion, and keeps events and timers valid. The functions of all timers that are due go to the end
-- of the queue, by rising deadline, ahead of what the events add; the timers left are due later.
pub turn-Turned :
    (kernel : Kernel) (fuel : ℕ) (m : Manager) (now detected : ℕ) (ready : List Ready)
    → IsValid m.io
    → package.tiny_coroutine.Timer.Valid.IsValid m.timers
    → IsPaced m.timers
    → m.timers.pre_time ≤ detected + milliseconds (60 * 60 * 1000)
    → length m.timers.timers < fuel
    → IsReported m.io ready
    → (m' : Manager) × (turn kernel fuel m now detected ready ≡ some (done m'))
      × Turned kernel m now m'
turn-Turned kernel fuel m now detected ready v tv paced steady enough reported =
    let (timers, run, later) =
      list_expire_cb_due fuel m.timers now detected tv paced steady enough in
    let cbs = expired_cbs now m.timers.heap m.timers.timers in
    let m1 = record m { timers = timers } in
    let m2 = schedule_cbs m1 cbs in
    let (contexts, size, same_timers, same_self) = schedule_cbs_kept cbs m1 in
    let (m', done', h) = Returns-done (Handles m2) (handle_all kernel m2 ready) (
      handle_all-Handles kernel ready m2 (schedule_cbs-IsValid cbs m1 v)
        (IsReported-same m.io m2.io ready size contexts reported)) in
    let kept : m'.timers ≡ timers = h.timers ∙ same_timers in
    let (more, e) = h.extends m.self in
    (
      m',
      turn_run kernel fuel m now detected ready timers cbs run ∙ ap (λ r. some r) done',
      record {
        io_valid = h.valid;
        timers_valid =
            subst package.tiny_coroutine.Timer.Valid.IsValid (sym kept)
              (list_expire_cb-IsValid fuel now detected m.timers timers cbs tv run);
        later =
            subst (λ (t : TimerManager). (j : ℕ) → contains j t.timers ≡ true → now < next_of t j)
              (sym kept) later;
        queue = (more, e ∙ ap (λ l. l ++ more) (schedule_cbs-tasks cbs m1));
      },
    )
