-- ===== src/Idle.antt =====
-- code/ioscheduler.cpp: idle() as a whole, over the events, the timers and the schedulers of one
-- IOManager; stopping() and onTimerInsertedAtFront().
--
-- The readings of the clock and the answers of epoll_wait are arguments, in the order in which idle()
-- meets them.
pub mod Wait
pub mod Queues
pub mod Reported
pub mod Turn
pub mod Loop
pub mod Lifecycle
pub mod Stop
pub mod Tests
use tiny_coroutine.Base.{
  ℕ, zero, suc, ◌+◌, ◌-◌, ◌*◌, ◌^◌, Bool, true, false, ◌&&◌, Option, none, some, List, [], ◌∷◌,
  ◌==◌, if◌then◌else◌, update, min,
}
use tiny_coroutine.Callback.{Callback}
use tiny_coroutine.Result.{Result, done, abort, ◌>>=◌}
use tiny_coroutine.Timer.{TimerManager, add_timer, get_next_timer, list_expire_cb, no_timer}
use tiny_coroutine.Scheduler.{Scheduler, cb_task, schedule_lock, tickle}
use tiny_coroutine.IoManager.{IoManager, Kernel, EpollEvents, handle_event}

-- The IOManager as the three classes that it is; `self` names it among the schedulers.
pub record Manager : Type 0 where
  pub io : IoManager
  pub timers : TimerManager
  pub self : ℕ

-- The schedulers after a change of this one.
abbrev pub with_scheduler : Manager → Scheduler → Manager
with_scheduler m s = record m {
  io = record (m.io) { schedulers = update m.io.schedulers m.self s };
}

-- onTimerInsertedAtFront.
abbrev pub on_timer_inserted_at_front : Manager → Manager
on_timer_inserted_at_front m = with_scheduler m (tickle (m.io.schedulers m.self))

-- addTimer on an IOManager, with its call of onTimerInsertedAtFront.
unfoldable pub add_manager_timer : Manager → ℕ → Option Callback → Bool → ℕ → Manager × ℕ
unfolding add_timer tickle
add_manager_timer m ms cb recurring now =
    let (timers, t, at_front) = add_timer m.timers ms cb recurring now in
    let m' = record m { timers = timers } in
    (if at_front then on_timer_inserted_at_front m' else m', t)

-- IOManager::stopping.
unfoldable pub stopping : Manager → ℕ → Manager × Bool
unfolding get_next_timer package.tiny_coroutine.Scheduler.stopping
stopping m now =
    let (timers, timeout) = get_next_timer m.timers now in
    (
      record m { timers = timers },
      timeout == no_timer
          && m.io.pending_event_cnt == 0
          && package.tiny_coroutine.Scheduler.stopping (m.io.schedulers m.self),
    )

-- MAX_TIMEOUT
abbrev pub max_timeout : ℕ
max_timeout = 5000

-- The timeout of one call of epoll_wait.
unfoldable pub wait_time : TimerManager → ℕ → TimerManager × ℕ
unfolding get_next_timer
wait_time timers now =
    let (timers', next) = get_next_timer timers now in (timers', min next max_timeout)

-- The loop around epoll_wait: the tries that a signal interrupts, and the one that is not.
unfoldable pub wait : TimerManager → List ℕ → ℕ → TimerManager × List ℕ
unfolding wait_time
wait timers [] now = let (timers', timeout) = wait_time timers now in (timers', timeout ∷ [])
wait timers (reading ∷ readings) now =
    let (timers', timeout) = wait_time timers reading in
    let (timers'', timeouts) = wait timers' readings now in (timers'', timeout ∷ timeouts)

-- An epoll_event: of the pipe, or of a descriptor.
pub data Ready : Type 0 where
  on_pipe : Ready
  on_fd : ℕ → EpollEvents → Ready

-- scheduleLock of the callbacks of the timers, one by one.
unfoldable pub schedule_cbs : Manager → List (Option Callback) → Manager
schedule_cbs m [] = m
schedule_cbs m (cb ∷ cbs) =
    schedule_cbs (with_scheduler m (schedule_lock (m.io.schedulers m.self) (cb_task cb none))) cbs

-- The body of the loop over the events: the pipe is emptied, and an event of a descriptor handled.
unfoldable pub handle_ready : Kernel → Manager → Ready → Result Manager
handle_ready kernel m on_pipe =
    done (with_scheduler m (record (m.io.schedulers m.self) { pipe = 0 }))
handle_ready kernel m (on_fd fd e) = do
  io ← handle_event kernel m.io fd e
  done (record m { io = io })

unfoldable pub handle_all : Kernel → Manager → List Ready → Result Manager
unfolding handle_ready
handle_all kernel m [] = done m
handle_all kernel m (r ∷ rs) = do m' ← handle_ready kernel m r; handle_all kernel m' rs

-- What idle() does between epoll_wait and yield(); `none` where the fuel of listExpireCb runs out.
unfoldable pub turn : Kernel → ℕ → Manager → ℕ → ℕ → List Ready → Option (Result Manager)
unfolding schedule_cbs handle_all
turn kernel fuel m now later ready = elim (list_expire_cb fuel m.timers now later) [
  | none ↦ none
  | some (timers, cbs) ↦
      some (handle_all kernel (schedule_cbs (record m { timers = timers }) cbs) ready)
]

-- The readings of the clock and the events in one round of the loop.
pub record Inputs : Type 0 where
  pub checked : ℕ
  pub interrupted : List ℕ
  pub waiting : ℕ
  pub expiring : ℕ
  pub detected : ℕ
  pub ready : List Ready

-- One round of the loop: it breaks, or waits with some timeouts and comes to its yield().
pub data Round : Type 0 where
  ended : Manager → Round
  waited : List ℕ → Option (Result Manager) → Round

unfoldable pub idle_round : Kernel → ℕ → Manager → Inputs → Round
unfolding stopping wait turn
idle_round kernel fuel m i =
    let (m', over) = stopping m i.checked in
    let (timers, timeouts) = wait m'.timers i.interrupted i.waiting in
    if over
    then ended m'
    else waited timeouts
        (turn kernel fuel (record m' { timers = timers }) i.expiring i.detected i.ready)
