-- ===== src/Hook/Wait.antt =====
-- code/hook.cpp: the wait of do_io and connect_with_timeout over the timers and events of an IOManager;
-- and the functions that the library itself gives to timers.
--
-- A timer_info is named by a number: `infos` has its `cancelled`, as whether it is ETIMEDOUT, and `none`
-- once it is gone, when its weak pointers are empty.
use tiny_coroutine.Base.{ℕ, Bool, true, false, Option, none, some, ◌==◌, if◌then◌else◌, update}
use tiny_coroutine.Callback.{Callback, user, on_timer, wake, expire, Event}
use tiny_coroutine.Result.{Result, done, ◌>>=◌}
use tiny_coroutine.FdManager.{no_timeout}
use tiny_coroutine.Timer.{cancel}
use tiny_coroutine.Scheduler.{fiber_task, schedule_lock}
use tiny_coroutine.IoManager.{IoManager, Kernel, Caller, add_event, cancel_event}
use tiny_coroutine.Idle.{Manager, add_manager_timer, with_scheduler}
use tiny_coroutine.Hook.Io.{Answer, error, etimedout}

pub record Process : Type 0 where
  pub manager : Manager
  pub infos : ℕ → Option Bool

abbrev pub with_io : Process → IoManager → Process
with_io p io = record p { manager = record (p.manager) { io = io } }

-- timer->cancel(), if there is a timer.
unfoldable pub drop_timer : Process → Option ℕ → Process
drop_timer p none = p
drop_timer p (some t) = record p {
  manager = record (p.manager) { timers = (cancel p.manager.timers t).0 };
}

-- The condition timer, if there is a timeout.
unfoldable pub set_timer : Process → ℕ → ℕ → Event → ℕ → ℕ → Process × Option ℕ
set_timer p info fd event timeout now =
    let (m, t) =
      add_manager_timer p.manager timeout (some (on_timer info (expire info fd event))) false now in
    if timeout == no_timeout then (p, none) else (record p { manager = m }, some t)

-- From the first EAGAIN up to yield(), or to the return where addEvent fails. The result says whether
-- the fiber waits.
unfoldable pub start_wait :
    Kernel → Process → ℕ → ℕ → Event → ℕ → Caller → ℕ → Result (Process × Option ℕ × Bool)
unfolding set_timer drop_timer
start_wait kernel p info fd event timeout caller now =
    let (p', t) = set_timer p info fd event timeout now in
    add_event kernel p'.manager.io fd event caller none >>= λ r.
    if r.1 then done (with_io p' r.0, t, true) else done (drop_timer (with_io p' r.0) t, t, false)

-- What the fiber does when it goes on: its answer, or none where it tries again.
unfoldable pub end_wait : Process → ℕ → Option ℕ → Process × Option Answer
unfolding drop_timer
end_wait p info t = (
  drop_timer p t,
  elim (p.infos info) [ some true ↦ some (error etimedout) | some false ↦ none | none ↦ none ],
)

-- The function of the condition timer, behind the lock of its weak pointer.
unfoldable pub run_expire : Kernel → Process → ℕ → ℕ → Event → Result Process
run_expire kernel p info fd event = elim (p.infos info) [
  | none ↦ done p
  | some true ↦ done p
  | some false ↦ cancel_event kernel p.manager.io fd event >>= λ r.
      done (record (with_io p r.0) { infos = update p.infos info (some true) })
]

-- The call of a function that a timer has; `users` is what those of the users do.
unfoldable pub run_callback :
    Kernel → (ℕ → Process → Result Process) → Process → Callback → Result Process
unfolding run_expire
run_callback kernel users p (user n) = users n p
run_callback kernel users p (wake fiber) =
    let m = p.manager in
    done (record p {
      manager =
          with_scheduler m (schedule_lock (m.io.schedulers m.self) (fiber_task (some fiber) none));
    })
run_callback kernel users p (expire info fd event) = run_expire kernel p info fd event
run_callback kernel users p (on_timer weak_cond cb) =
    let rest = run_callback kernel users p cb in
    elim (p.infos weak_cond) [ none ↦ done p | some c ↦ rest ]
