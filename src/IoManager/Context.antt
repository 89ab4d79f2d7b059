-- ===== src/IoManager/Context.antt =====
-- IOManager::FdContext of code/ioscheduler.h and its methods of code/ioscheduler.cpp.
use tiny_coroutine.Base.{ℕ, Bool, ◌&&◌, not, Option, none, some, if◌then◌else◌, is_some, update}
use tiny_coroutine.Callback.{Callback, Event, no_event, read, write}
use tiny_coroutine.Scheduler.{Scheduler, ScheduleTask, fiber_task, cb_task, schedule_lock}
use tiny_coroutine.IoManager.Mask.{EventMask, empty_mask, has, without}
use tiny_coroutine.Result.{Result, done, abort, assert, ◌>>=◌, ◌>>◌}

pub record EventContext : Type 0 where
  pub scheduler : Option ℕ
  pub fiber : Option ℕ
  pub cb : Option Callback

-- What resetEventContext leaves.
abbrev pub empty_context : EventContext
empty_context = record { scheduler = none; fiber = none; cb = none }

pub record FdContext : Type 0 where
  pub reader : EventContext
  pub writer : EventContext
  pub fd : ℕ
  pub events : EventMask

-- `new FdContext()` with its `fd` set.
abbrev pub new_fd_context : ℕ → FdContext
new_fd_context i = record {
  reader = empty_context;
  writer = empty_context;
  fd = i;
  events = empty_mask;
}

-- FdContext::getEventContext; it asserts that the event is READ or WRITE.
abbrev pub get_event_context : FdContext → Event → Result EventContext
get_event_context c no_event = abort
get_event_context c read = done c.reader
get_event_context c write = done c.writer

-- A write through the reference that getEventContext returns.
abbrev pub set_event_context : FdContext → Event → EventContext → FdContext
set_event_context c no_event ctx = c
set_event_context c read ctx = record c { reader = ctx }
set_event_context c write ctx = record c { writer = ctx }

-- !event_ctx.scheduler && !event_ctx.fiber && !event_ctx.cb
abbrev pub is_clear : EventContext → Bool
is_clear ctx = not (is_some ctx.scheduler) && not (is_some ctx.fiber) && not (is_some ctx.cb)

-- The task that triggerEvent schedules.
abbrev pub task_of : EventContext → ScheduleTask
task_of ctx = if is_some ctx.cb then cb_task ctx.cb none else fiber_task ctx.fiber none

-- ctx.scheduler->scheduleLock(…)
abbrev pub schedule_on : Option ℕ → (ℕ → Scheduler) → ScheduleTask → Result (ℕ → Scheduler)
schedule_on none schedulers task = abort
schedule_on (some s) schedulers task =
    done (update schedulers s (schedule_lock (schedulers s) task))

-- FdContext::triggerEvent.
unfoldable pub trigger_event :
    FdContext → (ℕ → Scheduler) → Event → Result (FdContext × (ℕ → Scheduler))
trigger_event c schedulers event = do
  let c' = record c { events = without c.events event }
  assert (has c.events event)
  ctx ← get_event_context c' event
  schedulers' ← schedule_on ctx.scheduler schedulers (task_of ctx)
  done (set_event_context c' event empty_context, schedulers')
