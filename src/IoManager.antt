-- ===== src/IoManager.antt =====
-- code/ioscheduler.h and code/ioscheduler.cpp: the events of file descriptors, and idle().
--
-- A scheduler is named by a number, and `schedulers` holds what they point to. The kernel is the
-- argument `kernel`: it answers an epoll_ctl request by whether it succeeds, knowing all requests
-- made before, which the state keeps with their answers in `requests`, newest first. A failed
-- assertion, a null pointer or an access past the end of a vector is `abort`.
pub mod Mask
pub mod Context
pub mod Valid
pub mod Slots
pub mod Events
pub mod Removal
pub mod Ready
pub mod Handled
pub mod Stale
pub mod CancelAll
pub mod Registry
pub mod Refine
pub mod Shrink
pub mod History
pub mod Runs
pub mod Tests
use tiny_coroutine.Base.{
  ℕ, zero, suc, ◌+◌, ◌-◌, ◌*◌, ◌/◌, ◌≡◌, Bool, true, false, ◌&&◌, ◌||◌, not, Option, none, some,
  List, [], ◌∷◌, ltb, leb, ◌==◌, if◌then◌else◌, is_some, update, min,
}
use tiny_coroutine.Callback.{Callback, Event, no_event, read, write}
use tiny_coroutine.Scheduler.{Scheduler, ScheduleTask, fiber_task, cb_task, schedule_lock}
use Mask.{EventMask, empty_mask, has, has_any, with_event, without, meet, minus}
use Context.{
  EventContext, FdContext, empty_context, new_fd_context, get_event_context, set_event_context,
  is_clear, trigger_event,
}
use tiny_coroutine.Result.{Result, done, abort, assert, ◌>>=◌, ◌>>◌}

-- EPOLL_CTL_ADD, EPOLL_CTL_MOD and EPOLL_CTL_DEL.
pub data Op : Type 0 where
  ctl_add ctl_mod ctl_del : Op

-- epoll_ctl(m_epfd, op, fd, …): the events are those besides EPOLLET.
pub record Request : Type 0 where
  pub op : Op
  pub fd : ℕ
  pub events : EventMask

abbrev pub Kernel : Type 0
Kernel = List (Request × Bool) → Request → Bool

pub record IoManager : Type 0 where
  pub contexts : ℕ → FdContext
  pub size : ℕ
  pub pending_event_cnt : ℕ
  pub schedulers : ℕ → Scheduler
  pub requests : List (Request × Bool)

-- What addEvent reads of its thread: Scheduler::GetThis(), Fiber::GetThis() and its state.
pub record Caller : Type 0 where
  pub scheduler : Option ℕ
  pub fiber : ℕ
  pub is_running : Bool

-- contextResize: the contexts past the old size are made anew, those past a smaller size are dropped.
unfoldable pub context_resize : IoManager → ℕ → IoManager
context_resize m size = record m {
  contexts = λ i. if ltb i m.size && ltb i size then m.contexts i else new_fd_context i;
  size = size;
}

-- IOManager::IOManager: 32 contexts.
unfoldable pub init : (ℕ → Scheduler) → IoManager
unfolding context_resize
init schedulers =
    context_resize
      (record {
        contexts = new_fd_context;
        size = 0;
        pending_event_cnt = 0;
        schedulers = schedulers;
        requests = [];
      })
      32

-- An epoll_ctl call: its answer, and the state that has seen it.
abbrev pub ask : Kernel → IoManager → Request → Bool
ask kernel m r = kernel m.requests r

abbrev pub asked : Kernel → IoManager → Request → IoManager
asked kernel m r = record m { requests = (r, kernel m.requests r) ∷ m.requests }

abbrev pub write_context : IoManager → ℕ → FdContext → IoManager
write_context m fd c = record m { contexts = update m.contexts fd c }

-- The section of addEvent under the write lock.
abbrev pub grow : IoManager → ℕ → IoManager
grow m fd = context_resize m (fd * 3 / 2)

-- The first half of addEvent: the context, made if there is none.
abbrev pub reach_context : IoManager → ℕ → IoManager
reach_context m fd = if ltb fd m.size then m else grow m fd

-- What addEvent stores in an event's context.
abbrev pub filled_context : Caller → Option Callback → EventContext
filled_context caller (some f) = record { scheduler = caller.scheduler; fiber = none; cb = some f }
filled_context caller none = record {
  scheduler = caller.scheduler;
  fiber = some caller.fiber;
  cb = none;
}

-- The last half of addEvent, once the kernel has taken the request.
abbrev pub register : IoManager → ℕ → Event → Caller → Option Callback → Result (IoManager × Bool)
register m fd event caller cb = do
  let c = m.contexts fd
  ctx ← get_event_context c event
  assert (is_clear ctx && (is_some cb || caller.is_running))
  done (
    record m {
      pending_event_cnt = m.pending_event_cnt + 1;
      contexts = update m.contexts fd (
          set_event_context (record c { events = with_event c.events event }) event
            (filled_context caller cb));
    },
    true,
  )

-- The request of addEvent.
abbrev pub addition : FdContext → ℕ → Event → Request
addition c fd event = record {
  op = if has_any c.events then ctl_mod else ctl_add;
  fd = fd;
  events = with_event c.events event;
}

-- The section of addEvent under the lock of the context that it reached.
unfoldable pub add_at :
    Kernel → IoManager → ℕ → Event → Caller → Option Callback → Result (IoManager × Bool)
add_at kernel m fd event caller cb =
    let request = addition (m.contexts fd) fd event in
    let m' = asked kernel m request in
    if not (ltb fd m.size)
    then abort
    else if has (m.contexts fd).events event
    then done (m, false)
    else if ask kernel m request
    then register m' fd event caller cb
    else done (m', false)

-- IOManager::addEvent; `true` stands for the value 0, `false` for -1. Other threads can come between its
-- two halves: History has them also as calls of their own.
unfoldable pub add_event :
    Kernel → IoManager → ℕ → Event → Caller → Option Callback → Result (IoManager × Bool)
unfolding context_resize add_at
add_event kernel m fd event caller cb = add_at kernel (reach_context m fd) fd event caller cb

-- The request of delEvent and cancelEvent.
abbrev pub removal : FdContext → ℕ → Event → Request
removal c fd event = record {
  op = if has_any (without c.events event) then ctl_mod else ctl_del;
  fd = fd;
  events = without c.events event;
}

-- The last half of delEvent.
abbrev pub unregister : IoManager → ℕ → Event → Result (IoManager × Bool)
unregister m fd event = do
  let c = m.contexts fd
  ctx ← get_event_context c event
  done (
    record m {
      pending_event_cnt = m.pending_event_cnt - 1;
      contexts =
          update m.contexts fd
            (set_event_context (record c { events = without c.events event }) event empty_context);
    },
    true,
  )

-- IOManager::delEvent. Where epoll_ctl fails it returns -1 as a bool, which is true.
unfoldable pub del_event : Kernel → IoManager → ℕ → Event → Result (IoManager × Bool)
del_event kernel m fd event =
    let c = m.contexts fd in
    let request = removal c fd event in
    let m' = asked kernel m request in
    if not (ltb fd m.size)
    then done (m, false)
    else if not (has c.events event)
    then done (m, false)
    else if ask kernel m request
    then unregister m' fd event
    else done (m', true)

-- fd_ctx->triggerEvent(event), on the context of `fd`.
abbrev pub trigger : IoManager → ℕ → Event → Result IoManager
trigger m fd event = do
  (c, schedulers) ← trigger_event (m.contexts fd) m.schedulers event
  done (record m { contexts = update m.contexts fd c; schedulers = schedulers })

-- The last half of cancelEvent.
abbrev pub fire : IoManager → ℕ → Event → Result (IoManager × Bool)
fire m fd event = do
  m' ← trigger (record m { pending_event_cnt = m.pending_event_cnt - 1 }) fd event
  done (m', true)

-- IOManager::cancelEvent.
unfoldable pub cancel_event : Kernel → IoManager → ℕ → Event → Result (IoManager × Bool)
cancel_event kernel m fd event =
    let c = m.contexts fd in
    let request = removal c fd event in
    let m' = asked kernel m request in
    if not (ltb fd m.size)
    then done (m, false)
    else if not (has c.events event)
    then done (m, false)
    else if ask kernel m request
    then fire m' fd event
    else done (m', true)

-- `if (events & event) { triggerEvent(event); --m_pendingEventCnt; }`
abbrev pub trigger_if : Bool → IoManager → ℕ → Event → Result IoManager
trigger_if false m fd event = done m
trigger_if true m fd event = do
  m' ← trigger m fd event
  done (record m' { pending_event_cnt = m'.pending_event_cnt - 1 })

-- The last half of cancelAll.
abbrev pub fire_all : IoManager → ℕ → Result (IoManager × Bool)
fire_all m fd = do
  m1 ← trigger_if (has (m.contexts fd).events read) m fd read
  m2 ← trigger_if (has (m1.contexts fd).events write) m1 fd write
  assert (not (has_any (m2.contexts fd).events))
  done (m2, true)

-- The request of cancelAll.
abbrev pub all_request : ℕ → Request
all_request fd = record { op = ctl_del; fd = fd; events = empty_mask }

-- IOManager::cancelAll.
unfoldable pub cancel_all : Kernel → IoManager → ℕ → Result (IoManager × Bool)
cancel_all kernel m fd =
    let m' = asked kernel m (all_request fd) in
    if not (ltb fd m.size)
    then done (m, false)
    else if not (has_any (m.contexts fd).events)
    then done (m, false)
    else if ask kernel m (all_request fd)
    then fire_all m' fd
    else done (m', true)

-- The bits of an epoll_event that idle() reads; `failed` is EPOLLERR or EPOLLHUP.
pub record EpollEvents : Type 0 where
  pub epollin : Bool
  pub epollout : Bool
  pub failed : Bool

-- real_events: after an error or a hang-up, all events that are registered count.
abbrev pub real_events : EpollEvents → EventMask → EventMask
real_events e registered = record {
  reads = e.epollin || (e.failed && registered.reads);
  writes = e.epollout || (e.failed && registered.writes);
}

-- The two conditional triggers at the end of the loop body.
abbrev pub trigger_events : IoManager → ℕ → EventMask → Result IoManager
trigger_events m fd real = do
  m1 ← trigger_if real.reads m fd read
  trigger_if real.writes m1 fd write

-- The request of the loop body.
abbrev pub rest_request : FdContext → EventMask → Request
rest_request c real = record {
  op = if has_any (minus c.events real) then ctl_mod else ctl_del;
  fd = c.fd;
  events = minus c.events real;
}

-- The body of the loop of idle() over the events, for the context of `fd`: data.ptr points to the one that
-- the table has for `fd`, as long as the table has not been made shorter.
unfoldable pub handle_event : Kernel → IoManager → ℕ → EpollEvents → Result IoManager
handle_event kernel m fd e =
    let c = m.contexts fd in
    let real = real_events e c.events in
    let request = rest_request c real in
    let m' = asked kernel m request in
    if not (has_any (meet c.events real))
    then done m
    else if ask kernel m request
    then trigger_events m' fd real
    else done m'
