-- ===== src/IoManager/Tests.antt =====
-- Runs of code/ioscheduler.cpp on small inputs, and its theorems at inputs that meet their hypotheses.
use tiny_coroutine.Base.{
  ◌≡◌, refl, Bool, true, false, ◌&&◌, none, some, [], arith, ltb, if◌then◌else◌,
}
use tiny_coroutine.Callback.{user, read, write}
use tiny_coroutine.Scheduler.{Scheduler}
use tiny_coroutine.IoManager.Mask.{has, has_any, meet}
use tiny_coroutine.IoManager.{
  IoManager, Kernel, Caller, EpollEvents, init, add_event, del_event, cancel_event, cancel_all,
  handle_event, ask, all_request, rest_request, real_events,
}
use tiny_coroutine.IoManager.Valid.{IsValid, init-IsValid}
use tiny_coroutine.IoManager.Slots.{posted, slot}
use tiny_coroutine.IoManager.Events.{Added, accepts, add_event-Added}
use tiny_coroutine.IoManager.Removal.{Removed, removes, del_event-Removed, cancel_event-Removed}
use tiny_coroutine.IoManager.Handled.{Handled, handle_event-Handled}
use tiny_coroutine.IoManager.CancelAll.{cancel_all-Handled}
use tiny_coroutine.IoManager.Stale.{handle_event_stale}
use tiny_coroutine.Result.{Result, done, abort, Returns}

abbrev quiet : Scheduler
quiet = record {
  tasks = [];
  thread_cnt = 2;
  threads = 2;
  active_thread_cnt = 1;
  idle_thread_cnt = 1;
  use_caller = false;
  root_thread = none;
  stopping = false;
  pipe = 0;
}

-- A kernel that takes every request.
abbrev willing : Kernel
willing log r = true

abbrev thread : Caller
thread = record { scheduler = some 0; fiber = 5; is_running = true }

abbrev fresh : IoManager
fresh = init (λ _. quiet)

abbrev state_of : Result (IoManager × Bool) → IoManager
state_of (done r) = r.0
state_of abort = fresh

-- Descriptor 3 waits for reading, with a function.
abbrev waiting : IoManager
waiting = state_of (add_event willing fresh 3 read thread (some (user 1)))

waiting_registered : (waiting.contexts 3).events.reads ≡ true
unfolding init add_event
waiting_registered = refl

added :
    Returns
      (Added fresh 3 read thread (some (user 1)) true)
      (add_event willing fresh 3 read thread (some (user 1)))
unfolding init
added =
    add_event-Added willing fresh 3 read thread (some (user 1)) (init-IsValid (λ _. quiet)) refl
      (refl, refl)

waiting-IsValid : IsValid waiting
waiting-IsValid = valid (add_event willing fresh 3 read thread (some (user 1))) added
  where
    valid :
        (r : Result (IoManager × Bool))
        → Returns (Added fresh 3 read thread (some (user 1)) true) r
        → IsValid (state_of r)
    valid (done r) a = a.valid
    valid abort a = absurd a

-- Also past the 32 contexts that the manager starts with.
add_event-Added_example :
    Returns
      (Added fresh 40 write thread none (accepts willing fresh 40 write thread none))
      (add_event willing fresh 40 write thread none)
add_event-Added_example =
    add_event-Added willing fresh 40 write thread none (init-IsValid (λ _. quiet)) refl (refl, refl)

del_event-Removed_example :
    Returns
      (λ r.
        Removed waiting 3 read (removes willing waiting 3 read waiting-IsValid) (r.0)
        × ((r.0).schedulers ≡ waiting.schedulers)
        × (r.1 ≡ (ltb 3 waiting.size && has (waiting.contexts 3).events read)))
      (del_event willing waiting 3 read)
del_event-Removed_example = del_event-Removed willing waiting 3 read waiting-IsValid

cancel_event-Removed_example :
    Returns
      (λ r.
        Removed waiting 3 read (removes willing waiting 3 read waiting-IsValid) (r.0)
        × ((r.0).schedulers ≡ (
            if removes willing waiting 3 read waiting-IsValid
            then posted waiting.schedulers (slot (waiting.contexts 3) read)
            else waiting.schedulers))
        × (r.1 ≡ (ltb 3 waiting.size && has (waiting.contexts 3).events read)))
      (cancel_event willing waiting 3 read)
cancel_event-Removed_example = cancel_event-Removed willing waiting 3 read waiting-IsValid

cancel_all-Handled_example :
    let events = (waiting.contexts 3).events in
    let some_event = ltb 3 waiting.size && has_any events in
    Returns
      (λ r.
        IsValid (r.0)
        × Handled
            (some_event && ask willing waiting (all_request 3))
            waiting
            3
            events
            (all_request 3)
            (r.0)
        × (r.1 ≡ some_event))
      (cancel_all willing waiting 3)
cancel_all-Handled_example = cancel_all-Handled willing waiting 3 waiting-IsValid

-- A hang-up counts as reading, which is registered.
abbrev hang_up : EpollEvents
hang_up = record { epollin = false; epollout = false; failed = true }

handle_event-Handled_example :
    let real = real_events hang_up (waiting.contexts 3).events in
    let r = rest_request (waiting.contexts 3) real in
    Returns
      (λ m'.
        IsValid m'
        × Handled
            (has_any (meet (waiting.contexts 3).events real) && ask willing waiting r)
            waiting
            3
            real
            r
            m')
      (handle_event willing waiting 3 hang_up)
unfolding init add_event
handle_event-Handled_example =
    handle_event-Handled willing waiting 3 waiting-IsValid (omega arith) hang_up
      ((λ h. refl), (λ h. cc))

-- Reading and writing are reported, and writing has been taken off in the meantime.
abbrev both : EpollEvents
both = record { epollin = true; epollout = true; failed = false }

handle_event_stale_example : handle_event willing waiting 3 both ≡ abort
unfolding init add_event
handle_event_stale_example =
    handle_event_stale willing waiting 3 both waiting-IsValid refl refl refl
