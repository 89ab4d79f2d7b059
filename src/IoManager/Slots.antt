-- ===== src/IoManager/Slots.antt =====
-- code/ioscheduler.cpp: the two event contexts of a descriptor when an event is registered or removed.
use tiny_coroutine.Base.{
  ℕ, ◌+◌, ◌≡◌, refl, ap, Bool, true, false, not, Option, none, some, arith, is_some, update,
}
use tiny_coroutine.Callback.{Callback, Event, no_event, read, write}
use tiny_coroutine.Scheduler.{Scheduler, schedule_lock}
use tiny_coroutine.IoManager.Mask
use tiny_coroutine.IoManager.Mask.{EventMask, has, has_any, with_event, without}
use tiny_coroutine.IoManager.Context.{
  EventContext, FdContext, empty_context, get_event_context, set_event_context, task_of,
  trigger_event,
}
use tiny_coroutine.IoManager.{Caller, filled_context}
use tiny_coroutine.IoManager.Valid.{IsSlot, HasSlots}
use tiny_coroutine.Result.{done, abort}

-- READ or WRITE.
abbrev pub is_event : Event → Bool
is_event no_event = false
is_event read = true
is_event write = true

-- The event context of an event.
abbrev pub slot : FdContext → Event → EventContext
slot c no_event = empty_context
slot c read = c.reader
slot c write = c.writer

slot_clear : (b : Bool) (ctx : EventContext) → IsSlot b ctx → b ≡ false → ctx ≡ empty_context
slot_clear true ctx s e = cc
slot_clear false ctx s e = s

slot_set :
    (b : Bool) (ctx : EventContext)
    → IsSlot b ctx
    → b ≡ true
    → (is_some ctx.scheduler ≡ true) × (is_some ctx.cb ≡ not (is_some ctx.fiber))
slot_set true ctx s e = s
slot_set false ctx s e = cc

-- What is not registered has a clear context.
pub unregistered :
    (c : FdContext) (event : Event)
    → HasSlots c
    → is_event event ≡ true
    → has c.events event ≡ false
    → (get_event_context c event ≡ done empty_context)
unregistered c no_event s i h = cc
unregistered c read s i h = ap done (slot_clear _ c.reader s.0 h)
unregistered c write s i h = ap done (slot_clear _ c.writer s.1 h)

-- What is registered has a scheduler and something to schedule on it.
pub registered_slot :
    (c : FdContext) (event : Event)
    → HasSlots c
    → has c.events event ≡ true
    → (get_event_context c event ≡ done (slot c event))
      × ((s : ℕ) × ((slot c event).scheduler ≡ some s))
registered_slot c no_event s h = cc
registered_slot c read s h = (refl, ground (arith, slot_set _ c.reader s.0 h))
registered_slot c write s h = (refl, ground (arith, slot_set _ c.writer s.1 h))

pub filled-HasSlots :
    (c : FdContext) (event : Event) (caller : Caller) (cb : Option Callback)
    → HasSlots c
    → is_some caller.scheduler ≡ true
    → HasSlots (
        set_event_context
          (record c { events = with_event c.events event })
          event
          (filled_context caller cb))
filled-HasSlots c no_event caller cb s h = s
filled-HasSlots c read caller none s h = ((h, refl), s.1)
filled-HasSlots c read caller (some f) s h = ((h, refl), s.1)
filled-HasSlots c write caller none s h = (s.0, (h, refl))
filled-HasSlots c write caller (some f) s h = (s.0, (h, refl))

pub cleared-HasSlots :
    (c : FdContext) (event : Event)
    → HasSlots c
    → HasSlots
        (set_event_context (record c { events = without c.events event }) event empty_context)
cleared-HasSlots c no_event s = s
cleared-HasSlots c read s = (refl, s.1)
cleared-HasSlots c write s = (s.0, refl)

pub size-with_event :
    (m : EventMask) (event : Event)
    → is_event event ≡ true
    → has m event ≡ false
    → Mask.size (with_event m event) ≡ Mask.size m + 1
size-with_event m no_event i h = cc
size-with_event m read i h = ground arith
size-with_event m write i h = ground arith

pub size-without :
    (m : EventMask) (event : Event)
    → has m event ≡ true
    → Mask.size (without m event) + 1 ≡ Mask.size m
size-without m no_event h = cc
size-without m read h = ground arith
size-without m write h = ground arith

pub has_any-with_event :
    (m : EventMask) (event : Event) → is_event event ≡ true → has_any (with_event m event) ≡ true
has_any-with_event m no_event i = cc
has_any-with_event m read i = ground arith
has_any-with_event m write i = ground arith

pub has_any-has : (m : EventMask) (event : Event) → has m event ≡ true → has_any m ≡ true
has_any-has m no_event h = cc
has_any-has m read h = ground arith
has_any-has m write h = ground arith

-- The schedulers once what a context holds has gone to the end of its scheduler's queue.
abbrev pub posted : (ℕ → Scheduler) → EventContext → ℕ → Scheduler
posted schedulers ctx = elim ctx.scheduler [
  | none ↦ schedulers
  | some s ↦ update schedulers s (schedule_lock (schedulers s) (task_of ctx))
]

-- The context after triggerEvent.
abbrev pub triggered : FdContext → Event → FdContext
triggered c event =
    set_event_context (record c { events = without c.events event }) event empty_context

-- triggerEvent on a registered event: it schedules what was registered, at the end of the queue of the
-- scheduler that was registered, and clears the event.
pub trigger_event_registered :
    (c : FdContext) (schedulers : ℕ → Scheduler) (event : Event) (s : ℕ)
    → has c.events event ≡ true
    → (slot c event).scheduler ≡ some s
    → trigger_event c schedulers event
      ≡ done (
        triggered c event,
        update schedulers s (schedule_lock (schedulers s) (task_of (slot c event))),
      )
unfolding trigger_event
trigger_event_registered c schedulers no_event s h e = cc
trigger_event_registered c schedulers read s h e = rw (h, e) refl
trigger_event_registered c schedulers write s h e = rw (h, e) refl

-- An event that is not registered is a failed assertion.
pub trigger_event_unregistered :
    (c : FdContext) (schedulers : ℕ → Scheduler) (event : Event)
    → has c.events event ≡ false
    → trigger_event c schedulers event ≡ abort
unfolding trigger_event
trigger_event_unregistered c schedulers event h = rw h refl
