-- ===== src/IoManager/History.antt =====
-- code/ioscheduler.cpp: every history of calls on one I/O manager, in any order of the threads.
use tiny_coroutine.Base.{
  ℕ, ◌+◌, ◌<◌, ◌≡◌, refl, ap, ◌∙◌, Bool, true, false, ◌&&◌, ◌||◌, Option, none, some, List, [], ◌∷◌,
  ◌++◌, arith, ltb, ◌≤◌, ◌*◌, ◌/◌, if◌then◌else◌, is_some, count, sym,
}
use tiny_coroutine.Callback.{Callback, Event, no_event, read, write}
use tiny_coroutine.Scheduler.{Scheduler}
use tiny_coroutine.IoManager.Mask.{EventMask, has, has_any, meet}
use tiny_coroutine.IoManager.{
  Kernel, IoManager, Caller, EpollEvents, Request, ask, removal, real_events, rest_request,
  all_request, init, context_resize, add_event, add_at, grow, del_event, cancel_event, cancel_all,
  handle_event,
}
use tiny_coroutine.IoManager.Valid.{IsValid, init-IsValid, resize-IsValid, room_only}
use tiny_coroutine.IoManager.Slots.{is_event}
use tiny_coroutine.IoManager.Events.{accepts, add_event-Added, add_at-Added}
use tiny_coroutine.IoManager.Removal.{del_event-Removed, cancel_event-Removed}
use tiny_coroutine.IoManager.Ready.{IsPart}
use tiny_coroutine.IoManager.Handled.{Handled, handle_event-Handled}
use tiny_coroutine.IoManager.CancelAll.{cancel_all-Handled}
use tiny_coroutine.IoManager.Registry.{
  Registry, Change, drops, delivers, works, apply, apply_all, apply_all-append, apply_all-balance,
  brings, takes,
}
use tiny_coroutine.IoManager.Refine.{
  registry, entry, added, removed, fired, same_registry, Added-refines, dropped-refines,
  cancelled-refines, Fired-refines,
}
use tiny_coroutine.Result.{Result, done, abort, Returns, Returns-map, Returns-done, returned}

-- A call of a user, or what idle() does for an event that epoll_wait reports. addEvent is here as a whole,
-- and in its sections, between which other threads act: `grows` is the one under the write lock, for a
-- thread that found the table too short, and `adds_at` the one under the lock of the context.
pub data Call : Type 0 where
  adds : ℕ → Event → Caller → Option Callback → Call
  grows : ℕ → Call
  adds_at : ℕ → Event → Caller → Option Callback → Call
  deletes : ℕ → Event → Call
  cancels : ℕ → Event → Call
  cancels_all : ℕ → Call
  handles : ℕ → EpollEvents → Call

abbrev pub state : Result (IoManager × Bool) → Result IoManager
state (done r) = done r.0
state abort = abort

unfoldable pub exec : Kernel → IoManager → Call → Result IoManager
exec kernel m (adds fd event caller cb) = state (add_event kernel m fd event caller cb)
exec kernel m (grows fd) = done (grow m fd)
exec kernel m (adds_at fd event caller cb) = state (add_at kernel m fd event caller cb)
exec kernel m (deletes fd event) = state (del_event kernel m fd event)
exec kernel m (cancels fd event) = state (cancel_event kernel m fd event)
exec kernel m (cancels_all fd) = state (cancel_all kernel m fd)
exec kernel m (handles fd e) = handle_event kernel m fd e

-- addEvent is called for READ or WRITE, on a thread with a scheduler, with a function or in a fiber that
-- runs.
abbrev IsAddable : Event → Caller → Option Callback → Type 0
IsAddable event caller cb =
    (is_event event ≡ true)
    × (is_some caller.scheduler ≡ true)
    × ((is_some cb || caller.is_running) ≡ true)

-- The section under the write lock does not make the table shorter, which no test of the code ensures; the
-- one under the lock of the context has a context in the table. Of the events that idle() handles all
-- are registered.
abbrev pub IsAllowed : IoManager → Call → Type 0
IsAllowed m (adds fd event caller cb) = IsAddable event caller cb
IsAllowed m (grows fd) = m.size ≤ fd * 3 / 2
IsAllowed m (adds_at fd event caller cb) = (fd < m.size) × IsAddable event caller cb
IsAllowed m (handles fd e) =
    (fd < m.size) × IsPart (real_events e (m.contexts fd).events) (m.contexts fd).events
IsAllowed m _ = Unit

-- Does a call get as far as the kernel, and does the kernel take the request?
abbrev pub passes : Kernel → IoManager → Call → Bool
passes kernel m (adds fd event caller cb) = accepts kernel m fd event caller cb
passes kernel m (grows fd) = false
passes kernel m (adds_at fd event caller cb) = accepts kernel m fd event caller cb
passes kernel m (deletes fd event) =
    ltb fd m.size
    && (has (m.contexts fd).events event && ask kernel m (removal (m.contexts fd) fd event))
passes kernel m (cancels fd event) =
    ltb fd m.size
    && (has (m.contexts fd).events event && ask kernel m (removal (m.contexts fd) fd event))
passes kernel m (cancels_all fd) =
    ltb fd m.size && has_any (m.contexts fd).events && ask kernel m (all_request fd)
passes kernel m (handles fd e) =
    let c = m.contexts fd in
    let real = real_events e c.events in
    has_any (meet c.events real) && ask kernel m (rest_request c real)

-- What a call does to the registry.
abbrev pub changes : Kernel → IoManager → Call → List Change
changes kernel m (adds fd event caller cb) =
    added (passes kernel m (adds fd event caller cb)) fd event caller cb
changes kernel m (grows fd) = []
changes kernel m (adds_at fd event caller cb) =
    added (passes kernel m (adds_at fd event caller cb)) fd event caller cb
changes kernel m (deletes fd event) = removed (passes kernel m (deletes fd event)) (drops fd event)
changes kernel m (cancels fd event) =
    removed (passes kernel m (cancels fd event)) (delivers fd event)
changes kernel m (cancels_all fd) =
    fired (passes kernel m (cancels_all fd)) fd (m.contexts fd).events
changes kernel m (handles fd e) =
    fired (passes kernel m (handles fd e)) fd (real_events e (m.contexts fd).events)

abbrev Refines : IoManager → List Change → IoManager → Type 0
Refines m cs m' = IsValid m' × (apply_all (registry m) cs ≡ some (registry m'))

Returns-state :
    (P : IoManager → Type 0) (r : Result (IoManager × Bool))
    → Returns (λ x. P x.0) r
    → Returns P (state r)
Returns-state P (done r) h = h
Returns-state P abort h = h

Handled-Refines :
    (b : Bool) (m m' : IoManager) (fd : ℕ) (real : EventMask) (r : Request)
    → IsPart real (m.contexts fd).events
    → IsValid m'
    → Handled b m fd real r m'
    → Refines m (fired b fd real) m'
unfolding apply_all
Handled-Refines true m m' fd real r part v f =
    (v, Fired-refines (record m { requests = (r, true) ∷ m.requests }) m' fd real part f)
Handled-Refines false m m' fd real r part v (c, p, s, z) = (v, rw (c, s) refl)

call-Refines :
    (kernel : Kernel) (m : IoManager) (c : Call)
    → IsValid m
    → IsAllowed m c
    → Returns (Refines m (changes kernel m c)) (exec kernel m c)
unfolding exec apply_all
call-Refines kernel m (adds fd event caller cb) v (on, scheduled, runs) =
    Returns-state _ (add_event kernel m fd event caller cb) (
      Returns-map (add_event kernel m fd event caller cb)
        (λ r a. (a.valid, Added-refines m fd event caller cb _ r on (λ h. ground (arith, h)) a))
        (add_event-Added kernel m fd event caller cb v on (scheduled, runs)))
call-Refines kernel m (grows fd) v h = (
  resize-IsValid m (fd * 3 / 2) h v,
  ap (λ (n : IoManager). some (registry n)) (sym (room_only m (fd * 3 / 2) h v)),
)
call-Refines kernel m (adds_at fd event caller cb) v (lt, (on, scheduled, runs)) =
    Returns-state _ (add_at kernel m fd event caller cb) (
      Returns-map (add_at kernel m fd event caller cb)
        (λ r a. (a.valid, Added-refines m fd event caller cb _ r on (λ h. ground (arith, h)) a))
        (add_at-Added kernel m fd v event caller cb on (scheduled, runs) lt))
call-Refines kernel m (deletes fd event) v h = Returns-state _ (del_event kernel m fd event) (
    Returns-map (del_event kernel m fd event)
      (λ r (a, s, _). (a.valid, dropped-refines m r.0 fd event _ (λ h. ground (arith, h)) a s))
      (del_event-Removed kernel m fd event v))
call-Refines kernel m (cancels fd event) v h = Returns-state _ (cancel_event kernel m fd event) (
    Returns-map (cancel_event kernel m fd event)
      (λ r (a, s, _). (a.valid, cancelled-refines m r.0 fd event _ (λ h. ground (arith, h)) a s))
      (cancel_event-Removed kernel m fd event v))
call-Refines kernel m (cancels_all fd) v h = Returns-state _ (cancel_all kernel m fd) (
    Returns-map (cancel_all kernel m fd)
      (λ r (w, f, _). Handled-Refines _ m r.0 fd _ _ ((λ h. h), (λ h. h)) w f)
      (cancel_all-Handled kernel m fd v))
call-Refines kernel m (handles fd e) v (lt, part) =
    Returns-map (handle_event kernel m fd e) (λ m' (w, f). Handled-Refines _ m m' fd _ _ part w f)
      (handle_event-Handled kernel m fd v lt e part)

-- The states that a manager comes to from `init`, with what happened to the registry, oldest first.
-- Between the calls the threads work on the queues.
pub data Reach (kernel : Kernel) (schedulers : ℕ → Scheduler)
    : IoManager → List Change → Type 0 where
  starts : Reach kernel schedulers (init schedulers) []
  calls :
      {m m' : IoManager} {cs : List Change} (c : Call)
      → Reach kernel schedulers m cs
      → IsAllowed m c
      → exec kernel m c ≡ done m'
      → Reach kernel schedulers m' (cs ++ changes kernel m c)
  others :
      {m : IoManager} {cs : List Change} (queues : ℕ → Scheduler)
      → Reach kernel schedulers m cs
      → Reach kernel schedulers (record m { schedulers = queues }) (cs ++ works queues ∷ [])

-- A registry without entries.
abbrev pub blank : (ℕ → Scheduler) → Registry
blank schedulers = record { entries = λ fd event. none; schedulers = schedulers }

init-blank : (schedulers : ℕ → Scheduler) → registry (init schedulers) ≡ blank schedulers
unfolding init context_resize
init-blank schedulers = same_registry clear refl
  where
    clear : (fd : ℕ) (event : Event) → entry ((init schedulers).contexts fd) event ≡ none
    clear fd no_event = refl
    clear fd read = ground arith
    clear fd write = ground arith

idle-IsValid :
    (m : IoManager) (queues : ℕ → Scheduler)
    → IsValid m
    → IsValid (record m { schedulers = queues })
idle-IsValid m queues v = record {
  sized = v.sized;
  numbered = v.numbered;
  blank = v.blank;
  slots = v.slots;
  pending = v.pending;
  mirrored = v.mirrored;
  legal = v.legal;
}

module _ {kernel : Kernel} {schedulers : ℕ → Scheduler} where
  -- After any history of calls of delEvent, cancelEvent and cancelAll, of addEvent for READ or
  -- WRITE, on a thread with a scheduler, with a function or in a fiber that runs, as a whole or
  -- section by section, where none of its write sections makes the table of contexts shorter, and of
  -- registered events that idle() handles, on a manager with nothing registered, in any order and
  -- whatever epoll_ctl answers: the state is valid, and what is registered, with the queues, is a
  -- registry to which the changes of the calls were made in turn. A call that gets past its guard
  -- and epoll_ctl brings an entry where there was none, or drops or delivers an entry that was
  -- there, and any other call changes nothing.
  pub Reach-refines :
      {m : IoManager} {cs : List Change}
      → Reach kernel schedulers m cs
      → IsValid m × (apply_all (blank schedulers) cs ≡ some (registry m))
  unfolding apply_all apply
  Reach-refines starts = (init-IsValid schedulers, ap some (sym (init-blank schedulers)))
  Reach-refines (calls {m} {m'} {cs} c r h e) =
      let (v, a) = Reach-refines r in
      let (v', b) = Returns-done _ (call-Refines kernel m c v h) e in
      (v', apply_all-append (blank schedulers) cs (changes kernel m c) ∙ rw a b)
  Reach-refines (others {m} {cs} queues r) =
      let (v, a) = Reach-refines r in
      (
        idle-IsValid m queues v,
        apply_all-append (blank schedulers) cs (works queues ∷ []) ∙ rw a refl,
      )

  -- After any history of calls of delEvent, cancelEvent and cancelAll, of addEvent for READ or
  -- WRITE, on a thread with a scheduler, with a function or in a fiber that runs, as a whole or
  -- section by section, where none of its write sections makes the table of contexts shorter, and of
  -- registered events that idle() handles, on a manager with nothing registered, in any order and
  -- whatever epoll_ctl answers: a further one of these calls returns, without a failed assertion,
  -- and continues the history.
  pub call_returns :
      {m : IoManager} {cs : List Change} (c : Call)
      → Reach kernel schedulers m cs
      → IsAllowed m c
      → (m' : IoManager) × (exec kernel m c ≡ done m')
        × Reach kernel schedulers m' (cs ++ changes kernel m c)
  call_returns {m} c r h =
      let (m', e, _) =
        returned _ (exec kernel m c) (call-Refines kernel m c (Reach-refines r).0 h) in
      (m', e, calls c r h e)

  -- After any history of calls of delEvent, cancelEvent and cancelAll, of addEvent for READ or
  -- WRITE, on a thread with a scheduler, with a function or in a fiber that runs, as a whole or
  -- section by section, where none of its write sections makes the table of contexts shorter, and of
  -- registered events that idle() handles, on a manager with nothing registered, in any order and
  -- whatever epoll_ctl answers: an event of a descriptor was registered as often as it was dropped
  -- or delivered, and once more if it is registered now.
  pub taken_once :
      {m : IoManager} {cs : List Change} (fd : ℕ) (event : Event)
      → Reach kernel schedulers m cs
      → count (brings fd event) cs
        ≡ count (takes fd event) cs + (if has (m.contexts fd).events event then 1 else 0)
  taken_once {m} {cs} fd event r =
      ground
        (arith, apply_all-balance (blank schedulers) (registry m) cs fd event (Reach-refines r).1)
