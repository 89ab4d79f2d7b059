-- ===== src/IoManager/Stale.antt =====
-- code/ioscheduler.cpp: idle() on bits that epoll_wait reported and that are not registered any more.
use tiny_coroutine.Base.{ℕ, ◌≡◌, refl, Bool, true, false, ◌&&◌, not, arith, Bool-cases, inl, inr}
use tiny_coroutine.Callback.{Event, read, write}
use tiny_coroutine.IoManager.Mask.{EventMask, has, has_any, meet, minus}
use tiny_coroutine.IoManager.{
  Kernel, IoManager, ask, trigger_if, trigger_events, real_events, rest_request, EpollEvents,
  handle_event,
}
use tiny_coroutine.IoManager.Valid.{IsValid, HasSlots}
use tiny_coroutine.IoManager.Slots.{trigger_event_unregistered}
use tiny_coroutine.IoManager.Ready.{
  Triggered, trigger_if-Triggered, halfway_context, halfway_fields,
}
use tiny_coroutine.Result.{Result, done, abort, Returns}

returned {ℓ} :
    {A : Type ℓ} (P : A → Type 0) (r : Result A) → Returns P r → (a : A) × (r ≡ done a) × P a
returned P (done a) p = (a, refl, p)
returned P abort p = absurd p

trigger_if_stale :
    (b : Bool) (m : IoManager) (fd : ℕ) (event : Event)
    → b ≡ true
    → has (m.contexts fd).events event ≡ false
    → trigger_if b m fd event ≡ abort
trigger_if_stale false m fd event e h = cc
trigger_if_stale true m fd event e h =
    rw (trigger_event_unregistered (m.contexts fd) m.schedulers event h) refl

trigger_events_stale :
    (m : IoManager) (fd : ℕ) (real : EventMask)
    → HasSlots (m.contexts fd)
    → has_any (minus real (m.contexts fd).events) ≡ true
    → trigger_events m fd real ≡ abort
trigger_events_stale m fd real s h =
    elim (Bool-cases (real.reads && not (m.contexts fd).events.reads)) [
      | inl stale ↦
          rw (trigger_if_stale real.reads m fd read (ground (arith, stale)) (ground (arith, stale)))
            refl
      | inr fresh ↦
          let (m1, e, t) =
            returned (Triggered real.reads m fd read) (trigger_if real.reads m fd read)
              (trigger_if-Triggered real.reads m fd read s (λ r. ground (arith, fresh, r))) in
          rw e (
            trigger_if_stale real.writes m1 fd write (ground (arith, fresh, h)) (
              ground (
                arith,
                fresh,
                h,
                halfway_context m m1 fd real.reads t,
                (halfway_fields (m.contexts fd) real.reads).0,
              )))
    ]

-- Where epoll_wait reports, beside an event that is registered, one that is not, and epoll_ctl
-- succeeds, idle() runs into the assertion of triggerEvent.
pub handle_event_stale :
    (kernel : Kernel) (m : IoManager) (fd : ℕ) (e : EpollEvents)
    → IsValid m
    → has_any (meet (m.contexts fd).events (real_events e (m.contexts fd).events)) ≡ true
    → has_any (minus (real_events e (m.contexts fd).events) (m.contexts fd).events) ≡ true
    → ask kernel m (rest_request (m.contexts fd) (real_events e (m.contexts fd).events)) ≡ true
    → handle_event kernel m fd e ≡ abort
unfolding handle_event
handle_event_stale kernel m fd e v some_event stale accepted =
    rw (some_event, accepted) (trigger_events_stale _ fd _ (v.slots fd) stale)
