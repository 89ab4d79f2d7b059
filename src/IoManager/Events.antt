-- ===== src/IoManager/Events.antt =====
-- code/ioscheduler.cpp: addEvent and delEvent, on every branch.
use tiny_coroutine.Base.{
  ℕ, ◌+◌, ◌*◌, ◌/◌, ◌≤◌, ◌<◌, ◌≡◌, refl, sym, subst, ◌∙◌, Bool, true, false, ◌&&◌, ◌||◌, not,
  Option, ◌∷◌, arith, ltb, ◌==◌, if◌then◌else◌, is_some, Bool-cases, inl, lt→ltb, ltb→lt, inr,
}
use tiny_coroutine.Callback.{Callback, Event, no_event, read, write}
use tiny_coroutine.IoManager.Mask.{has, with_event}
use tiny_coroutine.IoManager.Context.{EventContext, FdContext, set_event_context}
use tiny_coroutine.IoManager.{
  Kernel, IoManager, Caller, ask, asked, addition, removal, filled_context, register, add_at,
  add_event,
}
use tiny_coroutine.IoManager.Valid.{
  IsValid, is_legal, room_only, resize-IsValid, change-IsValid, refused-IsValid,
}
use tiny_coroutine.IoManager.Slots.{
  is_event, unregistered, filled-HasSlots, size-with_event, has_any-with_event, has_any-has,
}
use tiny_coroutine.Result.{Returns, Returns-map}

-- The context with the event registered.
abbrev pub registered_context : FdContext → Event → Caller → Option Callback → FdContext
registered_context c event caller cb =
    set_event_context (record c { events = with_event c.events event }) event
      (filled_context caller cb)

-- What addEvent does to the state: it answers `accepted`, and where that is true the event is
-- registered with what the caller gave, and counted. Nothing else changes.
pub record Added (m : IoManager) (fd : ℕ) (event : Event) (caller : Caller) (cb : Option Callback)
    (accepted : Bool) (r : IoManager × Bool) : Type 0 where
  pub valid : IsValid (r.0)
  pub answer : r.1 ≡ accepted
  pub contexts :
      (i : ℕ)
      → (r.0).contexts i ≡ (
          if accepted && fd == i
          then registered_context (m.contexts fd) event caller cb
          else m.contexts i)
  pub pending : (r.0).pending_event_cnt ≡ m.pending_event_cnt + (if accepted then 1 else 0)
  pub schedulers : (r.0).schedulers ≡ m.schedulers

-- Writing an event context leaves the descriptor and the mask.
pub set-fields :
    (c : FdContext) (event : Event) (ctx : EventContext)
    → ((set_event_context c event ctx).fd ≡ c.fd)
      × ((set_event_context c event ctx).events ≡ c.events)
set-fields c no_event ctx = (refl, refl)
set-fields c read ctx = (refl, refl)
set-fields c write ctx = (refl, refl)

module _ (kernel : Kernel) (m : IoManager) (fd : ℕ) (v : IsValid m) where
  -- The requests that an operation makes are legal.
  addition_legal : (event : Event) → is_legal m.requests (addition (m.contexts fd) fd event) ≡ true
  addition_legal event = ground (arith, v.mirrored fd)

  pub removal_legal :
      (event : Event)
      → has (m.contexts fd).events event ≡ true
      → is_legal m.requests (removal (m.contexts fd) fd event) ≡ true
  removal_legal event h = ground (arith, v.mirrored fd, has_any-has (m.contexts fd).events event)

  module _ (event : Event) (caller : Caller) (cb : Option Callback) (on : is_event event ≡ true)
      (ready : (is_some caller.scheduler ≡ true) × ((is_some cb || caller.is_running) ≡ true)) where
    register-Added :
        fd < m.size
        → has (m.contexts fd).events event ≡ false
        → ask kernel m (addition (m.contexts fd) fd event) ≡ true
        → Returns
            (Added m fd event caller cb true)
            (register (asked kernel m (addition (m.contexts fd) fd event)) fd event caller cb)
    register-Added lt free accepted =
        let c = m.contexts fd in
        let c' = registered_context c event caller cb in
        rw (unregistered (m.contexts fd) event (v.slots fd) on free, ready.1)
          (record {
            valid =
                change-IsValid m fd c' (m.pending_event_cnt + 1) m.schedulers
                  ((addition c fd event, ask kernel m (addition c fd event)) ∷ m.requests) v lt
                  ((set-fields (record c { events = with_event c.events event }) event
                      (filled_context caller cb)).0
                    ∙ v.numbered fd)
                  (filled-HasSlots c event caller cb (v.slots fd) ready.0)
                  (ground (
                    arith,
                    (set-fields (record c { events = with_event c.events event }) event
                        (filled_context caller cb)).1,
                    size-with_event c.events event on free,
                  ))
                  (λ i. ground (
                    arith,
                    accepted,
                    (set-fields (record c { events = with_event c.events event }) event
                        (filled_context caller cb)).1,
                    has_any-with_event c.events event on,
                  ))
                  (ground (arith, addition_legal event, v.legal));
            answer = refl;
            contexts = λ i. ground arith;
            pending = refl;
            schedulers = refl;
          })

    pub add_at-Added :
        fd < m.size
        → Returns
            (Added m fd event caller cb (
              not (has (m.contexts fd).events event)
              && ask kernel m (addition (m.contexts fd) fd event)))
            (add_at kernel m fd event caller cb)
    unfolding add_at
    add_at-Added lt = elim (Bool-cases (has (m.contexts fd).events event)) [
      | inl old ↦
          rw (lt→ltb _ _ lt, old)
            (record {
              valid = v;
              answer = refl;
              contexts = λ i. refl;
              pending = omega arith;
              schedulers = refl;
            })
      | inr free ↦ elim (Bool-cases (ask kernel m (addition (m.contexts fd) fd event))) [
        | inl accepted ↦
            rw (lt→ltb _ _ lt, free, accepted) (rw accepted at (register-Added lt free accepted))
        | inr refused ↦
            rw (lt→ltb _ _ lt, free, refused)
              (record {
                valid =
                    refused-IsValid m (addition (m.contexts fd) fd event) v (addition_legal event);
                answer = refl;
                contexts = λ i. refl;
                pending = omega arith;
                schedulers = refl;
              })
      ]
    ]

module _ (kernel : Kernel) (m : IoManager) (fd : ℕ) (event : Event) (caller : Caller)
    (cb : Option Callback) where
  -- Does addEvent register the event? It was not registered, and the kernel takes the request.
  abbrev pub accepts : Bool
  accepts =
      not (has (m.contexts fd).events event) && ask kernel m (addition (m.contexts fd) fd event)

  -- On a valid state, from a thread with a scheduler, with a function or in a fiber that runs,
  -- addEvent for READ or WRITE returns and keeps the state valid, also where the descriptor lies
  -- past the contexts. It answers 0 exactly if the event was not registered and epoll_ctl succeeds,
  -- and then registers the callback, or the caller's fiber, and counts the event; otherwise
  -- contexts, count and schedulers stay as they are.
  pub add_event-Added :
      IsValid m
      → is_event event ≡ true
      → (is_some caller.scheduler ≡ true) × ((is_some cb || caller.is_running) ≡ true)
      → Returns (Added m fd event caller cb accepts) (add_event kernel m fd event caller cb)
  unfolding add_event
  add_event-Added v on ready = elim (Bool-cases (ltb fd m.size)) [
    | inl inside ↦
        rw inside (add_at-Added kernel m fd v event caller cb on ready (ltb→lt _ _ inside))
    | inr outside ↦ rw outside (
        subst
          (λ n. Returns (Added m fd event caller cb accepts) (add_at kernel n fd event caller cb))
          (sym (room_only m (fd * 3 / 2) (longer outside) v))
          (Returns-map (add_at kernel roomy fd event caller cb) (λ r a. forget r a)
            (add_at-Added kernel roomy fd (roomy-IsValid (longer outside)) event caller cb on ready
              (ground (arith, v.sized, outside)))))
  ]
    where
      longer : ltb fd m.size ≡ false → m.size ≤ fd * 3 / 2
      longer outside = ground (arith, outside)

      roomy : IoManager
      roomy = record m { size = fd * 3 / 2 }

      roomy-IsValid : m.size ≤ fd * 3 / 2 → IsValid roomy
      roomy-IsValid h =
          subst IsValid (room_only m (fd * 3 / 2) h v) (resize-IsValid m (fd * 3 / 2) h v)

      forget :
          (r : IoManager × Bool)
          → Added roomy fd event caller cb accepts r
          → Added m fd event caller cb accepts r
      forget r a = record {
        valid = a.valid;
        answer = a.answer;
        contexts = a.contexts;
        pending = a.pending;
        schedulers = a.schedulers;
      }
