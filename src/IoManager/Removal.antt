-- ===== src/IoManager/Removal.antt =====
-- code/ioscheduler.cpp: delEvent and cancelEvent, on every branch.
use tiny_coroutine.Base.{
  ℕ, ◌+◌, ◌-◌, ◌≤◌, ◌<◌, ◌≡◌, refl, ◌∙◌, Bool, true, false, ◌&&◌, some, ◌∷◌, arith, ltb, ◌==◌,
  if◌then◌else◌, update, Bool-cases, inl, inr, ltb→lt, sum_below-ge,
}
use tiny_coroutine.Callback.{Event}
use tiny_coroutine.Scheduler.{Scheduler}
use tiny_coroutine.IoManager.Mask
use tiny_coroutine.IoManager.Mask.{EventMask, has, has_any, without}
use tiny_coroutine.IoManager.Context.{FdContext, empty_context, set_event_context}
use tiny_coroutine.IoManager.{Kernel, IoManager, ask, asked, removal, del_event, fire, cancel_event}
use tiny_coroutine.IoManager.Valid.{IsValid, change-IsValid, refused-IsValid}
use tiny_coroutine.IoManager.Slots.{
  slot, registered_slot, cleared-HasSlots, size-without, triggered, posted,
  trigger_event_registered,
}
use tiny_coroutine.IoManager.Events.{removal_legal, set-fields}
use tiny_coroutine.Result.{Returns}

-- What delEvent and cancelEvent do to the state: the event is no more registered and not counted where
-- the kernel took the request; nothing else changes.
pub record Removed (m : IoManager) (fd : ℕ) (event : Event) (removed : Bool) (m' : IoManager)
    : Type 0 where
  pub valid : IsValid m'
  pub contexts :
      (i : ℕ)
      → m'.contexts i
        ≡ (if removed && fd == i then triggered (m.contexts fd) event else m.contexts i)
  pub pending : m'.pending_event_cnt + (if removed then 1 else 0) ≡ m.pending_event_cnt

module _ (kernel : Kernel) (m : IoManager) (fd : ℕ) (event : Event) (v : IsValid m) where
  -- The state after a request that was taken, whatever becomes of the schedulers.
  pub removal-IsValid :
      (schedulers : ℕ → Scheduler)
      → fd < m.size
      → has (m.contexts fd).events event ≡ true
      → ask kernel m (removal (m.contexts fd) fd event) ≡ true
      → IsValid (record m {
        contexts = update m.contexts fd (triggered (m.contexts fd) event);
        pending_event_cnt = m.pending_event_cnt - 1;
        schedulers = schedulers;
        requests =
            (removal (m.contexts fd) fd event, ask kernel m (removal (m.contexts fd) fd event))
            ∷ m.requests;
      })
  removal-IsValid schedulers lt h accepted =
      change-IsValid m fd _ (m.pending_event_cnt - 1) schedulers _ v lt (fields.0 ∙ v.numbered fd)
        (cleared-HasSlots c event (v.slots fd))
        (ground (arith, fields.1, size-without c.events event h, counted))
        (λ i. ground (arith, accepted, fields.1))
        (ground (arith, removal_legal kernel m fd v event h, v.legal))
    where
      c : FdContext
      c = m.contexts fd

      fields :
          ((set_event_context (record c { events = without c.events event }) event empty_context).fd
            ≡ c.fd)
          × ((set_event_context
                (record c { events = without c.events event })
                event
                empty_context).events
              ≡ without c.events event)
      fields = set-fields (record c { events = without c.events event }) event empty_context

      counted : Mask.size c.events ≤ m.pending_event_cnt
      counted =
          omega (arith, v.pending, sum_below-ge (λ i. Mask.size (m.contexts i).events) m.size fd lt)

  pub counted_event :
      fd < m.size
      → has (m.contexts fd).events event ≡ true
      → m.pending_event_cnt - 1 + 1 ≡ m.pending_event_cnt
  counted_event lt h = omega (
    arith,
    v.pending,
    sum_below-ge (λ i. Mask.size (m.contexts i).events) m.size fd lt,
    size-without (m.contexts fd).events event h,
  )

  -- Does the operation get as far as the kernel, and does the kernel take the request?
  abbrev pub removes : Bool
  removes =
      ltb fd m.size
      && (has (m.contexts fd).events event && ask kernel m (removal (m.contexts fd) fd event))

  same-Removed : Removed m fd event false m
  same-Removed = record { valid = v; contexts = λ i. refl; pending = omega arith }

  refused-Removed :
      has (m.contexts fd).events event ≡ true
      → ask kernel m (removal (m.contexts fd) fd event) ≡ false
      → Removed m fd event false (asked kernel m (removal (m.contexts fd) fd event))
  refused-Removed h refused = record {
    valid = rw refused (
        refused-IsValid m (removal (m.contexts fd) fd event) v
          (removal_legal kernel m fd v event h));
    contexts = λ i. refl;
    pending = omega arith;
  }

  taken-Removed :
      (schedulers : ℕ → Scheduler)
      → fd < m.size
      → has (m.contexts fd).events event ≡ true
      → ask kernel m (removal (m.contexts fd) fd event) ≡ true
      → Removed m fd event true (record m {
        contexts = update m.contexts fd (triggered (m.contexts fd) event);
        pending_event_cnt = m.pending_event_cnt - 1;
        schedulers = schedulers;
        requests =
            (removal (m.contexts fd) fd event, ask kernel m (removal (m.contexts fd) fd event))
            ∷ m.requests;
      })
  taken-Removed schedulers lt h accepted = record {
    valid = removal-IsValid schedulers lt h accepted;
    contexts = λ i. refl;
    pending = counted_event lt h;
  }

  -- On a valid state delEvent returns and keeps the state valid. It takes the event off exactly if it
  -- was registered and epoll_ctl succeeds; nothing is scheduled. It answers false exactly if the event
  -- was not registered: a failed epoll_ctl is answered by true, as success is.
  pub del_event-Removed :
      Returns
        (λ r.
          Removed m fd event removes (r.0)
          × ((r.0).schedulers ≡ m.schedulers)
          × (r.1 ≡ (ltb fd m.size && has (m.contexts fd).events event)))
        (del_event kernel m fd event)
  unfolding del_event
  del_event-Removed = elim (Bool-cases (ltb fd m.size)) [
    | inr outside ↦ rw outside (same-Removed, refl, refl)
    | inl inside ↦ elim (Bool-cases (has (m.contexts fd).events event)) [
      | inr free ↦ rw (inside, free) (same-Removed, refl, refl)
      | inl old ↦ elim (Bool-cases (ask kernel m (removal (m.contexts fd) fd event))) [
        | inr refused ↦
            rw (inside, old, refused) (rw refused at (refused-Removed old refused), refl, refl)
        | inl accepted ↦
            rw (inside, old, accepted, (registered_slot (m.contexts fd) event (v.slots fd) old).0)
              (
                rw accepted at (taken-Removed m.schedulers (ltb→lt _ _ inside) old accepted),
                refl,
                refl,
              )
      ]
    ]
  ]

  fire-Removed :
      (s : ℕ)
      → fd < m.size
      → has (m.contexts fd).events event ≡ true
      → ask kernel m (removal (m.contexts fd) fd event) ≡ true
      → (slot (m.contexts fd) event).scheduler ≡ some s
      → Returns
          (λ r.
            Removed m fd event true (r.0)
            × ((r.0).schedulers ≡ posted m.schedulers (slot (m.contexts fd) event))
            × (r.1 ≡ true))
          (fire (asked kernel m (removal (m.contexts fd) fd event)) fd event)
  fire-Removed s lt old accepted e =
      rw (trigger_event_registered (m.contexts fd) m.schedulers event s old e)
        (taken-Removed _ lt old accepted, rw (e, posted) refl, refl)

  -- On a valid state cancelEvent returns and keeps the state valid. It takes the event off exactly if
  -- it was registered and epoll_ctl succeeds, and then puts what was registered for it, once, at the
  -- end of the queue of the scheduler that was registered; otherwise nothing is scheduled. It answers
  -- false exactly if the event was not registered.
  pub cancel_event-Removed :
      Returns
        (λ r.
          Removed m fd event removes (r.0)
          × ((r.0).schedulers ≡ (
              if removes then posted m.schedulers (slot (m.contexts fd) event) else m.schedulers))
          × (r.1 ≡ (ltb fd m.size && has (m.contexts fd).events event)))
        (cancel_event kernel m fd event)
  unfolding cancel_event
  cancel_event-Removed = elim (Bool-cases (ltb fd m.size)) [
    | inr outside ↦ rw outside (same-Removed, refl, refl)
    | inl inside ↦ elim (Bool-cases (has (m.contexts fd).events event)) [
      | inr free ↦ rw (inside, free) (same-Removed, refl, refl)
      | inl old ↦ elim (Bool-cases (ask kernel m (removal (m.contexts fd) fd event))) [
        | inr refused ↦
            rw (inside, old, refused) (rw refused at (refused-Removed old refused), refl, refl)
        | inl accepted ↦
            let (s, e) = (registered_slot (m.contexts fd) event (v.slots fd) old).1 in
            rw (inside, old, accepted)
              (rw accepted at (fire-Removed s (ltb→lt _ _ inside) old accepted e))
      ]
    ]
  ]
