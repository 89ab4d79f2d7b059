-- ===== src/IoManager/Handled.antt =====
-- code/ioscheduler.cpp: the whole of cancelAll, and of the handling of one event in idle().
use tiny_coroutine.Base.{
  ℕ, ◌+◌, ◌-◌, ◌≤◌, ◌<◌, ◌≡◌, refl, Bool, true, false, ◌&&◌, not, ◌∷◌, arith, if◌then◌else◌, update,
  Bool-cases, inl, inr, sum_below-ge,
}
use tiny_coroutine.IoManager.Mask
use tiny_coroutine.IoManager.Mask.{EventMask, empty_mask, has, has_any, without, meet, minus}
use tiny_coroutine.IoManager.Context.{EventContext, FdContext, empty_context}
use tiny_coroutine.IoManager.{
  Request, Kernel, IoManager, ask, trigger_events, real_events, rest_request, EpollEvents,
  handle_event,
}
use tiny_coroutine.IoManager.Valid.{
  IsValid, HasSlots, IsSlot, is_legal, interest, effect, change-IsValid, refused-IsValid,
}
use tiny_coroutine.IoManager.Ready.{Fired, IsPart, dropped, trigger_events-Fired}
use tiny_coroutine.Result.{Returns, Returns-map}

-- The schedulers take no part in validity.
pub same-IsValid :
    (n m : IoManager)
    → m.contexts ≡ n.contexts
    → m.size ≡ n.size
    → m.pending_event_cnt ≡ n.pending_event_cnt
    → m.requests ≡ n.requests
    → IsValid n
    → IsValid m
same-IsValid n m c s p r v = record {
  sized = rw s v.sized;
  numbered = rw c v.numbered;
  blank = rw (s, c) v.blank;
  slots = rw c v.slots;
  pending = rw (p, s, c) v.pending;
  mirrored = rw (r, c) v.mirrored;
  legal = rw r v.legal;
}

dropped-HasSlots : (c : FdContext) (real : EventMask) → HasSlots c → HasSlots (dropped c real)
dropped-HasSlots c real s =
    (part real.reads c.events.reads c.reader s.0, part real.writes c.events.writes c.writer s.1)
  where
    part :
        (b old : Bool) (ctx : EventContext)
        → IsSlot old ctx
        → IsSlot (old && not b) (if b then empty_context else ctx)
    part true true ctx s = refl
    part true false ctx s = refl
    part false true ctx s = s
    part false false ctx s = s

size-minus : (a b : EventMask) → IsPart b a → Mask.size (minus a b) + Mask.size b ≡ Mask.size a
size-minus a b part = ground (arith, part.0, part.1)

-- The state after the kernel took the request and the events of `real` were triggered.
pub fired-IsValid :
    (m m' : IoManager) (fd : ℕ) (real : EventMask) (r : Request)
    → IsValid m
    → fd < m.size
    → IsPart real (m.contexts fd).events
    → r.fd ≡ fd
    → effect r ≡ interest (minus (m.contexts fd).events real)
    → is_legal m.requests r ≡ true
    → Fired (record m { requests = (r, true) ∷ m.requests }) fd real m'
    → IsValid m'
fired-IsValid m m' fd real r v lt part same effect_r legal f =
    same-IsValid n m' f.contexts f.size f.pending f.requests (
      change-IsValid m fd c (m.pending_event_cnt - Mask.size real) m.schedulers
        ((r, true) ∷ m.requests) v lt (v.numbered fd)
        (dropped-HasSlots (m.contexts fd) real (v.slots fd))
        (omega (arith, size-minus (m.contexts fd).events real part, counted))
        (λ i. ground (arith, same, effect_r)) (ground (arith, legal, v.legal)))
  where
    c : FdContext
    c = dropped (m.contexts fd) real

    n : IoManager
    n = record m {
      contexts = update m.contexts fd c;
      pending_event_cnt = m.pending_event_cnt - Mask.size real;
      requests = (r, true) ∷ m.requests;
    }

    counted : Mask.size (m.contexts fd).events ≤ m.pending_event_cnt
    counted =
        omega (arith, v.pending, sum_below-ge (λ i. Mask.size (m.contexts i).events) m.size fd lt)

-- How handling an event or cancelling all of them comes out: the events of the mask were taken off and
-- scheduled, after the request `r`; or nothing was done but perhaps a request that the kernel refused.
abbrev pub Handled : Bool → IoManager → ℕ → EventMask → Request → IoManager → Type 0
Handled true m fd real r m' = Fired (record m { requests = (r, true) ∷ m.requests }) fd real m'
Handled false m fd real r m' =
    (m'.contexts ≡ m.contexts)
    × (m'.pending_event_cnt ≡ m.pending_event_cnt)
    × (m'.schedulers ≡ m.schedulers)
    × (m'.size ≡ m.size)

module _ (kernel : Kernel) (m : IoManager) (fd : ℕ) (v : IsValid m) (lt : fd < m.size) where
  rest_legal :
      (real : EventMask)
      → has_any (meet (m.contexts fd).events real) ≡ true
      → is_legal m.requests (rest_request (m.contexts fd) real) ≡ true
  rest_legal real h = ground (arith, v.mirrored (m.contexts fd).fd, v.numbered fd, v.mirrored fd)

  -- On a valid state, where the events that count are all registered, the handling of an event in
  -- idle() keeps the state valid and runs into no assertion. Each event that counts is taken off and
  -- what was registered for it is scheduled, exactly if there is one and epoll_ctl succeeds.
  pub handle_event-Handled :
      (e : EpollEvents)
      → IsPart (real_events e (m.contexts fd).events) (m.contexts fd).events
      → let real = real_events e (m.contexts fd).events in
        let r = rest_request (m.contexts fd) real in
        Returns
          (λ m'.
            IsValid m'
            × Handled (has_any (meet (m.contexts fd).events real) && ask kernel m r) m fd real r m')
          (handle_event kernel m fd e)
  unfolding handle_event
  handle_event-Handled e part = elim (Bool-cases (has_any (meet c.events real))) [
    | inr nothing ↦ rw nothing (v, (refl, refl, refl, refl))
    | inl some_event ↦ elim (Bool-cases (ask kernel m r)) [
      | inr refused ↦
          rw (some_event, refused)
            (refused-IsValid m r v (rest_legal real some_event), (refl, refl, refl, refl))
      | inl accepted ↦
          rw (some_event, accepted)
            (Returns-map (trigger_events asked' fd real)
              (λ m' f. (
                fired-IsValid m m' fd real r v lt part (v.numbered fd) (ground arith)
                    (rest_legal real some_event) f,
                f,
              ))
              (trigger_events-Fired asked' fd real (v.slots fd) part))
    ]
  ]
    where
      c : FdContext
      c = m.contexts fd

      real : EventMask
      real = real_events e c.events

      r : Request
      r = rest_request c real

      asked' : IoManager
      asked' = record m { requests = (r, true) ∷ m.requests }
