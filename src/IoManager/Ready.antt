-- ===== src/IoManager/Ready.antt =====
-- code/ioscheduler.cpp: cancelAll, and the events that epoll_wait reports to idle().
use tiny_coroutine.Base.{
  ℕ, ◌-◌, ◌≡◌, refl, ap, sym, subst, ◌∙◌, fun_ext, Bool, true, false, arith, if◌then◌else◌, update,
}
use tiny_coroutine.Callback.{Event, read, write}
use tiny_coroutine.IoManager.Mask
use tiny_coroutine.IoManager.Mask.{EventMask, empty_mask, has, has_any, without, meet, minus}
use tiny_coroutine.IoManager.Context.{FdContext, empty_context}
use tiny_coroutine.IoManager.{IoManager, trigger_if, trigger_events}
use tiny_coroutine.IoManager.Valid.{HasSlots}
use tiny_coroutine.IoManager.Slots.{
  slot, registered_slot, triggered, posted, trigger_event_registered, cleared-HasSlots,
}
use tiny_coroutine.Result.{Returns, Returns-map, Returns-bind}

-- What a conditional trigger of an event that is registered does.
pub record Triggered (b : Bool) (m : IoManager) (fd : ℕ) (event : Event) (m' : IoManager)
    : Type 0 where
  pub contexts :
      m'.contexts
      ≡ (if b then update m.contexts fd (triggered (m.contexts fd) event) else m.contexts)
  pub pending : m'.pending_event_cnt ≡ m.pending_event_cnt - (if b then 1 else 0)
  pub schedulers :
      m'.schedulers ≡ (if b then posted m.schedulers (slot (m.contexts fd) event) else m.schedulers)
  pub size : m'.size ≡ m.size
  pub requests : m'.requests ≡ m.requests

pub trigger_if-Triggered :
    (b : Bool) (m : IoManager) (fd : ℕ) (event : Event)
    → HasSlots (m.contexts fd)
    → (b ≡ true → has (m.contexts fd).events event ≡ true)
    → Returns (Triggered b m fd event) (trigger_if b m fd event)
trigger_if-Triggered false m fd event s h = record {
  contexts = refl;
  pending = omega arith;
  schedulers = refl;
  size = refl;
  requests = refl;
}
trigger_if-Triggered true m fd event s h =
    let old = h refl in
    let (n, e) = (registered_slot (m.contexts fd) event s old).1 in
    rw (trigger_event_registered (m.contexts fd) m.schedulers event n old e) (record {
      contexts = refl;
      pending = omega arith;
      schedulers = rw (e, posted) refl;
      size = refl;
      requests = refl;
    })

-- The context without the events of a mask.
abbrev pub dropped : FdContext → EventMask → FdContext
dropped c real = record {
  reader = if real.reads then empty_context else c.reader;
  writer = if real.writes then empty_context else c.writer;
  fd = c.fd;
  events = minus c.events real;
}

-- What the two triggers do together: both events are taken off, and what was registered for them goes
-- to its scheduler, reading first.
pub record Fired (m : IoManager) (fd : ℕ) (real : EventMask) (m' : IoManager) : Type 0 where
  pub contexts : m'.contexts ≡ update m.contexts fd (dropped (m.contexts fd) real)
  pub pending : m'.pending_event_cnt ≡ m.pending_event_cnt - Mask.size real
  pub schedulers : m'.schedulers ≡ (
      let after_read =
        if real.reads then posted m.schedulers (m.contexts fd).reader else m.schedulers in
      if real.writes then posted after_read (m.contexts fd).writer else after_read)
  pub size : m'.size ≡ m.size
  pub requests : m'.requests ≡ m.requests

-- A mask that is part of another.
abbrev pub IsPart : EventMask → EventMask → Type 0
IsPart a b = (a.reads ≡ true → b.reads ≡ true) × (a.writes ≡ true → b.writes ≡ true)

-- The context between the two triggers.
abbrev pub halfway : FdContext → Bool → FdContext
halfway c b = if b then triggered c read else c

pub halfway-HasSlots : (c : FdContext) (b : Bool) → HasSlots c → HasSlots (halfway c b)
halfway-HasSlots c true s = cleared-HasSlots c read s
halfway-HasSlots c false s = s

pub halfway_fields :
    (c : FdContext) (b : Bool)
    → ((halfway c b).events.writes ≡ c.events.writes) × ((halfway c b).writer ≡ c.writer)
halfway_fields c true = (refl, refl)
halfway_fields c false = (refl, refl)

halfway-dropped :
    (c : FdContext) (real : EventMask)
    → (if real.writes then triggered (halfway c real.reads) write else halfway c real.reads)
      ≡ dropped c real
halfway-dropped c real = ground arith

pub halfway_context :
    (m m1 : IoManager) (fd : ℕ) (b : Bool)
    → Triggered b m fd read m1
    → m1.contexts fd ≡ halfway (m.contexts fd) b
halfway_context m m1 fd b t = ground (arith, ap (λ (f : ℕ → FdContext). f fd) t.contexts)

pub second-Fired :
    (m m1 m2 : IoManager) (fd : ℕ) (real : EventMask)
    → Triggered real.reads m fd read m1
    → Triggered real.writes m1 fd write m2
    → Fired m fd real m2
second-Fired m m1 m2 fd real t u = record {
  contexts = fun_ext λ i. ground (
    arith,
    ap (λ (f : ℕ → FdContext). f i) t.contexts,
    ap (λ (f : ℕ → FdContext). f i) u.contexts,
    halfway_context m m1 fd real.reads t,
    halfway-dropped (m.contexts fd) real,
  );
  pending = ground (arith, t.pending, u.pending);
  schedulers = ground (
    arith,
    t.schedulers,
    u.schedulers,
    halfway_context m m1 fd real.reads t,
    (halfway_fields (m.contexts fd) real.reads).1,
  );
  size = u.size ∙ t.size;
  requests = u.requests ∙ t.requests;
}

pub trigger_events-Fired :
    (m : IoManager) (fd : ℕ) (real : EventMask)
    → HasSlots (m.contexts fd)
    → IsPart real (m.contexts fd).events
    → Returns (Fired m fd real) (trigger_events m fd real)
trigger_events-Fired m fd real s part =
    Returns-bind (Triggered real.reads m fd read) (Fired m fd real)
      (trigger_if real.reads m fd read) _ (trigger_if-Triggered real.reads m fd read s part.0)
      λ m1 t.
        let e = halfway_context m m1 fd real.reads t in
        Returns-map (trigger_if real.writes m1 fd write) (λ m2 u. second-Fired m m1 m2 fd real t u)
          (trigger_if-Triggered real.writes m1 fd write
            (subst HasSlots (sym e) (halfway-HasSlots (m.contexts fd) real.reads s))
            (λ w. ground (arith, e, (halfway_fields (m.contexts fd) real.reads).0, part.1 w)))
