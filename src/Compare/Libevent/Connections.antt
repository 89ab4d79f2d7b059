-- ===== src/Compare/Libevent/Connections.antt =====
-- libevent/main.cpp: the connections of the server over libevent, and its events.
use tiny_coroutine.Base.{
  ℕ, suc, ◌≤◌, ◌≡◌, refl, true, false, Option, none, some, ltb, ◌==◌, update, arith, Bool-cases,
  inl, inr,
}
use tiny_coroutine.Result.{done, Returns, Returns-done}
use tiny_coroutine.Compare.{
  opened, closed, IsBalanced, empty_ledger-IsBalanced, opened-IsBalanced, closed-IsBalanced,
  closed-sent-IsBalanced,
}
use tiny_coroutine.Compare.Libevent.{
  EventBase, EventSetup, start_base, fd_setsize, accept_conn_cb, http_read_cb,
}

-- What libevent does in its loop: it calls the function of the listening socket, or that of an event
-- that is added. accept() answers descriptors that are not in use.
pub data Reach : EventBase → Type 0 where
  starts : (a : EventSetup) (s : EventBase) → start_base a ≡ some s → Reach s
  accepts :
      {s s' : EventBase} (answer : Option ℕ)
      → Reach s
      → ((fd : ℕ) → answer ≡ some fd → s.ledger.conns fd ≡ false)
      → accept_conn_cb s answer true ≡ done s'
      → Reach s'
  reads :
      {s : EventBase} (fd ev len : ℕ)
      → Reach s
      → s.events ev ≡ some fd
      → Reach (http_read_cb s fd ev len)

-- The connections that are open are those of the events, one each, and lie within FD_SETSIZE.
pub record IsServed (s : EventBase) : Type 0 where
  pub balanced : IsBalanced s.ledger
  pub allocated : (ev : ℕ) → s.fresh ≤ ev → s.events ev ≡ none
  pub open_event : (ev fd : ℕ) → s.events ev ≡ some fd → s.ledger.conns fd ≡ true
  pub event_of : (fd : ℕ) → s.ledger.conns fd ≡ true → (ev : ℕ) × (s.events ev ≡ some fd)
  pub alone : (ev ev' fd : ℕ) → s.events ev ≡ some fd → s.events ev' ≡ some fd → ev ≡ ev'
  pub small : (fd : ℕ) → s.ledger.conns fd ≡ true → fd ≤ 1024

start-IsServed : (a : EventSetup) (s : EventBase) → start_base a ≡ some s → IsServed s
start-IsServed a s h = record {
  balanced = ground (arith, h, empty_ledger-IsBalanced);
  allocated = λ ev le. ground (arith, h);
  open_event = λ ev fd e. absurd (ground (arith, h, e));
  event_of = λ fd e. absurd (ground (arith, h, e));
  alone = λ ev ev' fd e e'. absurd (ground (arith, h, e));
  small = λ fd e. absurd (ground (arith, h, e));
}

-- A connection with an event of its own.
new-IsServed :
    (s : EventBase) (fd : ℕ)
    → IsServed s
    → s.ledger.conns fd ≡ false
    → fd ≤ 1024
    → IsServed (record s {
      events = update s.events s.fresh (some fd);
      fresh = suc s.fresh;
      ledger = opened s.ledger fd;
    })
new-IsServed s fd v free le = record {
  balanced = opened-IsBalanced s.ledger fd v.balanced free;
  allocated = λ ev h. ground (arith, v.allocated ev, h);
  open_event = λ ev i e. ground (arith, v.open_event ev i, e);
  event_of = λ i h. elim (Bool-cases (fd == i)) [
    | inl e ↦ (s.fresh, ground (arith, e))
    | inr ne ↦
        let (ev, e) = v.event_of i (ground (arith, ne, h)) in
        (ev, ground (arith, e, v.allocated ev))
  ];
  alone = λ ev ev' i e e'.
      ground (arith, e, e', free, v.alone ev ev' i, v.open_event ev i, v.open_event ev' i);
  small = λ i h. ground (arith, v.small i, h, le);
}

-- A connection that is closed at once.
shut-IsServed :
    (s : EventBase) (fd : ℕ)
    → IsServed s
    → s.ledger.conns fd ≡ false
    → IsServed (record s { ledger = closed (opened s.ledger fd) fd })
shut-IsServed s fd v free = record {
  balanced =
      closed-IsBalanced (opened s.ledger fd) fd (opened-IsBalanced s.ledger fd v.balanced free)
        (ground arith);
  allocated = v.allocated;
  open_event = λ ev i e. ground (arith, v.open_event ev i, e, free);
  event_of = λ i h. v.event_of i (ground (arith, h));
  alone = v.alone;
  small = λ i h. v.small i (ground (arith, h));
}

accept-IsServed :
    (s : EventBase) (answer : Option ℕ)
    → IsServed s
    → ((fd : ℕ) → answer ≡ some fd → s.ledger.conns fd ≡ false)
    → Returns IsServed (accept_conn_cb s answer true)
unfolding accept_conn_cb
accept-IsServed s none v free = v
accept-IsServed s (some fd) v free = elim (Bool-cases (ltb fd_setsize fd)) [
  | inl e ↦ rw e (shut-IsServed s fd v (free fd refl))
  | inr e ↦ rw e (new-IsServed s fd v (free fd refl) (ground (arith, e)))
]

-- The connection of an event is closed, and the event is freed.
read-IsServed :
    (s : EventBase) (fd ev len : ℕ)
    → IsServed s
    → s.events ev ≡ some fd
    → IsServed (http_read_cb s fd ev len)
unfolding http_read_cb
read-IsServed s fd ev len v e =
    let is_open = v.open_event ev fd e in
    record {
      balanced = elim (Bool-cases (len == 0)) [
        | inl z ↦ rw z (closed-IsBalanced s.ledger fd v.balanced is_open)
        | inr z ↦ rw z (closed-sent-IsBalanced s.ledger fd v.balanced is_open)
      ];
      allocated = λ i le. ground (arith, v.allocated i le);
      open_event = λ i j h. ground (arith, v.open_event i j, v.alone ev i fd e, h);
      event_of =
          λ j h. let (i, q) = v.event_of j (ground (arith, h)) in (i, ground (arith, q, e, h));
      alone = λ i i' j p q. ground (arith, v.alone i i' j, p, q);
      small = λ j h. ground (arith, v.small j, h);
    }

-- Where accept() answers descriptors that are not in use and event_new succeeds, in whatever order
-- libevent calls the functions of the server: each open connection has one event, which is added for
-- it, and a descriptor of at most 1024; each was closed as often as it was accepted, but for one
-- that is open, and not answered more often than closed.
pub libevent_serves : {s : EventBase} → Reach s → IsServed s
libevent_serves (starts a s h) = start-IsServed a s h
libevent_serves (accepts answer r free e) =
    Returns-done IsServed (accept-IsServed _ answer (libevent_serves r) free) e
libevent_serves (reads fd ev len r e) = read-IsServed _ fd ev len (libevent_serves r) e
