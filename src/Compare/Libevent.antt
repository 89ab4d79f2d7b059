-- ===== src/Compare/Libevent.antt =====
-- libevent/main.cpp: the server over libevent.
--
-- An event of libevent is named by a number; `events` has the descriptor of one that is added, for
-- reading, and `none` for one that is free. Whether event_new yields an object is given.
pub mod Connections
use tiny_coroutine.Base.{
  ℕ, suc, Bool, true, false, ◌&&◌, Option, none, some, ltb, ◌==◌, if◌then◌else◌, update,
}
use tiny_coroutine.Result.{Result, done, abort}
use tiny_coroutine.Compare.{Ledger, empty_ledger, opened, sent, closed}

pub record EventBase : Type 0 where
  pub events : ℕ → Option ℕ
  pub fresh : ℕ
  pub ledger : Ledger

-- What the system answers before the loop.
pub record EventSetup : Type 0 where
  pub listener : Option ℕ
  pub bound : Bool
  pub heard : Bool

-- main() up to event_base_dispatch, where the event of the listening socket is not among `events`;
-- `none` where it returns -1.
abbrev pub start_base : EventSetup → Option EventBase
start_base a = elim a.listener [
  | none ↦ none
  | some listener ↦
      if a.bound && a.heard
      then some (record { events = λ e. none; fresh = 0; ledger = empty_ledger })
      else none
]

-- FD_SETSIZE
abbrev pub fd_setsize : ℕ
fd_setsize = 1024

-- event_new, event_assign with http_read_cb, and event_add; event_assign on a null pointer is `abort`.
abbrev pub new_event : EventBase → ℕ → Bool → Result EventBase
new_event s fd false = abort
new_event s fd true =
    done (record s { events = update s.events s.fresh (some fd); fresh = suc s.fresh })

-- accept_conn_cb, where accept() answers a descriptor or `none`.
unfoldable pub accept_conn_cb : EventBase → Option ℕ → Bool → Result EventBase
accept_conn_cb s none made = done s
accept_conn_cb s (some fd) made =
    let s' = record s { ledger = opened s.ledger fd } in
    if ltb fd_setsize fd
    then done (record s { ledger = closed (opened s.ledger fd) fd })
    else new_event s' fd made

-- http_read_cb for the event `ev`, where recv() yields `len` bytes, 0 standing for an error too.
unfoldable pub http_read_cb : EventBase → ℕ → ℕ → ℕ → EventBase
http_read_cb s fd ev len = record s {
  ledger = if len == 0 then closed s.ledger fd else closed (sent s.ledger fd) fd;
  events = update s.events ev none;
}
