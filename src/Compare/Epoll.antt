-- ===== src/Compare/Epoll.antt =====
-- epoll/main.cpp: the server over epoll alone.
pub mod Accounts
pub mod Connections
use tiny_coroutine.Base.{
  ℕ, Bool, true, false, ◌&&◌, Option, none, some, List, [], ◌∷◌, ◌==◌, if◌then◌else◌, update,
}
use tiny_coroutine.Compare.{Ledger, empty_ledger, opened, sent, closed}

-- The descriptors that the epoll instance watches, and the connections.
pub record EpollServer : Type 0 where
  pub watched : ℕ → Bool
  pub ledger : Ledger

abbrev pub watch : EpollServer → ℕ → EpollServer
watch s fd = record s { watched = update s.watched fd true }

abbrev pub unwatch : EpollServer → ℕ → EpollServer
unwatch s fd = record s { watched = update s.watched fd false }

-- close(), with which the kernel takes a descriptor off the epoll instance.
abbrev pub drop_conn : EpollServer → ℕ → EpollServer
drop_conn s fd = record (unwatch s fd) { ledger = closed s.ledger fd }

-- What the system answers before the loop.
pub record EpollSetup : Type 0 where
  pub listen_fd : Option ℕ
  pub bound : Bool
  pub heard : Bool
  pub created : Bool
  pub added : Bool

-- main() up to the loop; `none` where it returns -1.
abbrev pub start_epoll : EpollSetup → Option (ℕ × EpollServer)
start_epoll a = elim a.listen_fd [
  | none ↦ none
  | some l ↦
      if a.bound && a.heard && a.created && a.added
      then some (l, watch (record { watched = λ fd. false; ledger = empty_ledger }) l)
      else none
]

-- An event of epoll_wait, with what accept(), epoll_ctl() and read() answer to it: -1 is `none`, and a
-- length below 1 is 0.
pub record Report : Type 0 where
  pub fd : ℕ
  pub accepted : Option ℕ
  pub added : Bool
  pub len : ℕ

-- The listening socket is ready. The result says whether the program goes on.
abbrev pub take_conn : EpollServer → Report → EpollServer × Bool
take_conn s r = elim r.accepted [
  | none ↦ (s, true)
  | some conn ↦
      let s' = record s { ledger = opened s.ledger conn } in
      if r.added then (watch s' conn, true) else (s', false)
]

-- A connection is ready.
abbrev pub respond : EpollServer → Report → EpollServer
respond s r =
    if r.len == 0
    then drop_conn s r.fd
    else drop_conn (unwatch (record s { ledger = sent s.ledger r.fd }) r.fd) r.fd

-- The body of the loop over the events.
unfoldable pub handle_report : ℕ → EpollServer → Report → EpollServer × Bool
handle_report listen_fd s r = if r.fd == listen_fd then take_conn s r else (respond s r, true)

unfoldable pub handle_reports : ℕ → EpollServer → List Report → EpollServer × Bool
unfolding handle_report
handle_reports listen_fd s [] = (s, true)
handle_reports listen_fd s (r ∷ rs) =
    let (s', on) = handle_report listen_fd s r in
    let rest = handle_reports listen_fd s' rs in if on then rest else (s', false)

-- The loop, for what epoll_wait answers; `none` is -1.
unfoldable pub serve_epoll : ℕ → EpollServer → List (Option (List Report)) → EpollServer × Bool
unfolding handle_reports
serve_epoll listen_fd s [] = (s, true)
serve_epoll listen_fd s (none ∷ waits) = (s, false)
serve_epoll listen_fd s (some rs ∷ waits) =
    let (s', on) = handle_reports listen_fd s rs in
    let rest = serve_epoll listen_fd s' waits in if on then rest else (s', false)
