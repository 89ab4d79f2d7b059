-- ===== src/Compare/Tests.antt =====
-- epoll/main.cpp and libevent/main.cpp: a connection comes, sends its request and is closed.
use tiny_coroutine.Base.{◌≡◌, refl, true, false, update, Option, none, some, List, [], ◌∷◌, arith}
use tiny_coroutine.Compare.{empty_ledger, opened}
use tiny_coroutine.Compare.Epoll.{
  EpollServer, EpollSetup, Report, watch, handle_report, handle_reports, serve_epoll,
}
use tiny_coroutine.Compare.Epoll.Accounts.{Accounts, told}
use tiny_coroutine.Compare.Epoll.Connections.{
  IsHonestRun, IsSoundAfter, listens, connected, no_report, report, no_wait, wait, epoll_serves,
}
use tiny_coroutine.Compare.Libevent.{EventBase, accept_conn_cb, http_read_cb}
use tiny_coroutine.Compare.Libevent.Connections.{IsServed, starts, accepts, reads, libevent_serves}

abbrev setup : EpollSetup
setup = record { listen_fd = some 3; bound = true; heard = true; created = true; added = true }

abbrev begun : EpollServer
begun = watch (record { watched = λ fd. false; ledger = empty_ledger }) 3

abbrev arrival : Report
arrival = record { fd = 3; accepted = some 5; added = true; len = 0 }

abbrev question : Report
question = record { fd = 5; accepted = none; added = true; len = 78 }

abbrev waits : List (Option (List Report))
waits = some (arrival ∷ []) ∷ some (question ∷ []) ∷ []

waits-IsHonestRun : IsHonestRun 3 begun waits
unfolding handle_report handle_reports
waits-IsHonestRun =
    wait (report (listens refl (λ conn e. ground (arith, e))) (no_report _))
      (wait (report (connected (λ e. omega (arith, e)) refl) (no_report _)) (no_wait _))

answered_once : ((serve_epoll 3 begun waits).0).ledger.answers ≡ 5 ∷ []
unfolding serve_epoll handle_reports handle_report
answered_once = refl

epoll_serves_example :
    IsSoundAfter 3 (serve_epoll 3 begun waits)
    × Accounts 3 empty_ledger (told 3 waits) ((serve_epoll 3 begun waits).0).ledger
epoll_serves_example = epoll_serves setup 3 begun waits refl waits-IsHonestRun

abbrev open_base : EventBase
open_base = record { events = λ e. none; fresh = 0; ledger = empty_ledger }

abbrev taken : EventBase
taken = record {
  events = λ e. update (λ i. none) 0 (some 5) e;
  fresh = 1;
  ledger = opened empty_ledger 5;
}

libevent_serves_example : IsServed (http_read_cb taken 5 0 78)
unfolding accept_conn_cb
libevent_serves_example = libevent_serves (
    reads 5 0 78
      (accepts {s = open_base} (some 5)
        (starts (record { listener = some 3; bound = true; heard = true }) open_base refl)
        (λ fd e. refl) refl)
      refl)
