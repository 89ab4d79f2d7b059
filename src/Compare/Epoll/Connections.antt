-- ===== src/Compare/Epoll/Connections.antt =====
-- epoll/main.cpp: the connections of the server over epoll, and what it watches.
use tiny_coroutine.Base.{
  ℕ, ◌≡◌, ◌≢◌, refl, Bool, true, false, ◌||◌, Option, none, some, List, [], ◌∷◌, ◌==◌,
  if◌then◌else◌, arith, Bool-cases, Option-cases, inl, inr, subst,
}
use tiny_coroutine.Compare.{
  Ledger, empty_ledger, IsBalanced, empty_ledger-IsBalanced, opened-IsBalanced, closed-IsBalanced,
  closed-sent-IsBalanced,
}
use tiny_coroutine.Compare.Epoll.Accounts.{Accounts, told, serve-Accounts, start_epoll-empty}
use tiny_coroutine.Compare.Epoll.{
  EpollServer, EpollSetup, start_epoll, Report, take_conn, respond, handle_report, handle_reports,
  serve_epoll,
}

-- What a kernel reports: accept() answers descriptors that are not in use, and a descriptor that is
-- ready is open.
pub data IsHonest (l : ℕ) (s : EpollServer) (r : Report) : Type 0 where
  listens :
      r.fd ≡ l
      → ((conn : ℕ) → r.accepted ≡ some conn → (s.ledger.conns conn ≡ false) × (conn ≢ l))
      → IsHonest l s r
  connected : r.fd ≢ l → s.ledger.conns r.fd ≡ true → IsHonest l s r

pub data AreHonest (l : ℕ) : EpollServer → List Report → Type 0 where
  no_report : (s : EpollServer) → AreHonest l s []
  report :
      {s : EpollServer} {r : Report} {rs : List Report}
      → IsHonest l s r
      → AreHonest l (handle_report l s r).0 rs
      → AreHonest l s (r ∷ rs)

pub data IsHonestRun (l : ℕ) : EpollServer → List (Option (List Report)) → Type 0 where
  no_wait : (s : EpollServer) → IsHonestRun l s []
  failed_wait :
      (s : EpollServer) (waits : List (Option (List Report))) → IsHonestRun l s (none ∷ waits)
  wait :
      {s : EpollServer} {rs : List Report} {waits : List (Option (List Report))}
      → AreHonest l s rs
      → IsHonestRun l (handle_reports l s rs).0 waits
      → IsHonestRun l s (some rs ∷ waits)

-- The ledger is balanced, the listening socket is no connection, and as long as the program goes on it
-- watches the connections that are open and the listening socket.
pub record IsSound (l : ℕ) (s : EpollServer) (on : Bool) : Type 0 where
  pub balanced : IsBalanced s.ledger
  pub apart : s.ledger.conns l ≡ false
  pub watches : on ≡ true → (fd : ℕ) → s.watched fd ≡ (s.ledger.conns fd || fd == l)

abbrev pub IsSoundAfter : ℕ → EpollServer × Bool → Type 0
IsSoundAfter l x = IsSound l x.0 x.1

take_conn-IsSoundAfter :
    (l : ℕ) (s : EpollServer) (r : Report)
    → IsSound l s true
    → ((conn : ℕ) → r.accepted ≡ some conn → (s.ledger.conns conn ≡ false) × (conn ≢ l))
    → IsSoundAfter l (take_conn s r)
take_conn-IsSoundAfter l s r v free = elim (Option-cases r.accepted) [
  | inl e ↦ rw e v
  | inr (conn, e) ↦ elim (Bool-cases r.added) [
    | inl added ↦
        rw (e, added)
          (record {
            balanced = opened-IsBalanced s.ledger conn v.balanced (free conn e).0;
            apart = ground (arith, v.apart, free conn e);
            watches = λ h fd. ground (arith, v.watches refl fd, free conn e);
          })
    | inr refused ↦
        rw (e, refused)
          (record {
            balanced = opened-IsBalanced s.ledger conn v.balanced (free conn e).0;
            apart = ground (arith, v.apart, free conn e);
            watches = λ h. cc;
          })
  ]
]

respond-IsSoundAfter :
    (l : ℕ) (s : EpollServer) (r : Report)
    → IsSound l s true
    → r.fd ≢ l
    → s.ledger.conns r.fd ≡ true
    → IsSound l (respond s r) true
respond-IsSoundAfter l s r v ne is_open = elim (Bool-cases (r.len == 0)) [
  | inl e ↦ rw e (record {
    balanced = closed-IsBalanced s.ledger r.fd v.balanced is_open;
    apart = ground (arith, v.apart);
    watches = λ h fd. ground (arith, v.watches refl fd, ne);
  })
  | inr e ↦ rw e (record {
    balanced = closed-sent-IsBalanced s.ledger r.fd v.balanced is_open;
    apart = ground (arith, v.apart);
    watches = λ h fd. ground (arith, v.watches refl fd, ne);
  })
]

handle_report-IsSoundAfter :
    (l : ℕ) (s : EpollServer) (r : Report)
    → IsSound l s true
    → IsHonest l s r
    → IsSoundAfter l (handle_report l s r)
unfolding handle_report
handle_report-IsSoundAfter l s r v (listens e free) =
    let same : (r.fd == l) ≡ true = ground (arith, e) in
    rw same (take_conn-IsSoundAfter l s r v free)
handle_report-IsSoundAfter l s r v (connected ne is_open) =
    let other : (r.fd == l) ≡ false = ground (arith, ne) in
    rw other (respond-IsSoundAfter l s r v ne is_open)

-- After a part of the program the rest is left out where main() has returned.
continued :
    (l : ℕ) (x rest : EpollServer × Bool)
    → IsSoundAfter l x
    → (IsSound l x.0 true → IsSoundAfter l rest)
    → IsSoundAfter l (if x.1 then rest else (x.0, false))
continued l (s, true) rest v next = next v
continued l (s, false) rest v next = v

handle_reports-IsSoundAfter :
    (l : ℕ) (s : EpollServer) (rs : List Report)
    → IsSound l s true
    → AreHonest l s rs
    → IsSoundAfter l (handle_reports l s rs)
unfolding handle_reports
handle_reports-IsSoundAfter l s [] v h = v
handle_reports-IsSoundAfter l s (r ∷ rs) v (report h hs) =
    continued l (handle_report l s r) (handle_reports l (handle_report l s r).0 rs)
      (handle_report-IsSoundAfter l s r v h)
      (λ v'. handle_reports-IsSoundAfter l (handle_report l s r).0 rs v' hs)

serve-IsSoundAfter :
    (l : ℕ) (s : EpollServer) (waits : List (Option (List Report)))
    → IsSound l s true
    → IsHonestRun l s waits
    → IsSoundAfter l (serve_epoll l s waits)
unfolding serve_epoll
serve-IsSoundAfter l s [] v h = v
serve-IsSoundAfter l s (none ∷ waits) v h = record {
  balanced = v.balanced;
  apart = v.apart;
  watches = λ e. cc;
}
serve-IsSoundAfter l s (some rs ∷ waits) v (wait h hs) =
    continued l (handle_reports l s rs) (serve_epoll l (handle_reports l s rs).0 waits)
      (handle_reports-IsSoundAfter l s rs v h)
      (λ v'. serve-IsSoundAfter l (handle_reports l s rs).0 waits v' hs)

start-IsSound :
    (a : EpollSetup) (l : ℕ) (s : EpollServer) → start_epoll a ≡ some (l, s) → IsSound l s true
start-IsSound a l s h = elim (Option-cases a.listen_fd) [
  | inl e ↦ absurd (ground (arith, e, h))
  | inr (k, e) ↦ record {
    balanced = ground (arith, e, h, empty_ledger-IsBalanced);
    apart = ground (arith, e, h);
    watches = λ q fd. ground (arith, e, h);
  }
]

-- Where accept() answers descriptors that are not in use and epoll_wait reports open ones: whatever
-- the server over epoll is told, each descriptor was closed as often as it was accepted, but for one
-- that is open, and not answered more often than closed. While it goes on it watches the open
-- connections and the listening socket only. Up to the report at which main() returns, it accepted
-- each connection that a report brings, closed a connection for each report on it, and answered one
-- for each of those that came with bytes.
pub epoll_serves :
    (a : EpollSetup) (l : ℕ) (s : EpollServer) (waits : List (Option (List Report)))
    → start_epoll a ≡ some (l, s)
    → IsHonestRun l s waits
    → IsSoundAfter l (serve_epoll l s waits)
      × Accounts l empty_ledger (told l waits) ((serve_epoll l s waits).0).ledger
epoll_serves a l s waits h honest = (
  serve-IsSoundAfter l s waits (start-IsSound a l s h) honest,
  subst (λ (old : Ledger). Accounts l old (told l waits) ((serve_epoll l s waits).0).ledger)
      (start_epoll-empty a l s h) (serve-Accounts l s waits),
)
