-- ===== src/Compare/Epoll/Accounts.antt =====
-- epoll/main.cpp: the accepts, answers and closes of the server over epoll, by what it was told.
use tiny_coroutine.Base.{
  ℕ, ◌+◌, ◌≡◌, refl, Bool, true, false, ◌&&◌, not, Option, none, some, List, [], ◌∷◌, ◌++◌, ◌==◌,
  if◌then◌else◌, is_some, count, count-append, arith, Bool-cases, Option-cases, inl, inr,
}
use tiny_coroutine.Compare.{Ledger, empty_ledger}
use tiny_coroutine.Compare.Epoll.{
  EpollServer, EpollSetup, start_epoll, Report, handle_report, handle_reports, serve_epoll,
}

-- Is the report that a connection comes which epoll_ctl refuses, whereupon main() returns?
abbrev pub ends_main : ℕ → Report → Bool
ends_main l r = r.fd == l && (is_some r.accepted && not r.added)

-- The reports that the server handles, and whether it goes on behind them.
abbrev pub handled : ℕ → List Report → List Report × Bool
handled l [] = ([], true)
handled l (r ∷ rs) =
    let rest = handled l rs in if ends_main l r then (r ∷ [], false) else (r ∷ rest.0, rest.1)

-- The same for what epoll_wait answers: up to its failure, or to the end of main().
abbrev pub told : ℕ → List (Option (List Report)) → List Report
told l [] = []
told l (none ∷ waits) = []
told l (some rs ∷ waits) =
    let rest = told l waits in (handled l rs).0 ++ (if (handled l rs).1 then rest else [])

-- Does the report bring the connection `fd`?
abbrev pub brings : ℕ → ℕ → Report → Bool
brings l fd r = r.fd == l && elim r.accepted [ none ↦ false | some conn ↦ conn == fd ]

-- Is the report one on the connection `fd`, and does it bring bytes?
abbrev pub concerns : ℕ → ℕ → Report → Bool
concerns l fd r = not (r.fd == l) && r.fd == fd

abbrev pub asks : ℕ → ℕ → Report → Bool
asks l fd r = concerns l fd r && not (r.len == 0)

-- What the reports add to the ledger `old`: each connection that one brings, an answer for each that comes
-- with bytes, and a close for each on a connection.
pub record Accounts (l : ℕ) (old : Ledger) (rs : List Report) (new : Ledger) : Type 0 where
  pub accepted :
      (fd : ℕ)
      → count (λ i. i == fd) new.accepts ≡ count (λ i. i == fd) old.accepts + count (brings l fd) rs
  pub answered :
      (fd : ℕ)
      → count (λ i. i == fd) new.answers ≡ count (λ i. i == fd) old.answers + count (asks l fd) rs
  pub closed :
      (fd : ℕ)
      → count (λ i. i == fd) new.closes ≡ count (λ i. i == fd) old.closes + count (concerns l fd) rs

nothing-Accounts : (l : ℕ) (old : Ledger) → Accounts l old [] old
nothing-Accounts l old = record {
  accepted = λ fd. omega arith;
  answered = λ fd. omega arith;
  closed = λ fd. omega arith;
}

-- One part of the reports after the other.
append-Accounts :
    (l : ℕ) (old mid new : Ledger) (rs qs : List Report)
    → Accounts l old rs mid
    → Accounts l mid qs new
    → Accounts l old (rs ++ qs) new
append-Accounts l old mid new rs qs a b = record {
  accepted = λ fd. omega (arith, a.accepted fd, b.accepted fd, count-append (brings l fd) rs qs);
  answered = λ fd. omega (arith, a.answered fd, b.answered fd, count-append (asks l fd) rs qs);
  closed = λ fd. omega (arith, a.closed fd, b.closed fd, count-append (concerns l fd) rs qs);
}

handle_report-Accounts :
    (l : ℕ) (s : EpollServer) (r : Report)
    → Accounts l s.ledger (r ∷ []) ((handle_report l s r).0).ledger
unfolding handle_report
handle_report-Accounts l s r = record {
  accepted = λ fd. ground arith;
  answered = λ fd. ground arith;
  closed = λ fd. ground arith;
}

goes_on : (l : ℕ) (s : EpollServer) (r : Report) → (handle_report l s r).1 ≡ not (ends_main l r)
unfolding handle_report
goes_on l s r = ground arith

handle_reports-Accounts :
    (l : ℕ) (s : EpollServer) (rs : List Report)
    → Accounts l s.ledger (handled l rs).0 ((handle_reports l s rs).0).ledger
      × ((handle_reports l s rs).1 ≡ (handled l rs).1)
unfolding handle_reports
handle_reports-Accounts l s [] = (nothing-Accounts l s.ledger, refl)
handle_reports-Accounts l s (r ∷ rs) =
    let first = handle_report-Accounts l s r in
    let (rest, on) = handle_reports-Accounts l (handle_report l s r).0 rs in
    elim (Bool-cases (ends_main l r)) [
      | inl e ↦ rw (goes_on l s r, e) (first, refl)
      | inr e ↦ rw (goes_on l s r, e) (append-Accounts l _ _ _ (r ∷ []) _ first rest, on)
    ]

pub serve-Accounts :
    (l : ℕ) (s : EpollServer) (waits : List (Option (List Report)))
    → Accounts l s.ledger (told l waits) ((serve_epoll l s waits).0).ledger
unfolding serve_epoll
serve-Accounts l s [] = nothing-Accounts l s.ledger
serve-Accounts l s (none ∷ waits) = nothing-Accounts l s.ledger
serve-Accounts l s (some rs ∷ waits) =
    let (first, on) = handle_reports-Accounts l s rs in
    let rest = serve-Accounts l (handle_reports l s rs).0 waits in
    elim (Bool-cases (handled l rs).1) [
      | inl e ↦ rw (on, e) (append-Accounts l _ _ _ (handled l rs).0 _ first rest)
      | inr e ↦
          rw (on, e) (append-Accounts l _ _ _ (handled l rs).0 [] first (nothing-Accounts l _))
    ]

pub start_epoll-empty :
    (a : EpollSetup) (l : ℕ) (s : EpollServer)
    → start_epoll a ≡ some (l, s)
    → s.ledger ≡ empty_ledger
start_epoll-empty a l s h = elim (Option-cases a.listen_fd) [
  | inl e ↦ absurd (ground (arith, e, h))
  | inr (k, e) ↦ ground (arith, e, h)
]
