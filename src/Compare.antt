-- ===== src/Compare.antt =====
-- epoll/main.cpp and libevent/main.cpp: the servers that the library is compared with.
--
-- Both take connections, answer a request on each, and close it. A Ledger has the connections that are
-- open, and what was accepted, answered and closed, newest first.
pub mod Epoll
pub mod Libevent
pub mod Tests
use tiny_coroutine.Base.{
  ℕ, ◌+◌, ◌≤◌, ◌≡◌, Bool, true, false, List, [], ◌∷◌, ◌==◌, if◌then◌else◌, update, arith, count,
}

pub record Ledger : Type 0 where
  pub conns : ℕ → Bool
  pub accepts : List ℕ
  pub answers : List ℕ
  pub closes : List ℕ

abbrev pub empty_ledger : Ledger
empty_ledger = record { conns = λ fd. false; accepts = []; answers = []; closes = [] }

-- accept() answers `fd`; the answer is sent to it; and close().
abbrev pub opened : Ledger → ℕ → Ledger
opened l fd = record l { conns = update l.conns fd true; accepts = fd ∷ l.accepts }

abbrev pub sent : Ledger → ℕ → Ledger
sent l fd = record l { answers = fd ∷ l.answers }

abbrev pub closed : Ledger → ℕ → Ledger
closed l fd = record l { conns = update l.conns fd false; closes = fd ∷ l.closes }

-- Each connection was closed as often as it was accepted, but for one that is open; and not answered
-- more often than closed.
pub record IsBalanced (l : Ledger) : Type 0 where
  pub balance :
      (fd : ℕ)
      → count (λ i. i == fd) l.accepts
        ≡ count (λ i. i == fd) l.closes + (if l.conns fd then 1 else 0)
  pub answered : (fd : ℕ) → count (λ i. i == fd) l.answers ≤ count (λ i. i == fd) l.closes

pub empty_ledger-IsBalanced : IsBalanced empty_ledger
empty_ledger-IsBalanced = record { balance = λ fd. omega arith; answered = λ fd. omega arith }

pub opened-IsBalanced :
    (l : Ledger) (fd : ℕ) → IsBalanced l → l.conns fd ≡ false → IsBalanced (opened l fd)
opened-IsBalanced l fd b h = record {
  balance = λ i. ground (arith, b.balance i, h);
  answered = b.answered;
}

pub closed-IsBalanced :
    (l : Ledger) (fd : ℕ) → IsBalanced l → l.conns fd ≡ true → IsBalanced (closed l fd)
closed-IsBalanced l fd b h = record {
  balance = λ i. ground (arith, b.balance i, h);
  answered = λ i. ground (arith, b.answered i);
}

pub closed-sent-IsBalanced :
    (l : Ledger) (fd : ℕ) → IsBalanced l → l.conns fd ≡ true → IsBalanced (closed (sent l fd) fd)
closed-sent-IsBalanced l fd b h = record {
  balance = λ i. ground (arith, b.balance i, h);
  answered = λ i. ground (arith, b.answered i);
}
