-- ===== src/Timer/Calendar.antt =====
-- What the timers of code/timer.h promise, without the set: a calendar, which holds at most one timer
-- for each deadline.
use tiny_coroutine.Base.{
  ℕ, suc, ◌+◌, ◌-◌, Bool, true, false, ◌&&◌, not, Option, none, some, List, [], ◌∷◌, ◌==◌,
  if◌then◌else◌, is_some, update,
}
use tiny_coroutine.Callback.{Callback}
use tiny_coroutine.Timer.{Timer, milliseconds}

pub record Calendar : Type 0 where
  pub agenda : ℕ → Option ℕ
  pub heap : ℕ → Timer
  pub fresh : ℕ

-- A deadline is booked for a timer unless it is taken, and is given up.
abbrev pub book : (ℕ → Option ℕ) → ℕ → ℕ → ℕ → Option ℕ
book agenda due t k =
    if due == k then (if is_some (agenda k) then agenda k else some t) else agenda k

abbrev pub clear : (ℕ → Option ℕ) → ℕ → ℕ → Option ℕ
clear agenda due k = if due == k then none else agenda k

abbrev pub move : Calendar → ℕ → Timer → Calendar
move c t tm = record c {
  agenda = book (clear c.agenda (c.heap t).next) tm.next t;
  heap = update c.heap t tm;
}

-- A timer can be moved while it has its callback and its deadline is taken.
abbrev pub can_move : Calendar → ℕ → Bool
can_move c t = is_some (c.heap t).cb && is_some (c.agenda (c.heap t).next)

abbrev pub add : Calendar → ℕ → Option Callback → Bool → ℕ → Calendar × ℕ
add c ms cb recurring now = (
  record c {
    agenda = book c.agenda (now + milliseconds ms) c.fresh;
    heap =
        update c.heap c.fresh
          (record { recurring = recurring; ms = ms; next = now + milliseconds ms; cb = cb });
    fresh = suc c.fresh;
  },
  c.fresh,
)

abbrev pub cancel : Calendar → ℕ → Calendar × Bool
cancel c t =
    if is_some (c.heap t).cb
    then (
      record c {
        agenda = clear c.agenda (c.heap t).next;
        heap = update c.heap t (record (c.heap t) { cb = none });
      },
      true,
    )
    else (c, false)

abbrev pub refresh : Calendar → ℕ → ℕ → Calendar × Bool
refresh c t now =
    if can_move c t
    then (move c t (record (c.heap t) { next = now + milliseconds (c.heap t).ms }), true)
    else (c, false)

abbrev pub reset : Calendar → ℕ → ℕ → Bool → ℕ → Calendar × Bool
reset c t ms from_now now =
    if ms == (c.heap t).ms && not from_now
    then (c, true)
    else if can_move c t
    then (let start = if from_now then now else (c.heap t).next - milliseconds (c.heap t).ms in
        (move c t (record (c.heap t) { ms = ms; next = start + milliseconds ms }), true))
    else (c, false)

-- The calls of the users of timers, and what they answer.
pub data Request : Type 0 where
  adds : ℕ → Option Callback → Bool → ℕ → Request
  cancels : ℕ → Request
  refreshes : ℕ → ℕ → Request
  resets : ℕ → ℕ → Bool → ℕ → Request

pub data Answer : Type 0 where
  timer : ℕ → Answer
  verdict : Bool → Answer

abbrev pub serve : Calendar → Request → Calendar × Answer
serve c (adds ms cb recurring now) = let (c', t) = add c ms cb recurring now in (c', timer t)
serve c (cancels t) = let (c', b) = cancel c t in (c', verdict b)
serve c (refreshes t now) = let (c', b) = refresh c t now in (c', verdict b)
serve c (resets t ms from_now now) = let (c', b) = reset c t ms from_now now in (c', verdict b)

unfoldable pub run : Calendar → List Request → List Answer
run c [] = []
run c (r ∷ rs) = let (c', a) = serve c r in a ∷ run c' rs
