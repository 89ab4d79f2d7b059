-- ===== src/Timer.antt =====
-- code/timer.h and code/timer.cpp: the timers and their manager.
--
-- A Timer object is an entry of `heap` under its identifier, and `fresh` is the next one; the
-- manager's set is the list of the identifiers in it. A point in time is its count of nanoseconds
-- since the epoch, the resolution of std::chrono::system_clock, whose readings are arguments `now`.
-- `m_manager` is the one manager, and the locks are left out: each function is one critical section,
-- but for reset, which has two, listExpireCb, whose look at the clock comes before its lock, and the
-- functions that end in onTimerInsertedAtFront(), which is called behind the lock.
pub mod Valid
pub mod Lookup
pub mod Expire
pub mod Fate
pub mod History
pub mod Outcome
pub mod Handles
pub mod Calendar
pub mod Refine
pub mod Tests
use tiny_coroutine.Base.{
  ℕ, suc, ◌+◌, ◌-◌, ◌*◌, ◌/◌, ◌^◌, ◌≡◌, Bool, true, false, ◌&&◌, ◌||◌, not, Option, none, some,
  List, [], ◌∷◌, ◌++◌, zero, ltb, leb, ◌==◌, if◌then◌else◌, is_some, is_empty, update,
}
use tiny_coroutine.Callback.{Callback, on_timer}
use tiny_coroutine.OrderedSet
use tiny_coroutine.OrderedSet.{find, erase, less, is_begin}

pub record Timer : Type 0 where
  pub recurring : Bool
  pub ms : ℕ
  pub next : ℕ
  pub cb : Option Callback

pub record TimerManager : Type 0 where
  pub timers : List ℕ
  pub tickled : Bool
  pub pre_time : ℕ
  pub heap : ℕ → Timer
  pub fresh : ℕ

-- std::chrono::milliseconds(ms), in nanoseconds.
abbrev pub milliseconds : ℕ → ℕ
milliseconds ms = ms * 1000000

-- ~0ull
abbrev pub no_timer : ℕ
no_timer = 2 ^ 64 - 1

-- What the comparator reads of an entry.
abbrev pub next_of : TimerManager → ℕ → ℕ
next_of m i = (m.heap i).next

-- Timer::Comparator::operator().
abbrev pub comparator : TimerManager → ℕ → ℕ → Bool
comparator m lhs rhs = less (next_of m) lhs rhs

-- TimerManager::TimerManager.
unfoldable pub init : ℕ → TimerManager
init now = record {
  timers = [];
  tickled = false;
  pre_time = now;
  heap = λ _. record { recurring = false; ms = 0; next = 0; cb = none };
  fresh = 0;
}

-- Timer::Timer.
unfoldable pub new_timer : ℕ → Option Callback → Bool → ℕ → Timer
new_timer ms cb recurring now = record {
  recurring = recurring;
  ms = ms;
  next = now + milliseconds ms;
  cb = cb;
}

-- A write to an object.
abbrev pub write_timer : TimerManager → ℕ → Timer → TimerManager
write_timer m t tm = record m { heap = update m.heap t tm }

-- TimerManager::addTimer(std::shared_ptr<Timer>); the result says whether it calls
-- onTimerInsertedAtFront(). `insert(timer).first` is the entry that the set then holds under the
-- key.
unfoldable pub add_timer_ptr : TimerManager → ℕ → TimerManager × Bool
add_timer_ptr m t =
    let timers = OrderedSet.insert (next_of m) t m.timers in
    let it = find (next_of m) t timers in
    let at_front = is_begin timers it && not m.tickled in
    (record m { timers = timers; tickled = m.tickled || at_front }, at_front)

-- TimerManager::addTimer(uint64_t, std::function<void()>, bool): the new timer, and whether
-- onTimerInsertedAtFront() is called.
unfoldable pub add_timer : TimerManager → ℕ → Option Callback → Bool → ℕ → TimerManager × ℕ × Bool
unfolding new_timer add_timer_ptr
add_timer m ms cb recurring now =
    let t = m.fresh in
    let m' = record m {
      heap = update m.heap t (new_timer ms cb recurring now);
      fresh = suc m.fresh;
    } in
    let (m'', at_front) = add_timer_ptr m' t in (m'', t, at_front)

-- TimerManager::addConditionTimer.
unfoldable pub add_condition_timer :
    TimerManager → ℕ → Callback → ℕ → Bool → ℕ → TimerManager × ℕ × Bool
unfolding add_timer
add_condition_timer m ms cb weak_cond recurring now =
    add_timer m ms (some (on_timer weak_cond cb)) recurring now

-- Timer::cancel.
unfoldable pub cancel : TimerManager → ℕ → TimerManager × Bool
cancel m t =
    if is_some (m.heap t).cb
    then (let m' = write_timer m t (record (m.heap t) { cb = none }) in
        elim (find (next_of m') t m'.timers) [
          | none ↦ (m', true)
          | some it ↦ (record m' { timers = erase (next_of m') it m'.timers }, true)
        ])
    else (m, false)

-- Timer::refresh.
unfoldable pub refresh : TimerManager → ℕ → ℕ → TimerManager × Bool
refresh m t now =
    if is_some (m.heap t).cb
    then (elim (find (next_of m) t m.timers) [
      | none ↦ (m, false)
      | some it ↦
          let rest = erase (next_of m) it m.timers in
          let m' =
            write_timer m t (record (m.heap t) { next = now + milliseconds (m.heap t).ms }) in
          (record m' { timers = OrderedSet.insert (next_of m') t rest }, true)
    ])
    else (m, false)

-- The first section of Timer::reset: does it take the timer out?
abbrev pub reset_out : TimerManager → ℕ → TimerManager × Bool
reset_out m t =
    if is_some (m.heap t).cb
    then (elim (find (next_of m) t m.timers) [
      | none ↦ (m, false)
      | some it ↦ (record m { timers = erase (next_of m) it m.timers }, true)
    ])
    else (m, false)

-- The rest of Timer::reset, whose second section is in addTimer.
abbrev pub reset_in : TimerManager → ℕ → ℕ → Bool → ℕ → TimerManager × Bool
reset_in m t ms from_now now =
    let start = if from_now then now else (m.heap t).next - milliseconds (m.heap t).ms in
    add_timer_ptr
      (record m {
        heap = update m.heap t (record (m.heap t) { ms = ms; next = start + milliseconds ms });
      })
      t

-- Timer::reset: the new state, the value returned, and whether onTimerInsertedAtFront() is called. Other
-- threads can come between its two sections: History has them also as calls of their own.
unfoldable pub reset : TimerManager → ℕ → ℕ → Bool → ℕ → TimerManager × Bool × Bool
unfolding add_timer_ptr
reset m t ms from_now now =
    if ms == (m.heap t).ms && not from_now
    then (m, true, false)
    else let (m', out) = reset_out m t in
      let (m'', at_front) = reset_in m' t ms from_now now in
      if out then (m'', true, at_front) else (m', false, false)

-- TimerManager::detectClockRollover.
unfoldable pub detect_clock_rollover : TimerManager → ℕ → TimerManager × Bool
detect_clock_rollover m now =
    (record m { pre_time = now }, ltb now (m.pre_time - milliseconds (60 * 60 * 1000)))

-- TimerManager::getNextTimer.
abbrev pub wait_for : (ℕ → Timer) → List ℕ → ℕ → ℕ
wait_for heap [] now = no_timer
wait_for heap (t ∷ _) now = if leb (heap t).next now then 0 else ((heap t).next - now) / 1000000

unfoldable pub get_next_timer : TimerManager → ℕ → TimerManager × ℕ
get_next_timer m now = (record m { tickled = false }, wait_for m.heap m.timers now)

-- The body of the loop of listExpireCb, for the first entry `t` before the others `rest`.
unfoldable pub expire_one : TimerManager → ℕ → List ℕ → ℕ → TimerManager
expire_one m t rest now =
    if (m.heap t).recurring
    then (let m' =
          write_timer m t (record (m.heap t) { next = now + milliseconds (m.heap t).ms }) in
        record m' { timers = OrderedSet.insert (next_of m') t rest })
    else record m { timers = rest; heap = update m.heap t (record (m.heap t) { cb = none }) }

-- The test of the loop: the first entry and the others where the loop goes on.
unfoldable pub first_due : Bool → ℕ → (ℕ → Timer) → List ℕ → Option (ℕ × List ℕ)
first_due rollover now heap [] = none
first_due rollover now heap (t ∷ rest) =
    if rollover || leb (heap t).next now then some (t, rest) else none

-- The loop of listExpireCb; `none` when the fuel runs out.
unfoldable pub expire_loop :
    ℕ
    → Bool
    → ℕ
    → TimerManager
    → List (Option Callback)
    → Option (TimerManager × List (Option Callback))
expire_loop zero rollover now m cbs = none
expire_loop (suc fuel) rollover now m cbs = elim (first_due rollover now m.heap m.timers) [
  | none ↦ some (m, cbs)
  | some (t, rest) ↦
      expire_loop fuel rollover now (expire_one m t rest now) (cbs ++ (m.heap t).cb ∷ [])
]

-- TimerManager::listExpireCb; `later` is the reading in detectClockRollover.
unfoldable pub list_expire_cb :
    ℕ → TimerManager → ℕ → ℕ → Option (TimerManager × List (Option Callback))
unfolding detect_clock_rollover
list_expire_cb fuel m now later =
    let (m', rollover) = detect_clock_rollover m later in expire_loop fuel rollover now m' []

-- TimerManager::hasTimer.
unfoldable pub has_timer : TimerManager → Bool
has_timer m = not (is_empty m.timers)
