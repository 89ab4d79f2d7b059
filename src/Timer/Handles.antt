-- ===== src/Timer/Handles.antt =====
-- code/timer.cpp: what a holder of a Timer gets from cancel, refresh and reset.
use tiny_coroutine.Base.{
  ℕ, suc, ◌+◌, ◌≡◌, refl, Bool, true, false, ◌&&◌, not, Option, none, some, arith, ◌==◌,
  if◌then◌else◌, contains, is_some, ◌∙◌, ap, ◌≢◌,
}
use tiny_coroutine.Callback.{Callback}
use tiny_coroutine.OrderedSet.{find, has_key, find_member, contains-has_key}
use tiny_coroutine.Timer.{
  Timer, TimerManager, milliseconds, next_of, add_timer_ptr, add_timer, new_timer, cancel, refresh,
  reset,
}
use tiny_coroutine.Timer.Valid.{IsValid, add_timer-IsValid, fresh_out}
use tiny_coroutine.Timer.Lookup.{contains-add_timer, contains-cancel}

heap-cancel :
    (m : TimerManager) (t j : ℕ)
    → (cancel m t).0.heap j ≡ (if t == j then record (m.heap j) { cb = none } else m.heap j)
unfolding cancel
heap-cancel m t j = ground arith

cancel_answer : (m : TimerManager) (t : ℕ) → (cancel m t).1 ≡ is_some (m.heap t).cb
unfolding cancel
cancel_answer m t = ground arith

cancel_idle : (m : TimerManager) (t : ℕ) → (m.heap t).cb ≡ none → cancel m t ≡ (m, false)
unfolding cancel
cancel_idle m t h = ground arith

-- On a valid state a timer is cancelled once: the first call answers whether its callback was there,
-- afterwards the timer has no callback and, if it had one, is not in the set, and a second call
-- answers false and changes nothing.
pub cancel_once :
    (m : TimerManager) (t : ℕ)
    → IsValid m
    → let r = cancel m t in
      (r.1 ≡ is_some (m.heap t).cb)
      × ((r.0.heap t).cb ≡ none)
      × (r.1 ≡ true → contains t r.0.timers ≡ false)
      × (cancel r.0 t ≡ (r.0, false))
cancel_once m t v = (
  cancel_answer m t,
  cleared,
  λ h. ground (arith, contains-cancel m t t v, cancel_answer m t, h),
  cancel_idle (cancel m t).0 t cleared,
)
  where
    cleared : ((cancel m t).0.heap t).cb ≡ none
    cleared = ground (arith, heap-cancel m t t)

module _ (m : TimerManager) (t : ℕ) (v : IsValid m) (c : contains t m.timers ≡ true) where
  found : find (next_of m) t m.timers ≡ some t
  found = find_member (next_of m) t m.timers v.ordered c

  -- On a valid state, refreshing a timer that has its callback and is in the set moves its deadline
  -- to one period after `now`, answers true, and touches no other timer.
  pub refresh_moves :
      (now : ℕ)
      → is_some (m.heap t).cb ≡ true
      → let r = refresh m t now in
        (r.1 ≡ true)
        × (r.0.heap t ≡ record (m.heap t) { next = now + milliseconds (m.heap t).ms })
        × ((j : ℕ) → t ≢ j → r.0.heap j ≡ m.heap j)
  unfolding refresh
  refresh_moves now on = rw (on, found) (refl, ground arith, λ j ne. ground arith)

  -- On a valid state, resetting a timer that has its callback and is in the set, to another period
  -- or from now, answers true and gives it the new period. Its deadline is then one new period after
  -- `now` or, if it is not reset from now, after the start of its running period. No other timer is
  -- touched.
  pub reset_moves :
      (ms : ℕ) (from_now : Bool) (now : ℕ)
      → is_some (m.heap t).cb ≡ true
      → (ms == (m.heap t).ms && not from_now) ≡ false
      → let r = reset m t ms from_now now in
        (r.1 ≡ true)
        × ((r.0.heap t).ms ≡ ms)
        × (from_now ≡ true → next_of r.0 t ≡ now + milliseconds ms)
        × (from_now ≡ false
            → next_of r.0 t + milliseconds (m.heap t).ms ≡ next_of m t + milliseconds ms)
        × ((j : ℕ) → t ≢ j → r.0.heap j ≡ m.heap j)
  unfolding reset
  reset_moves ms from_now now on other =
      rw (other, on, found)
        (
          refl,
          ground arith,
          λ e. ground arith,
          λ e. ground (arith, v.started t),
          λ j ne. ground arith,
        )

pub heap-add_timer :
    (m : TimerManager) (ms : ℕ) (cb : Option Callback) (recurring : Bool) (now j : ℕ)
    → (add_timer m ms cb recurring now).0.heap j
      ≡ (if m.fresh == j then new_timer ms cb recurring now else m.heap j)
unfolding add_timer add_timer_ptr
heap-add_timer m ms cb recurring now j = refl

pub fresh-add_timer :
    (m : TimerManager) (ms : ℕ) (cb : Option Callback) (recurring : Bool) (now : ℕ)
    → ((add_timer m ms cb recurring now).0.fresh ≡ suc m.fresh)
      × ((add_timer m ms cb recurring now).1 ≡ m.fresh)
unfolding add_timer add_timer_ptr
fresh-add_timer m ms cb recurring now = (refl, refl)

module _ (m : TimerManager) (ms ms' : ℕ) (cb : Option Callback) (cb' : Callback)
    (recurring recurring' : Bool) (now now' : ℕ) where
  -- The state after one addition, and after a second one.
  abbrev pub first : TimerManager
  first = (add_timer m ms cb recurring now).0

  abbrev pub second : TimerManager
  second = (add_timer first ms' (some cb') recurring' now').0

  -- Two timers with one deadline, where a valid set has none of that deadline before: the second is
  -- never in the set, and cancelling it takes the first one out, whose callback is still there.
  pub same_deadline_lost :
      IsValid m
      → now + milliseconds ms ≡ now' + milliseconds ms'
      → has_key (next_of m) (now + milliseconds ms) m.timers ≡ false
      → let t = (add_timer m ms cb recurring now).1 in
        let u = (add_timer first ms' (some cb') recurring' now').1 in
        (contains t first.timers ≡ true)
        × (contains u second.timers ≡ false)
        × (contains t (cancel second u).0.timers ≡ false)
        × (((cancel second u).0.heap t).cb ≡ cb)
  unfolding new_timer
  same_deadline_lost v same free =
      rw
        (
          (fresh-add_timer m ms cb recurring now).1,
          (fresh-add_timer first ms' (some cb') recurring' now').1,
        )
        (here, lost, evicted, kept)
    where
      v1 : IsValid first
      v1 = add_timer-IsValid m ms cb recurring now v

      v2 : IsValid second
      v2 = add_timer-IsValid first ms' (some cb') recurring' now' v1

      here : contains m.fresh first.timers ≡ true
      here = ground (arith, contains-add_timer m ms cb recurring now m.fresh v, free)

      first_heap : first.heap m.fresh ≡ new_timer ms cb recurring now
      first_heap = ground (arith, heap-add_timer m ms cb recurring now m.fresh)

      key : next_of first m.fresh ≡ now' + milliseconds ms'
      key = ap (λ (x : Timer). x.next) first_heap ∙ same

      taken : has_key (next_of first) (now' + milliseconds ms') first.timers ≡ true
      taken = rw (← key) (contains-has_key (next_of first) m.fresh first.timers here)

      lost : contains first.fresh second.timers ≡ false
      lost = ground (
        arith,
        contains-add_timer first ms' (some cb') recurring' now' first.fresh v1,
        taken,
        fresh_out first v1,
      )

      older : (first.fresh == m.fresh) ≡ false
      older = ground (arith, (fresh-add_timer m ms cb recurring now).0)

      second_old : second.heap m.fresh ≡ first.heap m.fresh
      second_old =
          ground (arith, heap-add_timer first ms' (some cb') recurring' now' m.fresh, older)

      second_new : second.heap first.fresh ≡ new_timer ms' (some cb') recurring' now'
      second_new = ground (arith, heap-add_timer first ms' (some cb') recurring' now' first.fresh)

      evicted : contains m.fresh (cancel second first.fresh).0.timers ≡ false
      evicted = ground (
        arith,
        contains-cancel second first.fresh m.fresh v2,
        ap (λ (x : Timer). x.cb) second_new,
        ap (λ (x : Timer). x.next) second_new,
        ap (λ (x : Timer). x.next) second_old,
        key,
      )

      kept : ((cancel second first.fresh).0.heap m.fresh).cb ≡ cb
      kept = ground (
        arith,
        heap-cancel second first.fresh m.fresh,
        older,
        ap (λ (x : Timer). x.cb) second_old,
        ap (λ (x : Timer). x.cb) first_heap,
      )
