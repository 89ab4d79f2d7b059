-- ===== src/Timer/Outcome.antt =====
-- code/timer.cpp: what a whole call of TimerManager::listExpireCb does to one timer, and when it does
-- not come to an end.
use tiny_coroutine.Base.{
  ℕ, zero, suc, ◌+◌, ◌-◌, ◌*◌, ◌≤◌, ◌<◌, ◌≡◌, refl, true, false, ◌&&◌, Option, none, some, List, [],
  ◌∷◌, ◌++◌, arith, ltb, contains, update, Option-cases, inl, inr, subst, ap, ◌∙◌, ◌⊎◌, ◌≢◌,
}
use tiny_coroutine.Callback.{Callback}
use tiny_coroutine.OrderedSet.{distinct_keys, insert_nonempty, contains_of_insert}
use tiny_coroutine.Timer.{
  Timer, TimerManager, milliseconds, next_of, first_due, expire_one, expire_loop, list_expire_cb,
}
use tiny_coroutine.Timer.Valid.{IsValid, expire_one-IsValid, expire_loop-IsValid, first_due-some}
use tiny_coroutine.Timer.Expire.{Head, head, first_due-none, expire_loop_next}
use tiny_coroutine.Timer.Fate.{expire_loop_keeps, expired, step_fate, Waits-expire_one, Waits, Over}

-- A loop that ended has left no timer that is due.
expire_loop_end :
    (fuel now : ℕ) (m m' : TimerManager) (cbs cbs' : List (Option Callback))
    → IsValid m
    → expire_loop fuel false now m cbs ≡ some (m', cbs')
    → (j : ℕ) → contains j m'.timers ≡ true
    → now < next_of m' j
unfolding expire_loop
expire_loop_end zero now m m' cbs cbs' v h = cc
expire_loop_end (suc fuel) now m m' cbs cbs' v h =
    elim (Option-cases (first_due false now m.heap m.timers)) [
      | inl e ↦ subst Later (stop e) (first_due-none now m v e).1
      | inr (d, e) ↦
          expire_loop_end fuel now (expire_one m d.0 d.1 now) m' (cbs ++ (m.heap d.0).cb ∷ []) cbs'
            (expire_one-IsValid m d.0 d.1 now v (head now m d.0 d.1 v e).split)
            (rw (e, expire_loop) at h)
    ]
  where
    Later : TimerManager → Type 0
    Later n = (j : ℕ) → contains j n.timers ≡ true → now < next_of n j

    stop : first_due false now m.heap m.timers ≡ none → m ≡ m'
    stop e = ground (arith, e, h)

-- A call that ends, while the clock does not run back by more than an hour.
module _ (fuel : ℕ) (m m' : TimerManager) (now later : ℕ) (cbs : List (Option Callback))
    (valid : IsValid m) (steady : m.pre_time ≤ later + milliseconds (60 * 60 * 1000))
    (result : list_expire_cb fuel m now later ≡ some (m', cbs)) where
  abbrev dated : TimerManager
  dated = record m { pre_time = later }

  dated-IsValid : IsValid dated
  dated-IsValid = record {
    ordered = valid.ordered;
    allocated = valid.allocated;
    started = valid.started;
  }

  loop_result : expire_loop fuel false now dated [] ≡ some (m', cbs)
  unfolding list_expire_cb
  loop_result =
      let no_rollover : ltb later (m.pre_time - milliseconds (60 * 60 * 1000)) ≡ false =
        ground arith in
      rw no_rollover at result

  -- On a valid state, after a call of listExpireCb that has come to its end, while the clock did not
  -- run back by more than an hour: a timer of the set that was due, with a period if it recurs, is
  -- over. One that recurs has the deadline `now` plus its period, and a one-shot timer has lost its
  -- callback and is out of the set.
  pub due_timer_over :
      (j : ℕ)
      → contains j m.timers ≡ true
      → next_of m j ≤ now
      → ((m.heap j).recurring ≡ true → 0 < (m.heap j).ms)
      → (m'.heap j ≡ expired now (m.heap j))
        × ((m.heap j).recurring ≡ false → contains j m'.timers ≡ false)
  due_timer_over j c due paced = elim fate [
    | inl w ↦ absurd (omega (arith, gone w.0, ap (λ (x : Timer). x.next) w.1))
    | inr o ↦ o
  ]
    where
      fate : Waits now j (m.heap j) m' ⊎ Over now j (m.heap j) m'
      fate =
          expire_loop_keeps _ now (step_fate now j (m.heap j) paced) fuel dated m' [] cbs
            dated-IsValid loop_result (inl (c, refl))

      gone : contains j m'.timers ≡ true → now < next_of m' j
      gone = expire_loop_end fuel now dated m' [] cbs dated-IsValid loop_result j

  -- On a valid state, after a call of listExpireCb that has come to its end, while the clock did not
  -- run back by more than an hour: a timer of the set that was not due is in it as it was.
  pub later_timer_waits :
      (j : ℕ)
      → contains j m.timers ≡ true
      → now < next_of m j
      → (contains j m'.timers ≡ true) × (m'.heap j ≡ m.heap j)
  later_timer_waits j c h =
      expire_loop_keeps (Waits now j (m.heap j)) now keep fuel dated m' [] cbs dated-IsValid
        loop_result (c, refl)
    where
      keep :
          (n : TimerManager) (t : ℕ) (rest : List ℕ)
          → IsValid n
          → Head now n t rest
          → Waits now j (m.heap j) n
          → Waits now j (m.heap j) (expire_one n t rest now)
      keep n t rest v f w =
          Waits-expire_one now j (m.heap j) n t rest v f
            (ground (arith, f.due, ap (λ (x : Timer). x.next) w.1)) w

  -- On a valid state, after a call of listExpireCb that has come to its end, while the clock did not
  -- run back by more than an hour: two timers of the set that recur with one period and were due are
  -- not both in the set. They have one deadline then, and the set takes only one timer of a
  -- deadline.
  pub same_period_lost :
      (i j : ℕ)
      → i ≢ j
      → contains i m.timers ≡ true
      → contains j m.timers ≡ true
      → next_of m i ≤ now
      → next_of m j ≤ now
      → (m.heap i).recurring ≡ true
      → (m.heap j).recurring ≡ true
      → 0 < (m.heap i).ms
      → (m.heap i).ms ≡ (m.heap j).ms
      → (contains i m'.timers && contains j m'.timers) ≡ false
  same_period_lost i j ne ci cj di dj ri rj pos same =
      ground (arith, distinct_keys (next_of m') i j m'.timers final.ordered ne, equal)
    where
      final : IsValid m'
      final = expire_loop-IsValid fuel false now dated m' [] cbs dated-IsValid loop_result

      equal : next_of m' i ≡ next_of m' j
      equal = ground (
        arith,
        (due_timer_over i ci di (λ _. pos)).0,
        (due_timer_over j cj dj (λ _. omega arith)).0,
        ri,
        rj,
      )

Recurs : TimerManager → Type 0
Recurs m = (m.timers ≢ []) × ((j : ℕ) → contains j m.timers ≡ true → (m.heap j).recurring ≡ true)

expire_one-Recurs :
    (m : TimerManager) (t : ℕ) (rest : List ℕ) (now : ℕ)
    → m.timers ≡ t ∷ rest
    → Recurs m
    → Recurs (expire_one m t rest now)
unfolding expire_one Recurs
expire_one-Recurs m t rest now e r = (
  ground (arith, here, insert_nonempty key' t rest),
  λ j h. ground (arith, here, contains_of_insert key' t j rest, r.1 j, ap (contains j) e),
)
  where
    here : (m.heap t).recurring ≡ true
    here = r.1 t (rw e (ground arith))

    key' : ℕ → ℕ
    key' = next_of (record m {
      heap = update m.heap t (record (m.heap t) { next = now + milliseconds (m.heap t).ms });
    })

first_due_rollover :
    (now : ℕ) (heap : ℕ → Timer) (xs : List ℕ) → xs ≢ [] → first_due true now heap xs ≢ none
unfolding first_due
first_due_rollover now heap [] h e = h refl
first_due_rollover now heap (x ∷ xs) h e = cc

expire_loop_never :
    (fuel now : ℕ) (m : TimerManager) (cbs : List (Option Callback))
    → Recurs m
    → expire_loop fuel true now m cbs ≡ none
unfolding expire_loop Recurs
expire_loop_never zero now m cbs r = refl
expire_loop_never (suc fuel) now m cbs r =
    elim (Option-cases (first_due true now m.heap m.timers)) [
      | inl e ↦ absurd (first_due_rollover now m.heap m.timers r.0 e)
      | inr (d, e) ↦
          expire_loop_next fuel true now m cbs d.0 d.1 e
          ∙ expire_loop_never fuel now (expire_one m d.0 d.1 now) (cbs ++ (m.heap d.0).cb ∷ []) (
              expire_one-Recurs m d.0 d.1 now (first_due-some true now m.heap m.timers d.0 d.1 e) r)
    ]

-- After the clock went back by more than an hour, listExpireCb does not end if there is a timer and
-- all timers of the set recur: each round puts the timer back that it took.
pub list_expire_cb_never :
    (fuel : ℕ) (m : TimerManager) (now later : ℕ)
    → m.timers ≢ []
    → ((j : ℕ) → contains j m.timers ≡ true → (m.heap j).recurring ≡ true)
    → later + milliseconds (60 * 60 * 1000) < m.pre_time
    → list_expire_cb fuel m now later ≡ none
unfolding list_expire_cb Recurs
list_expire_cb_never fuel m now later some_timer all back =
    rw (rollover) (expire_loop_never fuel now (record m { pre_time = later }) [] (some_timer, all))
  where
    rollover : ltb later (m.pre_time - milliseconds (60 * 60 * 1000)) ≡ true
    rollover = ground arith
