-- ===== src/Timer/Lookup.antt =====
-- code/timer.cpp: what the set holds after an operation, and how long the next timer is off.
use tiny_coroutine.Base.{
  ℕ, suc, ◌+◌, ◌-◌, ◌/◌, ◌≤◌, ◌≡◌, ◌↔◌, refl, Bool, true, false, ◌||◌, ◌&&◌, not, Option, none,
  List, [], ◌∷◌, arith, ◌==◌, contains, update, Option-cases, Bool-cases, inl, inr, is_some, subst,
  ◌≢◌,
}
use tiny_coroutine.Callback.{Callback}
use tiny_coroutine.OrderedSet
use tiny_coroutine.OrderedSet.{
  IsOrdered, Above, find, erase, has_key, contains-insert, contains-erase, has_key-update,
  Above-contains, find-some, erase_absent, first_least, is_begin, IsOrdered-update, is_begin-insert,
  none_below, none_below-least, none_below-update, contains-has_key, find-has_key,
}
use tiny_coroutine.Timer.{
  TimerManager, milliseconds, next_of, new_timer, add_timer_ptr, add_timer, cancel, wait_for,
  get_next_timer,
}
use tiny_coroutine.Timer.Valid.{IsValid, fresh_out, next_of-clear, clear-IsValid}

-- A timer of the set that is due no later than any other.
pub record IsEarliest (m : TimerManager) (i : ℕ) : Type 0 where
  pub member : contains i m.timers ≡ true
  pub least : (j : ℕ) → contains j m.timers ≡ true → next_of m i ≤ next_of m j

wait_for-IsEarliest :
    (m : TimerManager) (now x : ℕ) (xs : List ℕ)
    → IsValid m
    → m.timers ≡ x ∷ xs
    → IsEarliest m x × (wait_for m.heap m.timers now ≡ (next_of m x - now) / 1000000)
wait_for-IsEarliest m now x xs v e =
    (record { member = rw e (ground arith); least = least }, rw e (ground arith))
  where
    least : (j : ℕ) → contains j m.timers ≡ true → next_of m x ≤ next_of m j
    least j h =
        first_least (next_of m) x j xs (subst (IsOrdered (next_of m)) e v.ordered) (rw e at h)

-- On a valid set with a timer, getNextTimer answers the whole milliseconds from `now` up to the
-- earliest deadline.
pub get_next_timer-IsEarliest :
    (m : TimerManager) (now : ℕ)
    → IsValid m
    → m.timers ≢ []
    → (i : ℕ) × IsEarliest m i × ((get_next_timer m now).1 ≡ (next_of m i - now) / 1000000)
unfolding get_next_timer
get_next_timer-IsEarliest m now v h = split m.timers refl
  where
    split :
        (l : List ℕ)
        → m.timers ≡ l
        → (i : ℕ) × IsEarliest m i × (wait_for m.heap m.timers now ≡ (next_of m i - now) / 1000000)
    split [] e = absurd (h e)
    split (x ∷ xs) e = let (a, b) = wait_for-IsEarliest m now x xs v e in (x, a, b)

-- The manager with the new object, before its insertion.
abbrev pub enlisted : TimerManager → ℕ → Option Callback → Bool → ℕ → TimerManager
enlisted m ms cb recurring now = record m {
  heap =
      update m.heap m.fresh
        (record { recurring = recurring; ms = ms; next = now + milliseconds ms; cb = cb });
  fresh = suc m.fresh;
}

pub enlisted-IsOrdered :
    (m : TimerManager) (ms : ℕ) (cb : Option Callback) (recurring : Bool) (now : ℕ)
    → IsValid m
    → IsOrdered (next_of (enlisted m ms cb recurring now)) m.timers
enlisted-IsOrdered m ms cb recurring now v =
    IsOrdered-update (next_of m) (next_of (enlisted m ms cb recurring now)) m.fresh
      (λ i e. ground arith) m.timers (fresh_out m v) v.ordered

-- Adding a timer to a valid set: the set gains the new timer exactly if no timer in it has that
-- deadline, and is otherwise as it was.
pub contains-add_timer :
    (m : TimerManager) (ms : ℕ) (cb : Option Callback) (recurring : Bool) (now j : ℕ)
    → IsValid m
    → contains j (add_timer m ms cb recurring now).0.timers ≡ (
        (m.fresh == j && not (has_key (next_of m) (now + milliseconds ms) m.timers))
        || contains j m.timers)
unfolding add_timer add_timer_ptr new_timer
contains-add_timer m ms cb recurring now j v = ground (
  arith,
  contains-insert (next_of (enlisted m ms cb recurring now)) m.fresh j m.timers
      (enlisted-IsOrdered m ms cb recurring now v),
  has_key-update (next_of m) (next_of (enlisted m ms cb recurring now)) m.fresh
      (λ i e. ground arith) (now + milliseconds ms) m.timers (fresh_out m v),
)

-- Adding a timer to a valid set calls onTimerInsertedAtFront exactly if no wake-up is pending and no
-- timer of the set is due before the new one.
pub add_timer_wakes :
    (m : TimerManager) (ms : ℕ) (cb : Option Callback) (recurring : Bool) (now : ℕ)
    → IsValid m
    → ((add_timer m ms cb recurring now).2 ≡ true) ↔ (
        (m.tickled ≡ false)
        × ((j : ℕ) → contains j m.timers ≡ true → now + milliseconds ms ≤ next_of m j))
unfolding add_timer add_timer_ptr new_timer
add_timer_wakes m ms cb recurring now v =
    rw front
      (λ h. (ground (arith, h), least.0 (ground (arith, h))), λ p. ground (arith, p.0, least.1 p.1))
  where
    k' : ℕ → ℕ
    k' = next_of (enlisted m ms cb recurring now)

    due : ℕ
    due = now + milliseconds ms

    least :
        (none_below (next_of m) due m.timers ≡ true)
        ↔ ((j : ℕ) → contains j m.timers ≡ true → due ≤ next_of m j)
    least = none_below-least (next_of m) due m.timers v.ordered

    front :
        is_begin
          (OrderedSet.insert k' m.fresh m.timers)
          (find k' m.fresh (OrderedSet.insert k' m.fresh m.timers))
        ≡ none_below (next_of m) due m.timers
    front = ground (
      arith,
      is_begin-insert k' m.fresh m.timers,
      none_below-update (next_of m) k' m.fresh (λ i e. ground arith) due m.timers (fresh_out m v),
    )

abbrev cleared : TimerManager → ℕ → TimerManager
cleared m t = record m { heap = update m.heap t (record (m.heap t) { cb = none }) }

-- Cancelling a timer that has its callback takes out of a valid set whatever has its deadline, and
-- nothing else; without a callback the set stays as it is.
pub contains-cancel :
    (m : TimerManager) (t j : ℕ)
    → IsValid m
    → contains j (cancel m t).0.timers
      ≡ (contains j m.timers && not (is_some (m.heap t).cb && (next_of m j == next_of m t)))
unfolding cancel
contains-cancel m t j v = elim (Bool-cases (is_some (m.heap t).cb)) [
  | inr off ↦ rw off (ground arith)
  | inl on ↦ elim (Option-cases (find (next_of (cleared m t)) t m.timers)) [
    | inl e ↦ rw (on, e) (ground (arith, missing e, contains-has_key (next_of m) j m.timers))
    | inr (it, e) ↦
        rw (on, e)
          (ground (
            arith,
            contains-erase (next_of (cleared m t)) it j m.timers (clear-IsValid m t none v).ordered,
            find-some (next_of (cleared m t)) t m.timers it e,
          ))
  ]
]
  where
    missing :
        find (next_of (cleared m t)) t m.timers ≡ none
        → has_key (next_of m) (next_of m t) m.timers ≡ false
    missing e = find-has_key (next_of m) t m.timers v.ordered (rw (next_of-clear m t none) at e)
