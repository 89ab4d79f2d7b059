-- ===== src/Timer/Valid.antt =====
-- code/timer.cpp: what every operation of the timer manager keeps true.
use tiny_coroutine.Base.{
  ℕ, suc, ◌≤◌, ◌<◌, ◌≡◌, Bool, true, false, Option, none, some, List, [], ◌∷◌, arith, ◌==◌,
  contains, update, Option-cases, inl, inr, ◌&&◌, not, subst, sym, fun_ext, is_some, Bool-cases,
  if◌then◌else◌, zero, ◌++◌,
}
use tiny_coroutine.Callback.{Callback}
use tiny_coroutine.OrderedSet
use tiny_coroutine.OrderedSet.{
  IsOrdered, Above, find, erase, insert-IsOrdered, erase-IsOrdered, contains-insert, contains-erase,
  IsOrdered-update, Above-fresh, Above-contains, find-some,
}
use tiny_coroutine.Timer.{
  Timer, TimerManager, milliseconds, next_of, init, new_timer, add_timer_ptr, add_timer, cancel,
  refresh, reset, reset_out, reset_in, expire_one, first_due, expire_loop,
}

-- The set holds allocated timers, in the strict order of their deadlines, and no deadline lies
-- before the period that led to it.
pub record IsValid (m : TimerManager) : Type 0 where
  pub ordered : IsOrdered (next_of m) m.timers
  pub allocated : (j : ℕ) → contains j m.timers ≡ true → j < m.fresh
  pub started : (j : ℕ) → milliseconds (m.heap j).ms ≤ (m.heap j).next

pub init-IsValid : (now : ℕ) → IsValid (init now)
unfolding init
init-IsValid now = record { ordered = tt; allocated = λ j h. cc; started = λ j. omega arith }

-- Inserting an allocated timer, whose entry of the heap is free to change while it is outside.
insert-IsValid :
    (m : TimerManager) (t : ℕ)
    → IsValid m
    → t < m.fresh
    → IsValid (record m { timers = OrderedSet.insert (next_of m) t m.timers })
insert-IsValid m t v lt = record {
  ordered = insert-IsOrdered (next_of m) t m.timers v.ordered;
  allocated =
      λ j h. ground (arith, contains-insert (next_of m) t j m.timers v.ordered, v.allocated j);
  started = v.started;
}

write-IsValid :
    (m : TimerManager) (t : ℕ) (tm : Timer)
    → IsValid m
    → contains t m.timers ≡ false
    → milliseconds tm.ms ≤ tm.next
    → IsValid (record m { heap = update m.heap t tm })
write-IsValid m t tm v out h = record {
  ordered = IsOrdered-update (next_of m) _ t (λ j e. ground arith) m.timers out v.ordered;
  allocated = v.allocated;
  started = λ j. ground (arith, v.started j);
}

erase-IsValid :
    (m : TimerManager) (a : ℕ)
    → IsValid m
    → IsValid (record m { timers = erase (next_of m) a m.timers })
erase-IsValid m a v = record {
  ordered = erase-IsOrdered (next_of m) a m.timers v.ordered;
  allocated =
      λ j h. ground (arith, contains-erase (next_of m) a j m.timers v.ordered, v.allocated j);
  started = v.started;
}

tickle-IsValid : (m : TimerManager) (b : Bool) → IsValid m → IsValid (record m { tickled = b })
tickle-IsValid m b v = record { ordered = v.ordered; allocated = v.allocated; started = v.started }

-- A callback is no part of the order.
pub next_of-clear :
    (m : TimerManager) (t : ℕ) (c : Option Callback)
    → next_of (record m { heap = update m.heap t (record (m.heap t) { cb = c }) }) ≡ next_of m
next_of-clear m t c = fun_ext λ j. ground arith

pub clear-IsValid :
    (m : TimerManager) (t : ℕ) (c : Option Callback)
    → IsValid m
    → IsValid (record m { heap = update m.heap t (record (m.heap t) { cb = c }) })
clear-IsValid m t c v = record {
  ordered = subst (λ k. IsOrdered k m.timers) (sym (next_of-clear m t c)) v.ordered;
  allocated = v.allocated;
  started = λ j. ground (arith, v.started j);
}

-- What `find` finds for a timer has its deadline, so that the timer is out once that is erased.
pub erase_out :
    (m : TimerManager) (t it : ℕ)
    → IsValid m
    → find (next_of m) t m.timers ≡ some it
    → contains t (erase (next_of m) it m.timers) ≡ false
erase_out m t it v e = ground (
  arith,
  contains-erase (next_of m) it t m.timers v.ordered,
  find-some (next_of m) t m.timers it e,
)

pub add_timer_ptr-IsValid :
    (m : TimerManager) (t : ℕ) → IsValid m → t < m.fresh → IsValid (add_timer_ptr m t).0
unfolding add_timer_ptr
add_timer_ptr-IsValid m t v lt = tickle-IsValid _ _ (insert-IsValid m t v lt)

grow-IsValid : (m : TimerManager) → IsValid m → IsValid (record m { fresh = suc m.fresh })
grow-IsValid m v = record {
  ordered = v.ordered;
  allocated = λ j h. ground (arith, v.allocated j h);
  started = v.started;
}

-- The next identifier is not in the set.
pub fresh_out : (m : TimerManager) → IsValid m → contains m.fresh m.timers ≡ false
fresh_out m v = ground (arith, v.allocated m.fresh)

pub add_timer-IsValid :
    (m : TimerManager) (ms : ℕ) (cb : Option Callback) (recurring : Bool) (now : ℕ)
    → IsValid m
    → IsValid (add_timer m ms cb recurring now).0
unfolding add_timer new_timer
add_timer-IsValid m ms cb recurring now v =
    add_timer_ptr-IsValid _ m.fresh
      (grow-IsValid _
        (write-IsValid m m.fresh (new_timer ms cb recurring now) v (fresh_out m v) (omega arith)))
      (omega arith)

pub cancel-IsValid : (m : TimerManager) (t : ℕ) → IsValid m → IsValid (cancel m t).0
unfolding cancel
cancel-IsValid m t v = elim (Bool-cases (is_some (m.heap t).cb)) [
  | inr off ↦ rw off v
  | inl on ↦
      let m' = record m { heap = update m.heap t (record (m.heap t) { cb = none }) } in
      let v' : IsValid m' = clear-IsValid m t none v in
      elim (Option-cases (find (next_of m') t m.timers)) [
        | inl e ↦ rw (on, e) v'
        | inr (it, e) ↦ rw (on, e) (erase-IsValid m' it v')
      ]
]

-- The timer is taken out, its deadline is set and it is inserted again.
move-IsValid :
    (m : TimerManager) (t it : ℕ) (tm : Timer)
    → IsValid m
    → find (next_of m) t m.timers ≡ some it
    → t < m.fresh
    → milliseconds tm.ms ≤ tm.next
    → IsValid (record m { heap = update m.heap t tm; timers = erase (next_of m) it m.timers })
move-IsValid m t it tm v e lt h =
    write-IsValid _ t tm (erase-IsValid m it v) (erase_out m t it v e) h

pub refresh-IsValid :
    (m : TimerManager) (t now : ℕ) → IsValid m → t < m.fresh → IsValid (refresh m t now).0
unfolding refresh
refresh-IsValid m t now v lt = elim (Bool-cases (is_some (m.heap t).cb)) [
  | inr off ↦ rw off v
  | inl on ↦ elim (Option-cases (find (next_of m) t m.timers)) [
    | inl e ↦ rw (on, e) v
    | inr (it, e) ↦ rw (on, e) (insert-IsValid _ t (move-IsValid m t it _ v e lt (omega arith)) lt)
  ]
]

pub reset_out-IsValid : (m : TimerManager) (t : ℕ) → IsValid m → IsValid (reset_out m t).0
reset_out-IsValid m t v = elim (Bool-cases (is_some (m.heap t).cb)) [
  | inr off ↦ rw off v
  | inl on ↦ elim (Option-cases (find (next_of m) t m.timers)) [
    | inl e ↦ rw (on, e) v
    | inr (it, e) ↦ rw (on, e) (erase-IsValid m it v)
  ]
]

pub reset_in-IsValid :
    (m : TimerManager) (t ms : ℕ) (from_now : Bool) (now : ℕ)
    → IsValid m
    → t < m.fresh
    → contains t m.timers ≡ false
    → IsValid (reset_in m t ms from_now now).0
reset_in-IsValid m t ms from_now now v lt out =
    add_timer_ptr-IsValid _ t (write-IsValid m t _ v out (omega arith)) lt

pub reset-IsValid :
    (m : TimerManager) (t ms : ℕ) (from_now : Bool) (now : ℕ)
    → IsValid m
    → t < m.fresh
    → IsValid (reset m t ms from_now now).0
unfolding reset
reset-IsValid m t ms from_now now v lt = elim (Bool-cases (ms == (m.heap t).ms && not from_now)) [
  | inl same ↦ rw same v
  | inr other ↦ elim (Bool-cases (is_some (m.heap t).cb)) [
    | inr off ↦ rw (other, off) v
    | inl on ↦ elim (Option-cases (find (next_of m) t m.timers)) [
      | inl e ↦ rw (other, on, e) v
      | inr (it, e) ↦
          rw (other, on, e)
            (add_timer_ptr-IsValid _ t (move-IsValid m t it _ v e lt (omega arith)) lt)
    ]
  ]
]

if-IsValid : (b : Bool) {m n : TimerManager} → IsValid m → IsValid n → IsValid (if b then m else n)
if-IsValid true v w = v
if-IsValid false v w = w

pub expire_one-IsValid :
    (m : TimerManager) (t : ℕ) (rest : List ℕ) (now : ℕ)
    → IsValid m
    → m.timers ≡ t ∷ rest
    → IsValid (expire_one m t rest now)
unfolding expire_one
expire_one-IsValid m t rest now v e =
    if-IsValid (m.heap t).recurring
      (insert-IsValid _ t (write-IsValid m' t _ v' out (omega arith))
        (v.allocated t (rw e (ground arith))))
      (clear-IsValid m' t none v')
  where
    m' : TimerManager
    m' = record m { timers = rest }

    order : IsOrdered (next_of m) (t ∷ rest)
    order = subst (IsOrdered (next_of m)) e v.ordered

    out : contains t rest ≡ false
    out = Above-fresh (next_of m) t rest order.0

    v' : IsValid m'
    v' = record {
      ordered = order.1;
      allocated = λ j h. v.allocated j (rw e (ground arith));
      started = v.started;
    }

pub first_due-some :
    (rollover : Bool) (now : ℕ) (heap : ℕ → Timer) (xs : List ℕ) (t : ℕ) (rest : List ℕ)
    → first_due rollover now heap xs ≡ some (t, rest)
    → xs ≡ t ∷ rest
unfolding first_due
first_due-some rollover now heap [] t rest h = cc
first_due-some rollover now heap (x ∷ xs) t rest h = ground arith

pub expire_loop-IsValid :
    (fuel : ℕ) (rollover : Bool) (now : ℕ) (m m' : TimerManager) (cbs cbs' : List (Option Callback))
    → IsValid m
    → expire_loop fuel rollover now m cbs ≡ some (m', cbs')
    → IsValid m'
unfolding expire_loop
expire_loop-IsValid zero rollover now m m' cbs cbs' v h = cc
expire_loop-IsValid (suc fuel) rollover now m m' cbs cbs' v h =
    elim (Option-cases (first_due rollover now m.heap m.timers)) [
      | inl e ↦ subst IsValid (stop e) v
      | inr (d, e) ↦
          expire_loop-IsValid fuel rollover now _ m' (cbs ++ (m.heap d.0).cb ∷ []) cbs'
            (expire_one-IsValid m d.0 d.1 now v
              (first_due-some rollover now m.heap m.timers d.0 d.1 e))
            (rw (e, expire_loop) at h)
    ]
  where
    stop : first_due rollover now m.heap m.timers ≡ none → m ≡ m'
    stop e = ground (arith, e, h)
