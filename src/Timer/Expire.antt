-- ===== src/Timer/Expire.antt =====
-- code/timer.cpp: TimerManager::listExpireCb while the clock does not run back.
use tiny_coroutine.Base.{
  ℕ, zero, suc, ◌+◌, ◌*◌, ◌≤◌, ◌<◌, ◌≡◌, refl, Bool, true, false, Option, none, some, List, [], ◌∷◌,
  ◌++◌, arith, leb, if◌then◌else◌, contains, length, update, Option-cases, Bool-cases, inl, inr,
  subst, ap, ◌∙◌, ltb, ◌-◌,
}
use mathlib.Core.List.{append-nil, append_assoc}
use tiny_coroutine.Callback.{Callback}
use tiny_coroutine.OrderedSet.{IsOrdered, Above, Above-fresh, first_least, insert}
use tiny_coroutine.Timer.{
  Timer, TimerManager, milliseconds, next_of, first_due, expire_one, expire_loop, list_expire_cb,
}
use tiny_coroutine.Timer.Valid.{IsValid, expire_one-IsValid, first_due-some}

-- The callbacks of the timers that are due at `now`, in the order of the list.
abbrev pub due_cbs : ℕ → (ℕ → Timer) → List ℕ → List (Option Callback)
due_cbs now heap [] = []
due_cbs now heap (x ∷ xs) = if leb (heap x).next now then (heap x).cb ∷ due_cbs now heap xs else []

-- Timers that recur have a period.
abbrev pub IsPaced : TimerManager → Type 0
IsPaced m = (j : ℕ) → (m.heap j).recurring ≡ true → 0 < (m.heap j).ms

due_cbs-update :
    (now : ℕ) (heap : ℕ → Timer) (t : ℕ) (tm : Timer) (xs : List ℕ)
    → contains t xs ≡ false
    → due_cbs now (update heap t tm) xs ≡ due_cbs now heap xs
due_cbs-update now heap t tm [] h = refl
due_cbs-update now heap t tm (x ∷ xs) h = ground (arith, due_cbs-update now heap t tm xs)

due_cbs-insert :
    (now : ℕ) (heap : ℕ → Timer) (t : ℕ) (xs : List ℕ)
    → now < (heap t).next
    → due_cbs now heap (insert (λ j. (heap j).next) t xs) ≡ due_cbs now heap xs
unfolding insert
due_cbs-insert now heap t [] h = ground arith
due_cbs-insert now heap t (x ∷ xs) h = ground (arith, due_cbs-insert now heap t xs h)

-- One round takes the first callback off those that are due.
due_cbs-expire_one :
    (m : TimerManager) (t : ℕ) (rest : List ℕ) (now : ℕ)
    → IsPaced m
    → contains t rest ≡ false
    → due_cbs now (expire_one m t rest now).heap (expire_one m t rest now).timers
      ≡ due_cbs now m.heap rest
unfolding expire_one
due_cbs-expire_one m t rest now paced out = elim (Bool-cases (m.heap t).recurring) [
  | inl again ↦ ground (
    arith,
    again,
    paced t again,
    due_cbs-insert now (expire_one m t rest now).heap t rest,
    due_cbs-update now m.heap t (record (m.heap t) { next = now + milliseconds (m.heap t).ms }) rest
        out,
  )
  | inr once ↦
      ground (arith, once, due_cbs-update now m.heap t (record (m.heap t) { cb = none }) rest out)
]

expire_one-IsPaced :
    (m : TimerManager) (t : ℕ) (rest : List ℕ) (now : ℕ)
    → IsPaced m
    → IsPaced (expire_one m t rest now)
unfolding expire_one
expire_one-IsPaced m t rest now paced j = ground (arith, paced j)

pub first_due-none :
    (now : ℕ) (m : TimerManager)
    → IsValid m
    → first_due false now m.heap m.timers ≡ none
    → (due_cbs now m.heap m.timers ≡ [])
      × ((j : ℕ) → contains j m.timers ≡ true → now < next_of m j)
unfolding first_due
first_due-none now m v h = split m.timers refl v.ordered h
  where
    split :
        (l : List ℕ)
        → m.timers ≡ l
        → IsOrdered (next_of m) l
        → first_due false now m.heap l ≡ none
        → (due_cbs now m.heap l ≡ []) × ((j : ℕ) → contains j l ≡ true → now < next_of m j)
    split [] e o k = (refl, λ j c. cc)
    split (x ∷ xs) e o k = (ground arith, λ j c. ground (arith, first_least (next_of m) x j xs o c))

-- The head that goes is due, its callback heads the list, and it is not in the set twice.
pub record Head (now : ℕ) (m : TimerManager) (t : ℕ) (rest : List ℕ) : Type 0 where
  pub split : m.timers ≡ t ∷ rest
  pub due : next_of m t ≤ now
  pub cbs : due_cbs now m.heap m.timers ≡ (m.heap t).cb ∷ due_cbs now m.heap rest
  pub out : contains t rest ≡ false

pub head :
    (now : ℕ) (m : TimerManager) (t : ℕ) (rest : List ℕ)
    → IsValid m
    → first_due false now m.heap m.timers ≡ some (t, rest)
    → Head now m t rest
unfolding first_due
head now m t rest v h = record {
  split = e;
  due = due;
  cbs = rw e (ground arith);
  out = Above-fresh (next_of m) t rest (subst (IsOrdered (next_of m)) e v.ordered).0;
}
  where
    e : m.timers ≡ t ∷ rest
    e = first_due-some false now m.heap m.timers t rest h

    due : next_of m t ≤ now
    due = let k : first_due false now m.heap (t ∷ rest) ≡ some (t, rest) = rw e at h in ground arith

pub expire_loop_stop :
    (fuel : ℕ) (rollover : Bool) (now : ℕ) (m : TimerManager) (cbs : List (Option Callback))
    → first_due rollover now m.heap m.timers ≡ none
    → expire_loop (suc fuel) rollover now m cbs ≡ some (m, cbs)
unfolding expire_loop
expire_loop_stop fuel rollover now m cbs e = rw (e, expire_loop)

pub expire_loop_next :
    (fuel : ℕ) (rollover : Bool) (now : ℕ) (m : TimerManager) (cbs : List (Option Callback)) (t : ℕ)
    (rest : List ℕ)
    → first_due rollover now m.heap m.timers ≡ some (t, rest)
    → expire_loop (suc fuel) rollover now m cbs
      ≡ expire_loop fuel rollover now (expire_one m t rest now) (cbs ++ (m.heap t).cb ∷ [])
unfolding expire_loop
expire_loop_next fuel rollover now m cbs t rest e = rw (e, expire_loop)

due_cbs-append :
    (now : ℕ) (m : TimerManager) (t : ℕ) (rest : List ℕ) (cbs : List (Option Callback))
    → IsPaced m
    → Head now m t rest
    → (cbs ++ (m.heap t).cb ∷ [])
        ++ due_cbs now (expire_one m t rest now).heap (expire_one m t rest now).timers
      ≡ cbs ++ due_cbs now m.heap m.timers
due_cbs-append now m t rest cbs paced f =
    rw (due_cbs-expire_one m t rest now paced f.out, f.cbs)
      (append_assoc cbs ((m.heap t).cb ∷ []) (due_cbs now m.heap rest))

-- The loop with enough fuel: it gives exactly the callbacks that are due, after those it was given,
-- and leaves only timers that are not due.
pub expire_loop_due :
    (fuel now : ℕ) (m : TimerManager) (cbs : List (Option Callback))
    → IsValid m
    → IsPaced m
    → length (due_cbs now m.heap m.timers) < fuel
    → (m' : TimerManager) × (expire_loop fuel false now m cbs
        ≡ some (m', cbs ++ due_cbs now m.heap m.timers))
      × ((j : ℕ) → contains j m'.timers ≡ true → now < next_of m' j)
expire_loop_due zero now m cbs v paced h = elim h [ ]
expire_loop_due (suc fuel) now m cbs v paced h =
    elim (Option-cases (first_due false now m.heap m.timers)) [
      | inl e ↦
          let (none_due, later) = first_due-none now m v e in
          (m, rw (none_due, append-nil cbs) (expire_loop_stop fuel false now m cbs e), later)
      | inr ((t, rest), e) ↦
          let f = head now m t rest v e in
          let m1 = expire_one m t rest now in
          let (m', run, later) =
            expire_loop_due fuel now m1 (cbs ++ (m.heap t).cb ∷ [])
              (expire_one-IsValid m t rest now v f.split) (expire_one-IsPaced m t rest now paced)
              (ground (arith, f.cbs, due_cbs-expire_one m t rest now paced f.out)) in
          (
            m',
            expire_loop_next fuel false now m cbs t rest e
                ∙ run
                ∙ ap (λ l. some (m', l)) (due_cbs-append now m t rest cbs paced f),
            later,
          )
    ]

-- The callbacks of every timer of the list with a deadline not after `now`.
abbrev pub expired_cbs : ℕ → (ℕ → Timer) → List ℕ → List (Option Callback)
expired_cbs now heap [] = []
expired_cbs now heap (x ∷ xs) =
    let rest = expired_cbs now heap xs in if leb (heap x).next now then (heap x).cb ∷ rest else rest

expired_cbs-Above :
    (now : ℕ) (heap : ℕ → Timer) (n : ℕ) (xs : List ℕ)
    → now ≤ n
    → Above (λ j. (heap j).next) n xs
    → expired_cbs now heap xs ≡ []
expired_cbs-Above now heap n [] h a = refl
expired_cbs-Above now heap n (x ∷ xs) h a = ground (arith, expired_cbs-Above now heap n xs h a.1)

due_cbs-expired_cbs :
    (now : ℕ) (heap : ℕ → Timer) (xs : List ℕ)
    → IsOrdered (λ j. (heap j).next) xs
    → due_cbs now heap xs ≡ expired_cbs now heap xs
due_cbs-expired_cbs now heap [] o = refl
due_cbs-expired_cbs now heap (x ∷ xs) o = ground (
  arith,
  due_cbs-expired_cbs now heap xs o.1,
  λ (h : now ≤ (heap x).next). expired_cbs-Above now heap (heap x).next xs h o.0,
)

length-due_cbs :
    (now : ℕ) (heap : ℕ → Timer) (xs : List ℕ) → length (due_cbs now heap xs) ≤ length xs
length-due_cbs now heap [] = omega arith
length-due_cbs now heap (x ∷ xs) = ground (arith, length-due_cbs now heap xs)

-- On a valid state, while the clock does not run back by more than an hour and every timer that
-- recurs has a period, listExpireCb ends after at most as many rounds as there are timers. It hands
-- over the callbacks of all timers that are due and no others, by rising deadline, and leaves no due
-- timer in the set.
pub list_expire_cb_due :
    (fuel : ℕ) (m : TimerManager) (now later : ℕ)
    → IsValid m
    → IsPaced m
    → m.pre_time ≤ later + milliseconds (60 * 60 * 1000)
    → length m.timers < fuel
    → (m' : TimerManager) × (list_expire_cb fuel m now later
        ≡ some (m', expired_cbs now m.heap m.timers))
      × ((j : ℕ) → contains j m'.timers ≡ true → now < next_of m' j)
unfolding list_expire_cb
list_expire_cb_due fuel m now later v paced steady enough =
    let (m', run, rest) =
      expire_loop_due fuel now m0 [] v0 paced (omega (arith, length-due_cbs now m.heap m.timers)) in
    (
      m',
      rw (no_rollover)
          (run ∙ ap (λ l. some (m', l)) (due_cbs-expired_cbs now m.heap m.timers v.ordered)),
      rest,
    )
  where
    m0 : TimerManager
    m0 = record m { pre_time = later }

    v0 : IsValid m0
    v0 = record { ordered = v.ordered; allocated = v.allocated; started = v.started }

    no_rollover : ltb later (m.pre_time - milliseconds (60 * 60 * 1000)) ≡ false
    no_rollover = ground arith
