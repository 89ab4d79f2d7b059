-- ===== src/Timer/Fate.antt =====
-- code/timer.cpp: what becomes of each timer in TimerManager::listExpireCb.
use tiny_coroutine.Base.{
  ℕ, zero, suc, ◌+◌, ◌<◌, ◌≡◌, true, false, Option, none, some, List, [], ◌∷◌, ◌++◌, arith, ◌==◌,
  if◌then◌else◌, contains, update, Option-cases, Bool-cases, inl, inr, subst, ◌∙◌, ◌⊎◌,
}
use tiny_coroutine.Callback.{Callback}
use tiny_coroutine.OrderedSet.{IsOrdered, contains-insert, IsOrdered-update}
use tiny_coroutine.Timer.{
  Timer, TimerManager, milliseconds, next_of, first_due, expire_one, expire_loop,
}
use tiny_coroutine.Timer.Valid.{IsValid, expire_one-IsValid}
use tiny_coroutine.Timer.Expire.{Head, head}

-- A property of the state that each round of the loop keeps holds at the end.
pub expire_loop_keeps {ℓ} :
    (P : TimerManager → Type ℓ) (now : ℕ)
    → ((m : TimerManager) (t : ℕ) (rest : List ℕ)
        → IsValid m
        → Head now m t rest
        → P m
        → P (expire_one m t rest now))
    → (fuel : ℕ) (m m' : TimerManager) (cbs cbs' : List (Option Callback)) → IsValid m
    → expire_loop fuel false now m cbs ≡ some (m', cbs')
    → P m
    → P m'
unfolding expire_loop
expire_loop_keeps P now keep zero m m' cbs cbs' v h p = cc
expire_loop_keeps P now keep (suc fuel) m m' cbs cbs' v h p =
    elim (Option-cases (first_due false now m.heap m.timers)) [
      | inl e ↦ subst P (stop e) p
      | inr (d, e) ↦
          let f = head now m d.0 d.1 v e in
          expire_loop_keeps P now keep fuel (expire_one m d.0 d.1 now) m'
            (cbs ++ (m.heap d.0).cb ∷ []) cbs' (expire_one-IsValid m d.0 d.1 now v f.split)
            (rw (e, expire_loop) at h) (keep m d.0 d.1 v f p)
    ]
  where
    stop : first_due false now m.heap m.timers ≡ none → m ≡ m'
    stop e = ground (arith, e, h)

-- The members after a round: the head stays only if it recurs.
contains-expire_one :
    (now : ℕ) (m : TimerManager) (t : ℕ) (rest : List ℕ) (j : ℕ)
    → IsValid m
    → Head now m t rest
    → (t == j) ≡ false
    → contains j (expire_one m t rest now).timers ≡ contains j m.timers
unfolding expire_one
contains-expire_one now m t rest j v f ne = elim (Bool-cases (m.heap t).recurring) [
  | inl again ↦ rw f.split (ground (arith, again, ne, contains-insert key' t j rest order'))
  | inr once ↦ rw f.split (ground (arith, once, ne))
]
  where
    key' : ℕ → ℕ
    key' = next_of (record m {
      heap = update m.heap t (record (m.heap t) { next = now + milliseconds (m.heap t).ms });
    })

    order' : IsOrdered key' rest
    order' =
        IsOrdered-update (next_of m) key' t (λ i e. ground arith) rest f.out
          (subst (IsOrdered (next_of m)) f.split v.ordered).1

heap-expire_one :
    (m : TimerManager) (t : ℕ) (rest : List ℕ) (now j : ℕ)
    → (t == j) ≡ false
    → (expire_one m t rest now).heap j ≡ m.heap j
unfolding expire_one
heap-expire_one m t rest now j ne = ground arith

Head-member :
    (now : ℕ) (m : TimerManager) (t : ℕ) (rest : List ℕ)
    → Head now m t rest
    → contains t m.timers ≡ true
Head-member now m t rest f = rw f.split (ground arith)

-- What the loop turns a due timer into.
abbrev pub expired : ℕ → Timer → Timer
expired now tm =
    if tm.recurring then record tm { next = now + milliseconds tm.ms } else record tm { cb = none }

heap-expire_one_self :
    (m : TimerManager) (t : ℕ) (rest : List ℕ) (now : ℕ)
    → (expire_one m t rest now).heap t ≡ expired now (m.heap t)
unfolding expire_one
heap-expire_one_self m t rest now = ground arith

-- A one-shot timer is out of the set after its round.
once-expire_one :
    (m : TimerManager) (t : ℕ) (rest : List ℕ) (now : ℕ)
    → (m.heap t).recurring ≡ false
    → (expire_one m t rest now).timers ≡ rest
unfolding expire_one
once-expire_one m t rest now once = ground arith

module _ (now j : ℕ) (tm : Timer) where
  -- Timer `j` waits in the set as it was, or its round is over.
  abbrev pub Waits : TimerManager → Type 0
  Waits m = (contains j m.timers ≡ true) × (m.heap j ≡ tm)

  abbrev pub Over : TimerManager → Type 0
  Over m = (m.heap j ≡ expired now tm) × ((tm.recurring ≡ false) → contains j m.timers ≡ false)

  pub Waits-expire_one :
      (m : TimerManager) (t : ℕ) (rest : List ℕ)
      → IsValid m
      → Head now m t rest
      → (t == j) ≡ false
      → Waits m
      → Waits (expire_one m t rest now)
  Waits-expire_one m t rest v f ne p =
      (contains-expire_one now m t rest j v f ne ∙ p.0, heap-expire_one m t rest now j ne ∙ p.1)

  own_round :
      (m : TimerManager) (t : ℕ) (rest : List ℕ)
      → Head now m t rest
      → (t == j) ≡ true
      → Waits m
      → Over (expire_one m t rest now)
  own_round m t rest f hit p = (
    ground (arith, heap-expire_one_self m t rest now, p.1, hit),
    λ once. ground (arith, once-expire_one m t rest now, p.1, hit, f.out),
  )

  Over-expire_one :
      (m : TimerManager) (t : ℕ) (rest : List ℕ)
      → IsValid m
      → Head now m t rest
      → (t == j) ≡ false
      → Over m
      → Over (expire_one m t rest now)
  Over-expire_one m t rest v f ne p = (
    heap-expire_one m t rest now j ne ∙ p.0,
    λ once. contains-expire_one now m t rest j v f ne ∙ p.1 once,
  )

  -- Its round does not come again: it is out of the set, or due later than `now`.
  not_again :
      (m : TimerManager) (t : ℕ) (rest : List ℕ)
      → ((tm.recurring ≡ true) → 0 < tm.ms)
      → Head now m t rest
      → (t == j) ≡ true
      → ¬ Over m
  not_again m t rest paced f hit p = elim (Bool-cases tm.recurring) [
    | inl again ↦ absurd (ground (arith, f.due, p.0, paced again, hit, again))
    | inr once ↦ ground (arith, Head-member now m t rest f, p.1 once, hit)
  ]

  pub step_fate :
      ((tm.recurring ≡ true) → 0 < tm.ms)
      → (m : TimerManager) (t : ℕ) (rest : List ℕ) → IsValid m
      → Head now m t rest
      → Waits m ⊎ Over m
      → Waits (expire_one m t rest now) ⊎ Over (expire_one m t rest now)
  step_fate paced m t rest v f p = elim (Bool-cases (t == j)) [
    | inr ne ↦ elim p [
      | inl w ↦ inl (Waits-expire_one m t rest v f ne w)
      | inr o ↦ inr (Over-expire_one m t rest v f ne o)
    ]
    | inl hit ↦ elim p [
      | inl w ↦ inr (own_round m t rest f hit w)
      | inr o ↦ absurd (not_again m t rest paced f hit o)
    ]
  ]
