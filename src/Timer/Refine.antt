-- ===== src/Timer/Refine.antt =====
-- code/timer.cpp: to its users the set of timers is the calendar of its deadlines.
use tiny_coroutine.Base.{
  ℕ, suc, ◌<◌, ◌≡◌, refl, Bool, true, ◌&&◌, not, Option, none, some, List, [], ◌∷◌, ◌==◌, is_some,
  update, arith, fun_ext, ap, ◌∙◌, Option-cases, Bool-cases, inl, inr,
}
use tiny_coroutine.Callback.{Callback}
use tiny_coroutine.OrderedSet
use tiny_coroutine.OrderedSet.{find, erase, find-some, IsOrdered-update, erase-IsOrdered}
use tiny_coroutine.OrderedSet.Keys.{at_key, find-at_key, at_key-insert, at_key-erase, at_key-update}
use tiny_coroutine.Timer.{
  Timer, TimerManager, next_of, new_timer, add_timer_ptr, add_timer, cancel, refresh, reset,
}
use tiny_coroutine.Timer.Valid.{
  IsValid, fresh_out, erase_out, next_of-clear, add_timer-IsValid, cancel-IsValid, refresh-IsValid,
  reset-IsValid,
}
use tiny_coroutine.Timer.Lookup.{enlisted, enlisted-IsOrdered}
use tiny_coroutine.Timer.Calendar
use tiny_coroutine.Timer.Calendar.{
  Calendar, book, clear, Request, adds, cancels, refreshes, resets, Answer, timer, verdict,
}

-- The calendar of a manager: under each deadline the timer of the set that has it.
abbrev pub calendar : TimerManager → Calendar
calendar m = record { agenda = λ k. at_key (next_of m) k m.timers; heap = m.heap; fresh = m.fresh }

same_agenda :
    {A : Type 0} {f g : ℕ → Option ℕ} (heap : ℕ → Timer) (fresh : ℕ) (a : A)
    → ((k : ℕ) → f k ≡ g k)
    → ◌≡◌ {A = Calendar × A}
        (record { agenda = f; heap = heap; fresh = fresh }, a)
        (record { agenda = g; heap = heap; fresh = fresh }, a)
same_agenda {A} heap fresh a h = ap with_agenda (fun_ext h)
  where
    with_agenda : (ℕ → Option ℕ) → Calendar × A
    with_agenda f = (record { agenda = f; heap = heap; fresh = fresh }, a)

add_refines :
    (m : TimerManager) (ms : ℕ) (cb : Option Callback) (recurring : Bool) (now : ℕ)
    → IsValid m
    → let (m', t, _) = add_timer m ms cb recurring now in
      (calendar m', t) ≡ Calendar.add (calendar m) ms cb recurring now
unfolding add_timer add_timer_ptr new_timer
add_refines m ms cb recurring now v = same_agenda _ (suc m.fresh) m.fresh λ k. ground (
  arith,
  at_key-insert key' m.fresh k m.timers (enlisted-IsOrdered m ms cb recurring now v),
  at_key-update (next_of m) key' m.fresh (λ j e. ground arith) k m.timers (fresh_out m v),
)
  where
    key' : ℕ → ℕ
    key' = next_of (enlisted m ms cb recurring now)

cancel_refines :
    (m : TimerManager) (t : ℕ)
    → IsValid m
    → let (m', b) = cancel m t in (calendar m', b) ≡ Calendar.cancel (calendar m) t
unfolding cancel
cancel_refines m t v = elim (Bool-cases (is_some (m.heap t).cb)) [
  | inr off ↦ rw off refl
  | inl on ↦ elim (Option-cases (find (next_of m) t m.timers)) [
    | inl e ↦
        rw (on, next_of-clear m t none, e)
          (same_agenda _ m.fresh true
            λ k. ground (arith, find-at_key (next_of m) t m.timers v.ordered, e))
    | inr (it, e) ↦
        rw (on, next_of-clear m t none, e)
          (same_agenda _ m.fresh true λ k. ground (
            arith,
            at_key-erase (next_of m) it k m.timers v.ordered,
            find-some (next_of m) t m.timers it e,
          ))
  ]
]

-- A timer is taken out under its deadline and inserted under another.
moved :
    (m : TimerManager) (t it : ℕ) (tm : Timer) (k : ℕ)
    → IsValid m
    → find (next_of m) t m.timers ≡ some it
    → let key' = next_of (record m { heap = update m.heap t tm }) in
      at_key key' k (OrderedSet.insert key' t (erase (next_of m) it m.timers))
      ≡ book (clear (calendar m).agenda (m.heap t).next) tm.next t k
moved m t it tm k v e =
    let key = next_of m in
    let key' = next_of (record m { heap = update m.heap t tm }) in
    let rest = erase key it m.timers in
    let out = erase_out m t it v e in
    ground (
      arith,
      at_key-insert key' t k rest (
          IsOrdered-update key key' t (λ j e. ground arith) rest out
            (erase-IsOrdered key it m.timers v.ordered)),
      at_key-update key key' t (λ j e. ground arith) k rest out,
      at_key-erase key it k m.timers v.ordered,
      find-some key t m.timers it e,
    )

refresh_refines :
    (m : TimerManager) (t now : ℕ)
    → IsValid m
    → let (m', b) = refresh m t now in (calendar m', b) ≡ Calendar.refresh (calendar m) t now
unfolding refresh
refresh_refines m t now v = elim (Bool-cases (is_some (m.heap t).cb)) [
  | inr off ↦ rw off refl
  | inl on ↦ elim (Option-cases (find (next_of m) t m.timers)) [
    | inl e ↦ rw (on, e, ← find-at_key (next_of m) t m.timers v.ordered, e) refl
    | inr (it, e) ↦
        rw (on, e, ← find-at_key (next_of m) t m.timers v.ordered, e)
          (same_agenda _ m.fresh true λ k. moved m t it _ k v e)
  ]
]

reset_refines :
    (m : TimerManager) (t ms : ℕ) (from_now : Bool) (now : ℕ)
    → IsValid m
    → let (m', b, _) = reset m t ms from_now now in
      (calendar m', b) ≡ Calendar.reset (calendar m) t ms from_now now
unfolding reset add_timer_ptr
reset_refines m t ms from_now now v = elim (Bool-cases (ms == (m.heap t).ms && not from_now)) [
  | inl same ↦ rw same refl
  | inr other ↦ elim (Bool-cases (is_some (m.heap t).cb)) [
    | inr off ↦ rw (other, off) refl
    | inl on ↦ elim (Option-cases (find (next_of m) t m.timers)) [
      | inl e ↦ rw (other, on, e, ← find-at_key (next_of m) t m.timers v.ordered, e) refl
      | inr (it, e) ↦
          rw (other, on, e, ← find-at_key (next_of m) t m.timers v.ordered, e)
            (same_agenda _ m.fresh true λ k. moved m t it _ k v e)
    ]
  ]
]

-- The calls on the manager, and the answers to them.
abbrev pub serve : TimerManager → Request → TimerManager × Answer
serve m (adds ms cb recurring now) =
    let (m', t, _) = add_timer m ms cb recurring now in (m', timer t)
serve m (cancels t) = let (m', b) = cancel m t in (m', verdict b)
serve m (refreshes t now) = let (m', b) = refresh m t now in (m', verdict b)
serve m (resets t ms from_now now) = let (m', b, _) = reset m t ms from_now now in (m', verdict b)

unfoldable pub run : TimerManager → List Request → List Answer
run m [] = []
run m (r ∷ rs) = let (m', a) = serve m r in a ∷ run m' rs

-- The requests name only timers that were handed out, `n` of them so far.
abbrev pub IsHanded : ℕ → Request → Type 0
IsHanded n (adds ms cb recurring now) = Unit
IsHanded n (cancels t) = t < n
IsHanded n (refreshes t now) = t < n
IsHanded n (resets t ms from_now now) = t < n

abbrev pub handed_after : ℕ → Request → ℕ
handed_after n (adds ms cb recurring now) = suc n
handed_after n _ = n

abbrev pub AreHanded : ℕ → List Request → Type 0
AreHanded n [] = Unit
AreHanded n (r ∷ rs) = IsHanded n r × AreHanded (handed_after n r) rs

serve_refines :
    (m : TimerManager) (r : Request)
    → IsValid m
    → (calendar (serve m r).0, (serve m r).1) ≡ Calendar.serve (calendar m) r
serve_refines m (adds ms cb recurring now) v =
    ap (λ x. (x.0, timer x.1)) (add_refines m ms cb recurring now v)
serve_refines m (cancels t) v = ap (λ x. (x.0, verdict x.1)) (cancel_refines m t v)
serve_refines m (refreshes t now) v = ap (λ x. (x.0, verdict x.1)) (refresh_refines m t now v)
serve_refines m (resets t ms from_now now) v =
    ap (λ x. (x.0, verdict x.1)) (reset_refines m t ms from_now now v)

serve-IsValid :
    (m : TimerManager) (r : Request) → IsValid m → IsHanded m.fresh r → IsValid (serve m r).0
serve-IsValid m (adds ms cb recurring now) v h = add_timer-IsValid m ms cb recurring now v
serve-IsValid m (cancels t) v h = cancel-IsValid m t v
serve-IsValid m (refreshes t now) v h = refresh-IsValid m t now v h
serve-IsValid m (resets t ms from_now now) v h = reset-IsValid m t ms from_now now v h

Calendar-serve-fresh :
    (c : Calendar) (r : Request) → (Calendar.serve c r).0.fresh ≡ handed_after c.fresh r
Calendar-serve-fresh c (adds ms cb recurring now) = refl
Calendar-serve-fresh c (cancels t) = ground arith
Calendar-serve-fresh c (refreshes t now) = ground arith
Calendar-serve-fresh c (resets t ms from_now now) = ground arith

-- From a valid state, whatever timers are added, cancelled, refreshed and reset, in any order and at
-- any readings of the clock, every call answers what it answers on a calendar, which holds one timer
-- for a deadline. A request names a timer that was handed out.
pub run_refines :
    (rs : List Request) (m : TimerManager)
    → IsValid m
    → AreHanded m.fresh rs
    → run m rs ≡ Calendar.run (calendar m) rs
unfolding run Calendar.run
run_refines [] m v h = refl
run_refines (r ∷ rs) m v (h, hs) =
    let m' = (serve m r).0 in
    let step = serve_refines m r v in
    let handed : AreHanded m'.fresh rs =
      rw (ap (λ x. x.0.fresh) step ∙ Calendar-serve-fresh (calendar m) r) hs in
    rw (← step)
      (ap (λ rest. (serve m r).1 ∷ rest) (run_refines rs m' (serve-IsValid m r v h) handed))
