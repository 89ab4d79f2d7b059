-- ===== src/Idle/Wait.antt =====
-- code/ioscheduler.cpp: how long idle() waits, and when it ends.
use tiny_coroutine.Base.{
  ℕ, ◌-◌, ◌*◌, ◌/◌, ◌^◌, ◌≤◌, ◌<◌, ◌≡◌, ◌≢◌, refl, Bool, true, false, List, [], ◌∷◌, arith,
  contains, is_empty, min, sum_below-ge, Bool-cases, inl, inr,
}
use tiny_coroutine.Timer.{TimerManager, next_of, get_next_timer, wait_for, no_timer}
use tiny_coroutine.Timer.Lookup.{get_next_timer-IsEarliest}
use tiny_coroutine.Scheduler.{Scheduler}
use tiny_coroutine.IoManager.{IoManager}
use tiny_coroutine.IoManager.Mask
use tiny_coroutine.IoManager.Mask.{EventMask, empty_mask, has_any}
use tiny_coroutine.Idle.{Manager, stopping, wait_time, max_timeout}

empty_contains : (j : ℕ) → contains j [] ≡ true → ⊥
empty_contains j e = cc

-- On a valid set of timers idle() waits at most five seconds, and not beyond the deadline of any timer
-- of the set; it does not wait at all where one is due.
pub wait_time_bounded :
    (m : TimerManager) (now : ℕ)
    → package.tiny_coroutine.Timer.Valid.IsValid m
    → ((wait_time m now).1 ≤ 5000)
      × ((j : ℕ) → contains j m.timers ≡ true → (wait_time m now).1 * 1000000 ≤ next_of m j - now)
unfolding wait_time get_next_timer
wait_time_bounded m now v = (
  ground arith,
  λ j h.
      let some_timer : m.timers ≢ [] = λ e. empty_contains j (rw e at h) in
      let (i, earliest, t) = get_next_timer-IsEarliest m now v some_timer in
      shorter _ _ _ _ t (earliest.least j h),
)
  where
    shorter :
        (t next_i next_j n : ℕ)
        → t ≡ (next_i - n) / 1000000
        → next_i ≤ next_j
        → min t max_timeout * 1000000 ≤ next_j - n
    shorter t next_i next_j n e le = ground arith

is_empty→[] {ℓ} : {A : Type ℓ} (l : List A) → is_empty l ≡ true → l ≡ []
is_empty→[] [] e = refl
is_empty→[] (x ∷ xs) e = cc

not_empty {ℓ} : {A : Type ℓ} (l : List A) → is_empty l ≡ false → l ≢ []
not_empty [] e e' = cc
not_empty (x ∷ xs) e e' = cc

-- A valid set without timers is what getNextTimer answers ~0ull for, as long as the deadlines lie below
-- 2^63 nanoseconds.
no_timer-empty :
    (m : TimerManager) (now : ℕ)
    → package.tiny_coroutine.Timer.Valid.IsValid m
    → ((j : ℕ) → next_of m j < 2 ^ 63)
    → (get_next_timer m now).1 ≡ no_timer
    → m.timers ≡ []
unfolding get_next_timer
no_timer-empty m now v below h = elim (Bool-cases (is_empty m.timers)) [
  | inl e ↦ is_empty→[] m.timers e
  | inr e ↦
      let (i, _, t) = get_next_timer-IsEarliest m now v (λ e'. not_empty m.timers e e') in
      absurd (omega (arith, below i, t, h))
]

no_events : (e : EventMask) → Mask.size e ≤ 0 → e ≡ empty_mask
no_events e h = none_of e.reads e.writes (ground (arith, h)) (ground (arith, h))
  where
    none_of :
        (reads writes : Bool)
        → reads ≡ false
        → writes ≡ false
        → ◌≡◌ {A = EventMask} (record { reads = reads; writes = writes }) empty_mask
    none_of reads writes p q = rw (p, q) refl

-- On a valid state whose deadlines lie below 2^63 nanoseconds: where IOManager::stopping answers true,
-- there is no timer in the set, no event of any descriptor is registered, the queue is empty, no thread
-- has a task, and stop() was called.
pub stopping_drained :
    (m : Manager) (now : ℕ)
    → package.tiny_coroutine.IoManager.Valid.IsValid m.io
    → package.tiny_coroutine.Timer.Valid.IsValid m.timers
    → ((j : ℕ) → next_of m.timers j < 2 ^ 63)
    → (stopping m now).1 ≡ true
    → (m.timers.timers ≡ [])
      × ((fd : ℕ) → fd < m.io.size → (m.io.contexts fd).events ≡ empty_mask)
      × ((m.io.schedulers m.self).tasks ≡ [])
      × ((m.io.schedulers m.self).active_thread_cnt ≡ 0)
      × ((m.io.schedulers m.self).stopping ≡ true)
unfolding stopping package.tiny_coroutine.Scheduler.stopping
stopping_drained m now v tv below h =
    let s = m.io.schedulers m.self in
    let pending : m.io.pending_event_cnt ≡ 0 = ground (arith, h) in
    (
      no_timer-empty m.timers now tv below (ground (arith, h)),
      λ fd lt. no_events (m.io.contexts fd).events (
          omega (
            arith,
            pending,
            v.pending,
            sum_below-ge (λ i. Mask.size (m.io.contexts i).events) m.io.size fd lt,
          )),
      is_empty→[] s.tasks (ground (arith, h)),
      ground (arith, h),
      ground (arith, h),
    )
