-- ===== src/Fiber/Reach.antt =====
-- code/fiber.cpp: the calls of a thread, one after the other, as the scheduler makes them.
use tiny_coroutine.Base.{
  ℕ, ◌≡◌, ◌<◌, refl, Bool, true, false, Option, none, some, arith, subst, sym, ◌∙◌, ◌&&◌,
  Bool-cases, inl, inr, is_some,
}
use tiny_coroutine.Callback.{Callback}
use tiny_coroutine.Result.{Result, done, assert, ◌>>=◌}
use tiny_coroutine.Fiber.{
  State, ready, running, term, Machine, start_thread, new_fiber, reset, resume, yield, get_this,
  finish, target, set_scheduler_fiber, is_term, is_ready,
}
use tiny_coroutine.Fiber.Linked.{
  IsLinked, start_thread-IsLinked, new_fiber-IsLinked, get_this-IsLinked, reset_to,
  reset_to-IsLinked, set_scheduler_fiber-IsLinked,
}
use tiny_coroutine.Fiber.Switch.{
  resume_ready, resumed_to-IsLinked, yield_running, yielded_to-IsLinked, finish_running,
}

-- A call that the thread makes, on any fiber that it has a pointer to.
pub data Step (m : Machine) : Machine → Type 0 where
  creates :
      (cb : Option Callback) (stacksize : ℕ) (run_in_scheduler : Bool)
      → Step m (new_fiber m cb stacksize run_in_scheduler)
  enters : (garbage : Bool) → Step m ((get_this garbage m).0)
  resets : (f : ℕ) (cb : Option Callback) (m' : Machine) → reset m f cb ≡ done m' → Step m m'
  resumes : (f : ℕ) (m' : Machine) → f < m.fresh → resume m f ≡ done m' → Step m m'
  yields : (f : ℕ) (m' : Machine) → yield m f ≡ done m' → Step m m'
  finishes : (f : ℕ) (m' : Machine) → finish m f ≡ done m' → Step m m'
  sets_scheduler : (s : ℕ) → s < m.fresh → Step m (set_scheduler_fiber m (some s))

-- How the scheduler makes its calls, where the code does not test it. A fiber is resumed by the one that
-- it will return to, as run() does on the scheduling fiber and stop() on the main fiber; a fiber that
-- yields or ends is the one that runs, and has a stack; the scheduling fiber is set on the main fiber,
-- to one that returns to the main fiber.
abbrev pub IsProper : {m m' : Machine} → Step m m' → Type 0
IsProper {m} (resumes f _ _ _) = (c : ℕ) × (target m f ≡ some c) × (m.this ≡ some c)
IsProper {m} (yields f _ _) = (m.this ≡ some f) × ((m.fibers f).has_stack ≡ true)
IsProper {m} (finishes f _ _) = (m.this ≡ some f) × ((m.fibers f).has_stack ≡ true)
IsProper {m} (sets_scheduler s _) =
    ((m.fibers s).run_in_scheduler ≡ false)
    × ((t : ℕ) × (m.this ≡ some t) × (m.thread_fiber ≡ some t))
IsProper _ = Unit

-- The states that a thread comes to by proper calls.
pub data Reach : Machine → Type 0 where
  starts : Reach start_thread
  steps : {m m' : Machine} → Reach m → (s : Step m m') → IsProper s → Reach m'

done_injective {ℓ} : {A : Type ℓ} {a b : A} → done a ≡ done b → a ≡ b
done_injective e = cc

-- What an answer says of the result that a call has otherwise.
by_answer : (r : Result Machine) (a b : Machine) → r ≡ done a → r ≡ done b → IsLinked a → IsLinked b
by_answer r a b p q = subst IsLinked (done_injective (sym p ∙ q))

-- The fiber that the running one returns to.
pub has_target :
    (m : Machine) (f : ℕ) → IsLinked m → m.this ≡ some f → (c : ℕ) × (target m f ≡ some c)
has_target m f v h =
    let (main, scheduling) = v.inside f h in
    elim (Bool-cases (m.fibers f).run_in_scheduler) [
      | inl b ↦ rw b (is_some→some m.scheduler_fiber scheduling)
      | inr b ↦ rw b (is_some→some m.thread_fiber main)
    ]
  where
    is_some→some : (o : Option ℕ) → is_some o ≡ true → (c : ℕ) × (o ≡ some c)
    is_some→some none e = cc
    is_some→some (some c) e = (c, refl)

-- Where code behind an assertion returns, the assertion held.
assert-done {ℓ} :
    {A : Type ℓ} (b : Bool) (r : Result A) (a : A)
    → (assert b >>= λ _. r) ≡ done a
    → (b ≡ true) × (r ≡ done a)
assert-done true r a e = (refl, e)
assert-done false r a e = cc

is_ready→ready : (s : State) → is_ready s ≡ true → s ≡ ready
is_ready→ready ready e = refl
is_ready→ready running e = cc
is_ready→ready term e = cc

is_term→term : (s : State) → is_term s ≡ true → s ≡ term
is_term→term ready e = cc
is_term→term running e = cc
is_term→term term e = refl

-- Where reset() returns, its assertion held.
reset_returns :
    (m : Machine) (f : ℕ) (cb : Option Callback) (m' : Machine)
    → reset m f cb ≡ done m'
    → ((m.fibers f).has_stack ≡ true) × ((m.fibers f).state ≡ term) × (reset_to m f cb ≡ m')
unfolding reset
reset_returns m f cb m' h =
    let (held, e) = assert-done ((m.fibers f).has_stack && is_term (m.fibers f).state) _ m' h in
    (ground (arith, held), is_term→term _ (ground (arith, held)), done_injective e)

resume_returns :
    (m : Machine) (f : ℕ) (m' : Machine) → resume m f ≡ done m' → (m.fibers f).state ≡ ready
unfolding resume
resume_returns m f m' h = is_ready→ready _ (assert-done (is_ready (m.fibers f).state) _ m' h).0

Step-IsLinked : {m m' : Machine} → IsLinked m → (s : Step m m') → IsProper s → IsLinked m'
Step-IsLinked {m} v (creates cb n r) p = new_fiber-IsLinked m cb n r v
Step-IsLinked {m} v (enters garbage) p = get_this-IsLinked garbage m v
Step-IsLinked {m} {m'} v (resets f cb _ h) p =
    let (st, e, same) = reset_returns m f cb m' h in
    subst IsLinked same (reset_to-IsLinked m f cb v st e)
Step-IsLinked {m} {m'} v (resumes f _ lt e) (c, t, h) =
    let r = resume_returns m f m' e in
    by_answer _ _ m' (resume_ready m f c v lt r t h) e (resumed_to-IsLinked m f c v lt r t h)
Step-IsLinked {m} {m'} v (yields f _ e) (h, st) =
    let (c, t) = has_target m f v h in
    by_answer _ _ m' (yield_running m f c v h st t) e
      (yielded_to-IsLinked m f c ready (m.fibers f).cb v h st t)
Step-IsLinked {m} {m'} v (finishes f _ e) (h, st) =
    let (c, t) = has_target m f v h in
    by_answer _ _ m' (finish_running m f c v h st t) e
      (yielded_to-IsLinked m f c term none v h st t)
Step-IsLinked {m} v (sets_scheduler s lt) (r, (t, h, main)) =
    set_scheduler_fiber-IsLinked m s t v lt r h main

-- After calls of a thread that resume a fiber only from the one that it will return to, let only the
-- running fiber yield or end, and only where it has a stack, and set the scheduling fiber only in
-- the main fiber, to one that returns to the main fiber: the fiber that t_fiber points to runs, and
-- runs on its own stack, while the context of every other fiber continues on that fiber's stack.
pub Reach-IsLinked : (m : Machine) → Reach m → IsLinked m
Reach-IsLinked _ starts = start_thread-IsLinked
Reach-IsLinked _ (steps {m} r s p) = Step-IsLinked (Reach-IsLinked m r) s p
