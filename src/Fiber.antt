-- ===== src/Fiber.antt =====
-- code/fiber.h and code/fiber.cpp: the fibers of one thread.
--
-- A Fiber object is an entry of `fibers` under its m_id, and `fresh` is s_fiber_id. What a ucontext_t
-- holds is the stack it continues on, and `stack` is the one that the thread runs on now: swapcontext
-- saves it in one context and takes up that of another. A failed assertion or a null pointer is
-- `abort`; getcontext and swapcontext, which end the thread where they fail, succeed.
pub mod Linked
pub mod Switch
pub mod Reach
pub mod Laws
pub mod Tests
use tiny_coroutine.Base.{
  ℕ, suc, ◌+◌, ◌-◌, ◌%◌, ◌^◌, ◌≡◌, Bool, true, false, ◌||◌, ◌&&◌, Option, none, some, ◌==◌,
  if◌then◌else◌, is_some, update,
}
use tiny_coroutine.Callback.{Callback}
use tiny_coroutine.Result.{Result, done, abort, assert, ◌>>=◌, ◌>>◌}

-- Fiber::State
pub data State : Type 0 where
  ready running term : State

abbrev pub is_ready : State → Bool
is_ready ready = true
is_ready running = false
is_ready term = false

abbrev pub is_term : State → Bool
is_term ready = false
is_term running = false
is_term term = true

abbrev pub is_running : State → Bool
is_running ready = false
is_running running = true
is_running term = false

-- The stack of the thread itself, or that of a fiber.
pub data Stack : Type 0 where
  thread_stack : Stack
  stack_of : ℕ → Stack

-- `has_stack` is m_stack != nullptr; `ctx` is `none` before getcontext.
pub record Fiber : Type 0 where
  pub stacksize : ℕ
  pub state : State
  pub ctx : Option Stack
  pub has_stack : Bool
  pub cb : Option Callback
  pub run_in_scheduler : Bool

-- The fibers, and the thread's t_fiber, t_thread_fiber and t_scheduler_fiber.
pub record Machine : Type 0 where
  pub fibers : ℕ → Fiber
  pub fresh : ℕ
  pub fiber_cnt : ℕ
  pub this : Option ℕ
  pub thread_fiber : Option ℕ
  pub scheduler_fiber : Option ℕ
  pub stack : Stack

abbrev pub write_fiber : Machine → ℕ → Fiber → Machine
write_fiber m f x = record m { fibers = update m.fibers f x }

-- A thread before its first call: no fibers of its own.
abbrev pub start_thread : Machine
start_thread = record {
  fibers = λ _. record {
    stacksize = 0;
    state = ready;
    ctx = none;
    has_stack = false;
    cb = none;
    run_in_scheduler = false;
  };
  fresh = 0;
  fiber_cnt = 0;
  this = none;
  thread_fiber = none;
  scheduler_fiber = none;
  stack = thread_stack;
}

-- Fiber::Fiber(). It leaves m_runInScheduler uninitialised: `garbage`.
unfoldable pub main_fiber : Bool → Machine → Machine
main_fiber garbage m = record m {
  fibers = update m.fibers m.fresh (record {
    stacksize = 0;
    state = running;
    ctx = some m.stack;
    has_stack = false;
    cb = none;
    run_in_scheduler = garbage;
  });
  fresh = suc m.fresh;
  fiber_cnt = m.fiber_cnt + 1;
  this = some m.fresh;
}

-- Fiber::Fiber(cb, stacksize, run_in_scheduler); m_stacksize has 32 bits.
unfoldable pub new_fiber : Machine → Option Callback → ℕ → Bool → Machine
new_fiber m cb stacksize run_in_scheduler = record m {
  fibers = update m.fibers m.fresh (record {
    stacksize = if stacksize == 0 then 128000 else stacksize % 2 ^ 32;
    state = ready;
    ctx = some (stack_of m.fresh);
    has_stack = true;
    cb = cb;
    run_in_scheduler = run_in_scheduler;
  });
  fresh = suc m.fresh;
  fiber_cnt = m.fiber_cnt + 1;
}

-- Fiber::~Fiber, as far as the counter goes.
abbrev pub delete_fiber : Machine → Machine
delete_fiber m = record m { fiber_cnt = m.fiber_cnt - 1 }

-- Fiber::reset.
unfoldable pub reset : Machine → ℕ → Option Callback → Result Machine
reset m f cb = do
  let x = m.fibers f
  assert (x.has_stack && is_term x.state)
  done (write_fiber m f (record x { state = ready; cb = cb; ctx = some (stack_of f) }))

-- swapcontext(&from->m_ctx, &to->m_ctx)
unfoldable pub swapcontext : Machine → Option ℕ → Option ℕ → Result Machine
swapcontext m none to = abort
swapcontext m (some a) none = abort
swapcontext m (some a) (some b) =
    let fibers = update m.fibers a (record (m.fibers a) { ctx = some m.stack }) in
    elim (fibers b).ctx [
      | none ↦ abort
      | some stack ↦ done (record m { fibers = fibers; stack = stack })
    ]

-- The fiber that resume() leaves and yield() returns to.
abbrev pub target : Machine → ℕ → Option ℕ
target m f = if (m.fibers f).run_in_scheduler then m.scheduler_fiber else m.thread_fiber

-- Fiber::SetThis and Fiber::SetSchedulerFiber.
abbrev pub set_this : Machine → Option ℕ → Machine
set_this m f = record m { this = f }

abbrev pub set_scheduler_fiber : Machine → Option ℕ → Machine
set_scheduler_fiber m f = record m { scheduler_fiber = f }

-- Fiber::resume.
unfoldable pub resume : Machine → ℕ → Result Machine
unfolding swapcontext
resume m f = do
  let x = m.fibers f
  assert (is_ready x.state)
  let m' = set_this (write_fiber m f (record x { state = running })) (some f)
  swapcontext m' (target m f) (some f)

-- Fiber::yield.
unfoldable pub yield : Machine → ℕ → Result Machine
unfolding swapcontext
yield m f = do
  let x = m.fibers f
  assert (is_running x.state || is_term x.state)
  let m' = write_fiber m f (if is_term x.state then x else record x { state = ready })
  swapcontext (set_this m' (target m f)) (some f) (target m f)

-- Fiber::GetThis.
unfoldable pub get_this : Bool → Machine → Machine × ℕ
unfolding main_fiber
get_this garbage m = elim m.this [
  | some f ↦ (m, f)
  | none ↦ (
    record (main_fiber garbage m) { thread_fiber = some m.fresh; scheduler_fiber = some m.fresh },
    m.fresh,
  )
]

-- Fiber::GetFiberId.
abbrev pub get_fiber_id : Machine → ℕ
get_fiber_id m = elim m.this [ none ↦ 2 ^ 64 - 1 | some f ↦ f ]

-- Fiber::MainFunc behind the call of the function, where `cur` is `f`.
unfoldable pub finish : Machine → ℕ → Result Machine
unfolding yield
finish m f = yield (write_fiber m f (record (m.fibers f) { cb = none; state = term })) f
