-- ===== src/Fiber/Tests.antt =====
-- code/fiber.cpp: a thread with its main fiber 0 and two fibers, 1 and 2, of which it resumes the first.
use tiny_coroutine.Base.{ℕ, ◌≡◌, refl, true, false, some, arith}
use tiny_coroutine.Callback.{user}
use tiny_coroutine.Result.{done}
use tiny_coroutine.Fiber.{
  Machine, stack_of, start_thread, main_fiber, new_fiber, resume, yield, get_this, swapcontext,
}
use tiny_coroutine.Fiber.Linked.{IsLinked}
use tiny_coroutine.Fiber.Switch.{resumed_to}
use tiny_coroutine.Fiber.Reach.{Reach, starts, steps, creates, enters, resumes, Reach-IsLinked}
use tiny_coroutine.Fiber.Laws.{resume-yield}

abbrev two_fibers : Machine
two_fibers =
    new_fiber (new_fiber (get_this false start_thread).0 (some (user 1)) 0 true) (some (user 2))
      4096 true

two_fibers-Reach : Reach two_fibers
two_fibers-Reach =
    steps (steps (steps starts (enters false) tt) (creates (some (user 1)) 0 true) tt)
      (creates (some (user 2)) 4096 true) tt

abbrev in_first : Machine
in_first = resumed_to two_fibers 1 0

resumed : resume two_fibers 1 ≡ done in_first
unfolding resume swapcontext get_this main_fiber new_fiber
resumed = refl

in_first-Reach : Reach in_first
unfolding get_this main_fiber new_fiber
in_first-Reach = steps two_fibers-Reach (resumes 1 in_first (omega arith) resumed) (0, refl, refl)

stack : in_first.stack ≡ stack_of 1
unfolding get_this main_fiber new_fiber
stack = refl

Reach-IsLinked_example : IsLinked in_first
Reach-IsLinked_example = Reach-IsLinked in_first in_first-Reach

resume-yield_example :
    (m' m'' : Machine) × (resume two_fibers 1 ≡ done m')
    × (m'.this ≡ some 1)
    × (m'.stack ≡ stack_of 1)
    × (yield m' 1 ≡ done m'')
    × (m''.this ≡ some 0)
    × (m''.stack ≡ two_fibers.stack)
    × ((g : ℕ) → (m''.fibers g).state ≡ (two_fibers.fibers g).state)
unfolding get_this main_fiber new_fiber
resume-yield_example =
    resume-yield two_fibers 1 0 two_fibers-Reach (omega arith) refl refl refl refl
