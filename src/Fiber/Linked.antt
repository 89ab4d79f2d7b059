-- ===== src/Fiber/Linked.antt =====
-- code/fiber.cpp: the contexts and pointers of a thread belong together.
use tiny_coroutine.Base.{
  ℕ, ◌≡◌, ◌≢◌, ◌<◌, refl, Bool, true, false, Option, none, some, if◌then◌else◌, is_some, arith,
  subst, sym, Option-cases, inl, inr,
}
use tiny_coroutine.Callback.{Callback}
use tiny_coroutine.Fiber.{
  ready, running, term, Stack, thread_stack, stack_of, Machine, write_fiber, start_thread,
  main_fiber, new_fiber, get_this, target, set_scheduler_fiber,
}

-- The stack that a fiber runs on.
abbrev pub home : Machine → ℕ → Stack
home m f = if (m.fibers f).has_stack then stack_of f else thread_stack

-- The fiber that t_fiber points to runs, and on its own stack; every other fiber's context is its own.
-- The thread's main fiber always counts as running. The fiber that the running one will return to
-- counts as running as well, and a scheduling fiber with a stack returns to the main fiber.
pub record IsLinked (m : Machine) : Type 0 where
  pub on_stack : (f : ℕ) → m.this ≡ some f → m.stack ≡ home m f
  pub known : (f : ℕ) → m.this ≡ some f → f < m.fresh
  pub runs : (f : ℕ) → m.this ≡ some f → (m.fibers f).state ≡ running
  pub kept : (f : ℕ) → f < m.fresh → m.this ≢ some f → (m.fibers f).ctx ≡ some (home m f)
  pub main :
      (t : ℕ)
      → m.thread_fiber ≡ some t
      → (t < m.fresh) × ((m.fibers t).has_stack ≡ false) × ((m.fibers t).state ≡ running)
  pub scheduling :
      (s : ℕ)
      → m.scheduler_fiber ≡ some s
      → (s < m.fresh) × ((m.fibers s).has_stack ≡ true → (m.fibers s).run_in_scheduler ≡ false)
  pub waits :
      (f c : ℕ)
      → m.this ≡ some f
      → (m.fibers f).has_stack ≡ true
      → target m f ≡ some c
      → (m.fibers c).state ≡ running × (c ≢ f)
  pub outside :
      m.this ≡ none
      → (m.thread_fiber ≡ none) × (m.scheduler_fiber ≡ none) × (m.stack ≡ thread_stack)
  pub inside :
      (f : ℕ)
      → m.this ≡ some f
      → (is_some m.thread_fiber ≡ true) × (is_some m.scheduler_fiber ≡ true)

pub start_thread-IsLinked : IsLinked start_thread
start_thread-IsLinked = record {
  on_stack = λ f h. cc;
  known = λ f h. cc;
  runs = λ f h. cc;
  kept = λ f lt ne. absurd (omega (arith, lt));
  main = λ t h. cc;
  scheduling = λ s h. cc;
  waits = λ f c h. cc;
  outside = λ h. (refl, refl, refl);
  inside = λ f h. cc;
}

pub new_fiber-IsLinked :
    (m : Machine) (cb : Option Callback) (stacksize : ℕ) (run_in_scheduler : Bool)
    → IsLinked m
    → IsLinked (new_fiber m cb stacksize run_in_scheduler)
unfolding new_fiber
new_fiber-IsLinked m cb n r v = record {
  on_stack = λ f h. ground (arith, v.on_stack f h, v.known f h);
  known = λ f h. omega (arith, v.known f h);
  runs = λ f h. ground (arith, v.runs f h, v.known f h);
  kept = λ f lt ne. ground (arith, v.kept f);
  main = λ t h. ground (arith, v.main t h);
  scheduling = λ s h. ground (arith, v.scheduling s h);
  waits = λ f c h e t. ground (arith, v.waits f c h, v.known f h, v.main c, v.scheduling c);
  outside = v.outside;
  inside = v.inside;
}

pub get_this-IsLinked :
    (garbage : Bool) (m : Machine) → IsLinked m → IsLinked ((get_this garbage m).0)
unfolding get_this main_fiber
get_this-IsLinked garbage m v = elim (Option-cases m.this) [
  | inr (f, e) ↦ let same : (get_this garbage m).0 ≡ m = ground arith in subst IsLinked (sym same) v
  | inl e ↦
      let (no_main, no_scheduler, own) = v.outside e in
      rw e (record {
        on_stack = λ f h. ground arith;
        known = λ f h. ground arith;
        runs = λ f h. ground arith;
        kept = λ f lt ne. ground (arith, v.kept f);
        main = λ t h. ground arith;
        scheduling = λ s h. ground arith;
        waits = λ f c h e' t. ground arith;
        outside = λ h. cc;
        inside = λ f h. (refl, refl);
      })
]

-- reset() where its assertion holds.
abbrev pub reset_to : Machine → ℕ → Option Callback → Machine
reset_to m f cb =
    write_fiber m f (record (m.fibers f) { state = ready; cb = cb; ctx = some (stack_of f) })

pub reset_to-IsLinked :
    (m : Machine) (f : ℕ) (cb : Option Callback)
    → IsLinked m
    → (m.fibers f).has_stack ≡ true
    → (m.fibers f).state ≡ term
    → IsLinked (reset_to m f cb)
reset_to-IsLinked m f cb v st e =
    let apart : (c : ℕ) → (m.fibers c).state ≡ running → f ≢ c = λ c r h. cc in
    record {
      on_stack = λ g h. ground (arith, v.on_stack g h, apart g (v.runs g h));
      known = v.known;
      runs = λ g h. ground (arith, v.runs g h, apart g);
      kept = λ g lt ne. ground (arith, v.kept g);
      main = λ t h. ground (arith, v.main t h, apart t);
      scheduling = λ s h. ground (arith, v.scheduling s h);
      waits = λ g c h e' t. ground (arith, v.waits g c h, apart g (v.runs g h), apart c);
      outside = v.outside;
      inside = v.inside;
    }

-- SetSchedulerFiber on the main fiber, for a fiber that returns to it.
pub set_scheduler_fiber-IsLinked :
    (m : Machine) (s t : ℕ)
    → IsLinked m
    → s < m.fresh
    → (m.fibers s).run_in_scheduler ≡ false
    → m.this ≡ some t
    → m.thread_fiber ≡ some t
    → IsLinked (set_scheduler_fiber m (some s))
set_scheduler_fiber-IsLinked m s t v lt r h main = record {
  on_stack = v.on_stack;
  known = v.known;
  runs = v.runs;
  kept = v.kept;
  main = v.main;
  scheduling = λ g e. ground (arith, lt, r);
  waits = λ f c e st e'. ground (arith, v.main t main);
  outside = λ e. cc;
  inside = λ f e. ((v.inside f e).0, refl);
}
