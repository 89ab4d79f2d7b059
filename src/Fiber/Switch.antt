-- ===== src/Fiber/Switch.antt =====
-- code/fiber.cpp: resume() and yield() on a thread whose contexts and pointers belong together.
use tiny_coroutine.Base.{
  ℕ, ◌≡◌, ◌≢◌, ◌<◌, refl, Bool, true, false, Option, none, some, update, arith, sym, ◌∙◌, ap,
  update_self, fun_ext, Bool-cases, inl, inr,
}
use tiny_coroutine.Callback.{Callback}
use tiny_coroutine.Result.{done}
use tiny_coroutine.Fiber.{
  State, ready, running, term, Stack, Fiber, Machine, write_fiber, resume, yield, swapcontext,
  finish, target,
}
use tiny_coroutine.Fiber.Linked.{IsLinked, home}

pub target_known : (m : Machine) (f c : ℕ) → IsLinked m → target m f ≡ some c → c < m.fresh
target_known m f c v t = elim (Bool-cases ((m.fibers f).run_in_scheduler)) [
  | inl b ↦ (v.scheduling c (rw b at t)).0
  | inr b ↦ (v.main c (rw b at t)).0
]

no_stack : {b : Bool} → b ≡ false → b ≡ true → ⊥
no_stack p q = cc

-- A fiber with a stack that another returns to is the scheduling fiber, and returns to the main fiber.
pub target_twice :
    (m : Machine) (f c d : ℕ)
    → IsLinked m
    → target m f ≡ some c
    → (m.fibers c).has_stack ≡ true
    → target m c ≡ some d
    → m.thread_fiber ≡ some d
target_twice m f c d v t st td = elim (Bool-cases ((m.fibers f).run_in_scheduler)) [
  | inl b ↦ rw ((v.scheduling c (rw b at t)).1 st) at td
  | inr b ↦ absurd (no_stack (v.main c (rw b at t)).1 st)
]

pub swapcontext-done :
    (m : Machine) (a b : ℕ) (stack : Stack)
    → a ≢ b
    → (m.fibers b).ctx ≡ some stack
    → swapcontext m (some a) (some b)
      ≡ done (record m {
        fibers = update m.fibers a (record (m.fibers a) { ctx = some m.stack });
        stack = stack;
      })
unfolding swapcontext
swapcontext-done m a b stack ne e = ground arith

-- resume() on a fiber that is ready, from the fiber that it will return to.
abbrev pub resumed_to : Machine → ℕ → ℕ → Machine
resumed_to m f c =
    let started = update m.fibers f (record (m.fibers f) { state = running }) in
    record m {
      fibers = update started c (record (started c) { ctx = some m.stack });
      this = some f;
      stack = home m f;
    }

pub other_state : {s : State} → s ≡ ready → s ≡ running → ⊥
other_state p q = cc

pub resume_to :
    (m : Machine) (f c : ℕ)
    → (m.fibers f).state ≡ ready
    → target m f ≡ some c
    → c ≢ f
    → (m.fibers f).ctx ≡ some (home m f)
    → resume m f ≡ done (resumed_to m f c)
unfolding resume
resume_to m f c r t apart kept =
    let started = record (m.fibers f) { state = running } in
    rw (r, t)
      (swapcontext-done (record (write_fiber m f started) { this = some f }) c f (home m f) apart
        (ground (arith, kept)))

pub resume_ready :
    (m : Machine) (f c : ℕ)
    → IsLinked m
    → f < m.fresh
    → (m.fibers f).state ≡ ready
    → target m f ≡ some c
    → m.this ≡ some c
    → resume m f ≡ done (resumed_to m f c)
resume_ready m f c v lt r t h =
    let idle : m.this ≢ some f = λ e. other_state r (v.runs f e) in
    resume_to m f c r t (λ e. idle (h ∙ ap some e)) (v.kept f lt idle)

pub resumed_to-IsLinked :
    (m : Machine) (f c : ℕ)
    → IsLinked m
    → f < m.fresh
    → (m.fibers f).state ≡ ready
    → target m f ≡ some c
    → m.this ≡ some c
    → IsLinked (resumed_to m f c)
resumed_to-IsLinked m f c v lt r t h =
    let apart : (g : ℕ) → (m.fibers g).state ≡ running → f ≢ g = λ g e i. cc in
    let cr = v.runs c h in
    record {
      on_stack = λ g e. ground (arith, apart c cr);
      known = λ g e. ground (arith, lt);
      runs = λ g e. ground (arith, apart c cr);
      kept = λ g lt ne. ground (arith, v.kept g lt, v.on_stack c h, apart c cr);
      main = λ t e. ground (arith, v.main t e, apart t);
      scheduling = λ s e. ground (arith, v.scheduling s e, apart s);
      waits = λ g d e e' t'. ground (arith, t, t', apart c cr, cr);
      outside = λ e. cc;
      inside = λ g e. v.inside c h;
    }

-- yield() of a fiber that runs and has a stack, to the fiber `c`.
abbrev pub yielded_to : Machine → ℕ → State → Option Callback → ℕ → Machine
yielded_to m f state cb c = record m {
  fibers = update m.fibers f (record (m.fibers f) { state = state; cb = cb; ctx = some m.stack });
  this = some c;
  stack = home m c;
}

pub yielded_to-IsLinked :
    (m : Machine) (f c : ℕ) (state : State) (cb : Option Callback)
    → IsLinked m
    → m.this ≡ some f
    → (m.fibers f).has_stack ≡ true
    → target m f ≡ some c
    → IsLinked (yielded_to m f state cb c)
yielded_to-IsLinked m f c state cb v h st t =
    let (cr, ne) = v.waits f c h st t in
    record {
      on_stack = λ g e. ground (arith, ne);
      known = λ g e. ground (arith, target_known m f c v t);
      runs = λ g e. ground (arith, cr);
      kept = λ g lt ne'. ground (arith, v.kept g lt, v.on_stack f h);
      main = λ t e. ground (arith, v.main t e);
      scheduling = λ s e. ground (arith, v.scheduling s e);
      waits = λ g d e e' t'. ground (arith, target_twice m f c d v t, v.main d, st, ne);
      outside = λ e. cc;
      inside = λ g e. v.inside f h;
    }

-- A switch from a fiber that was written to.
switch_back :
    (m : Machine) (f c : ℕ) (fibers : ℕ → Fiber) (state : State) (cb : Option Callback)
    → IsLinked m
    → m.this ≡ some f
    → (m.fibers f).has_stack ≡ true
    → target m f ≡ some c
    → ((g : ℕ) → fibers g ≡ update m.fibers f (record (m.fibers f) { state = state; cb = cb }) g)
    → swapcontext (record m { fibers = fibers; this = some c }) (some f) (some c)
      ≡ done (yielded_to m f state cb c)
switch_back m f c fibers state cb v h st t same =
    let (_, ne) = v.waits f c h st t in
    let apart : f ≢ c = λ e. ne (sym e) in
    let kept : (m.fibers c).ctx ≡ some (home m c) =
      v.kept c (target_known m f c v t) (λ e. apart (some_injective (sym h ∙ e))) in
    swapcontext-done (record m { fibers = fibers; this = some c }) f c (home m c) apart
      (ground (arith, same c))
    ∙ ap (λ g. done (record m { fibers = g; this = some c; stack = home m c }))
        (fun_ext λ g. ground (arith, same g, same f))
  where
    some_injective : {a b : ℕ} → some a ≡ some b → a ≡ b
    some_injective e = cc

pub yield_running :
    (m : Machine) (f c : ℕ)
    → IsLinked m
    → m.this ≡ some f
    → (m.fibers f).has_stack ≡ true
    → target m f ≡ some c
    → yield m f ≡ done (yielded_to m f ready (m.fibers f).cb c)
unfolding yield
yield_running m f c v h st t =
    rw (v.runs f h, t) (switch_back m f c _ ready (m.fibers f).cb v h st t (λ g. refl))

yield_over :
    (m : Machine) (f c : ℕ)
    → (m.fibers f).state ≡ term
    → target m f ≡ some c
    → yield m f
      ≡ swapcontext (record (write_fiber m f (m.fibers f)) { this = some c }) (some f) (some c)
unfolding yield
yield_over m f c e t = rw (e, t) refl

pub finish_running :
    (m : Machine) (f c : ℕ)
    → IsLinked m
    → m.this ≡ some f
    → (m.fibers f).has_stack ≡ true
    → target m f ≡ some c
    → finish m f ≡ done (yielded_to m f term none c)
unfolding finish
finish_running m f c v h st t =
    let over = record (m.fibers f) { cb = none; state = term } in
    let m' = write_fiber m f over in
    let at : m'.fibers f ≡ over = update_self m.fibers f over in
    yield_over m' f c (ap (λ x. x.state) at) (ground (arith, t, at))
    ∙ switch_back m f c (update m'.fibers f (m'.fibers f)) term none v h st t (λ g. ground arith)
