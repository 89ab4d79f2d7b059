-- ===== src/Pool/Views.antt =====
-- code/scheduler.cpp and code/fiber.cpp: what fiber.cpp sees on a thread of a pool.
use tiny_coroutine.Base.{ℕ, ◌<◌, ◌≡◌, ◌≢◌, refl, true, false, some, arith, inl, inr}
use tiny_coroutine.Fiber.{State, ready, running, term, is_running, target}
use tiny_coroutine.Fiber.Linked.{IsLinked}
use tiny_coroutine.Pool.{looking, inside, Pool, view, IsKnown, fits}
use tiny_coroutine.Pool.Valid.{HasCore, IsHome, IsMain, IsPool, is_apart}

pub is_running-running : (s : State) → is_running s ≡ true → s ≡ running
is_running-running ready h = cc
is_running-running running h = refl
is_running-running term h = cc

-- The fiber that run() is in exists, and runs; where it has a stack it returns to the main fiber.
pub record Runs (p : Pool) (s : ℕ) : Type 0 where
  pub below : s < p.fresh
  pub state : (p.fibers s).state ≡ running
  pub returns : (p.fibers s).has_stack ≡ true → (p.fibers s).run_in_scheduler ≡ false

pub home-Runs :
    {p : Pool} (i c s : ℕ)
    → IsPool p
    → is_apart (p.places i) ≡ false
    → IsMain p c
    → IsHome p i c s
    → Runs p s
home-Runs {p} i c s v at (lt, st) (inl e) =
    rw e (record {
      below = lt;
      state = v.mains c lt st;
      returns = λ h. absurd (ground (arith, st, h));
    })
home-Runs {p} i c s v at (lt, st) (inr e) =
    let r = v.root i s e in
    record { below = r.below; state = ground (arith, r.state, at); returns = λ h. r.returns }

-- What fiber.cpp sees on a thread that is at run(), outside of the fibers of tasks.
pub view_outside :
    (p : Pool) (i : ℕ)
    → IsPool p
    → is_apart (p.places i) ≡ false
    → HasCore p i looking (p.cores i)
    → IsLinked (view p i)
view_outside p i v at k =
    let r = home-Runs i k.main k.sched v at k.known k.home in
    record {
      on_stack = λ f q. ground (arith, k.core);
      known = λ f q. ground (arith, k.core, r.below);
      runs = λ f q. ground (arith, k.core, r.state);
      kept = λ f q ne. v.own f q;
      main = λ t q. ground (arith, k.core, k.known, v.mains t);
      scheduling = λ s q. ground (arith, k.core, r.below, r.returns);
      waits = λ f d q q' t. ground (arith, k.core, k.known, r.returns, v.mains k.main);
      outside = λ q. ground (arith, k.core);
      inside = λ f q. ground (arith, k.core);
    }

-- Where a fiber of a task returns to.
pub target_home :
    (p : Pool) (i c s f : ℕ)
    → IsHome p i c s
    → fits p f ≡ true
    → (p.cores i).thread_fiber ≡ some c
    → (p.cores i).scheduler_fiber ≡ some s
    → target (view p i) f ≡ some s
target_home p i c s f (inl e) h t q = ground (arith, e, t, q)
target_home p i c s f (inr e) h t q = ground (arith, e, h, q)

pub other_home :
    (p : Pool) (i c s f : ℕ)
    → IsMain p c
    → IsHome p i c s
    → (p.fibers f).has_stack ≡ true
    → fits p f ≡ true
    → s ≢ f
other_home p i c s f (lt, st) (inl e) h t q = absurd (ground (arith, e, st, h, q))
other_home p i c s f (lt, st) (inr e) h t q = absurd (ground (arith, e, t, q))

-- What it sees in a fiber `f` that the thread has resumed.
pub view_in :
    (p : Pool) (i f : ℕ)
    → IsPool p
    → is_apart (p.places i) ≡ false
    → IsKnown p (some f)
    → (p.fibers f).state ≡ running
    → HasCore p i (inside f) (p.cores i)
    → IsLinked (view p i)
view_in p i f v at (there, stacked, fit) state k =
    let r = home-Runs i k.main k.sched v at k.known k.home in
    record {
      on_stack = λ g q. ground (arith, k.core, there, stacked);
      known = λ g q. ground (arith, k.core, there, stacked);
      runs = λ g q. ground (arith, k.core, state);
      kept = λ g q ne. v.own g q;
      main = λ t q. ground (arith, k.core, k.known, v.mains t);
      scheduling = λ s q. ground (arith, k.core, r.below, r.returns);
      waits = λ g d q q' t. ground (
        arith,
        k.core,
        t,
        r.state,
        target_home p i k.main k.sched f k.home fit (ground (arith, k.core))
            (ground (arith, k.core)),
        other_home p i k.main k.sched f k.known k.home stacked fit,
      );
      outside = λ q. ground (arith, k.core);
      inside = λ g q. ground (arith, k.core);
    }
