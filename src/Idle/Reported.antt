-- ===== src/Idle/Reported.antt =====
-- code/ioscheduler.cpp: the loop of idle() over the events.
use tiny_coroutine.Base.{
  ℕ, ◌<◌, ◌≡◌, ◌≢◌, refl, Bool, true, false, List, [], ◌∷◌, arith, if◌then◌else◌, ◌∙◌,
}
use mathlib.Core.List.{append-nil}
use tiny_coroutine.Result.{done, Returns, Returns-map, Returns-bind}
use tiny_coroutine.Scheduler.{Scheduler}
use tiny_coroutine.IoManager.{IoManager, Kernel, EpollEvents, handle_event, real_events, Request}
use tiny_coroutine.IoManager.Mask.{EventMask}
use tiny_coroutine.IoManager.Context.{EventContext}
use tiny_coroutine.IoManager.Valid.{IsValid}
use tiny_coroutine.IoManager.Slots.{posted}
use tiny_coroutine.IoManager.Ready.{IsPart}
use tiny_coroutine.IoManager.Handled.{Handled, handle_event-Handled, same-IsValid}
use tiny_coroutine.Idle.{Manager, Ready, on_pipe, on_fd, with_scheduler, handle_ready, handle_all}
use tiny_coroutine.Idle.Queues.{Extends, Extends-refl, Extends-trans, Extends-posted, Extends-if}

-- What epoll_wait reports: of every descriptor at most once, where it has a context, and only events
-- that are registered.
abbrev pub IsApart : ℕ → List Ready → Type 0
IsApart fd [] = Unit {0}
IsApart fd (on_pipe ∷ rs) = IsApart fd rs
IsApart fd (on_fd i e ∷ rs) = (i ≢ fd) × IsApart fd rs

abbrev pub IsReported : IoManager → List Ready → Type 0
IsReported m [] = Unit {0}
IsReported m (on_pipe ∷ rs) = IsReported m rs
IsReported m (on_fd fd e ∷ rs) =
    (fd < m.size)
    × IsPart (real_events e (m.contexts fd).events) (m.contexts fd).events
    × IsApart fd rs
    × IsReported m rs

pub IsReported-frame :
    (m m' : IoManager) (fd : ℕ) (rs : List Ready)
    → m'.size ≡ m.size
    → ((i : ℕ) → i ≢ fd → m'.contexts i ≡ m.contexts i)
    → IsApart fd rs
    → IsReported m rs
    → IsReported m' rs
IsReported-frame m m' fd [] s c a r = tt
IsReported-frame m m' fd (on_pipe ∷ rs) s c a r = IsReported-frame m m' fd rs s c a r
IsReported-frame m m' fd (on_fd i e ∷ rs) s c (ne, a) (lt, part, ap', r) =
    (rw s lt, rw (c i ne) part, ap', IsReported-frame m m' fd rs s c a r)

pub IsReported-same :
    (m m' : IoManager) (rs : List Ready)
    → m'.size ≡ m.size
    → m'.contexts ≡ m.contexts
    → IsReported m rs
    → IsReported m' rs
IsReported-same m m' [] s c r = tt
IsReported-same m m' (on_pipe ∷ rs) s c r = IsReported-same m m' rs s c r
IsReported-same m m' (on_fd i e ∷ rs) s c (lt, part, a, r) =
    (rw s lt, rw c part, a, IsReported-same m m' rs s c r)

-- What the handling of events leaves alone, and that it only adds to the queues.
pub record Handles (m : Manager) (m' : Manager) : Type 0 where
  pub valid : IsValid m'.io
  pub extends : Extends m.io.schedulers m'.io.schedulers
  pub timers : m'.timers ≡ m.timers
  pub self : m'.self ≡ m.self

pub Handled-Extends :
    (b : Bool) (n n' : IoManager) (fd : ℕ) (real : EventMask) (r : Request)
    → Handled b n fd real r n'
    → Extends n.schedulers n'.schedulers
      × (n'.size ≡ n.size)
      × ((i : ℕ) → i ≢ fd → n'.contexts i ≡ n.contexts i)
Handled-Extends false n n' fd real r (c, p, s, z) =
    (rw s (Extends-refl n.schedulers), z, λ i ne. rw c refl)
Handled-Extends true n n' fd real r f = (
  rw f.schedulers (
      Extends-if real.writes n.schedulers (posted after_read writer) after_read
        (Extends-trans n.schedulers after_read (posted after_read writer) read_extends
          (Extends-posted after_read writer))
        read_extends),
  f.size,
  λ i ne. rw f.contexts (ground arith),
)
  where
    reader : EventContext
    reader = (n.contexts fd).reader

    writer : EventContext
    writer = (n.contexts fd).writer

    after_read : ℕ → Scheduler
    after_read = if real.reads then posted n.schedulers reader else n.schedulers

    read_extends : Extends n.schedulers after_read
    read_extends =
        Extends-if real.reads n.schedulers (posted n.schedulers reader) n.schedulers
          (Extends-posted n.schedulers reader) (Extends-refl n.schedulers)

Handles-trans : (a b c : Manager) → Handles a b → Handles b c → Handles a c
Handles-trans a b c p q = record {
  valid = q.valid;
  extends = Extends-trans a.io.schedulers b.io.schedulers c.io.schedulers p.extends q.extends;
  timers = q.timers ∙ p.timers;
  self = q.self ∙ p.self;
}

abbrev drained : Manager → Manager
drained m = with_scheduler m (record (m.io.schedulers m.self) { pipe = 0 })

drained-Handles : (m : Manager) → IsValid m.io → Handles m (drained m)
drained-Handles m v = record {
  valid = same-IsValid m.io _ refl refl refl refl v;
  extends = λ i. ([], ground (arith, append-nil (m.io.schedulers i).tasks));
  timers = refl;
  self = refl;
}

handle_fd-Handles :
    (kernel : Kernel) (m : Manager) (fd : ℕ) (e : EpollEvents)
    → IsValid m.io
    → fd < m.io.size
    → IsPart (real_events e (m.io.contexts fd).events) (m.io.contexts fd).events
    → Returns
        (λ m'.
          Handles m m'
          × (m'.io.size ≡ m.io.size)
          × ((i : ℕ) → i ≢ fd → m'.io.contexts i ≡ m.io.contexts i))
        (handle_ready kernel m (on_fd fd e))
unfolding handle_ready
handle_fd-Handles kernel m fd e v lt part =
    Returns-bind _ _ (handle_event kernel m.io fd e) (λ io. done (record m { io = io }))
      (handle_event-Handled kernel m.io fd v lt e part)
      (λ io (valid, h).
        let (extends, size, contexts) = Handled-Extends _ m.io io fd _ _ h in
        (record { valid = valid; extends = extends; timers = refl; self = refl }, size, contexts))

-- On a valid state the loop over the events that epoll_wait reported, of which each descriptor has at
-- most one, with a context and registered events only, runs into no assertion, keeps the state valid,
-- and does nothing to a queue but add to its end.
pub handle_all-Handles :
    (kernel : Kernel) (rs : List Ready) (m : Manager)
    → IsValid m.io
    → IsReported m.io rs
    → Returns (Handles m) (handle_all kernel m rs)
unfolding handle_all
handle_all-Handles kernel [] m v r = record {
  valid = v;
  extends = Extends-refl m.io.schedulers;
  timers = refl;
  self = refl;
}
handle_all-Handles kernel (on_pipe ∷ rs) m v r =
    Returns-map (handle_all kernel (drained m) rs)
      (λ m' k. Handles-trans m (drained m) m' (drained-Handles m v) k)
      (handle_all-Handles kernel rs (drained m) (drained-Handles m v).valid
        (IsReported-same m.io (drained m).io rs refl refl r))
handle_all-Handles kernel (on_fd fd e ∷ rs) m v (lt, part, a, r) =
    Returns-bind _ (Handles m) (handle_ready kernel m (on_fd fd e)) (λ m'. handle_all kernel m' rs)
      (handle_fd-Handles kernel m fd e v lt part)
      (λ m' (h, size, contexts).
        Returns-map (handle_all kernel m' rs) (λ m'' k. Handles-trans m m' m'' h k)
          (handle_all-Handles kernel rs m' h.valid
            (IsReported-frame m.io m'.io fd rs size contexts a r)))
