-- ===== src/Idle/Lifecycle.antt =====
-- code/ioscheduler.cpp: the constructor of an IOManager; and how long its threads go on.
use tiny_coroutine.Base.{
  ℕ, suc, ◌+◌, List, [], ◌≤◌, ◌<◌, ◌≡◌, refl, Bool, true, false, not, Option, none, some, arith,
  ltb, if◌then◌else◌, is_some, update, sum_below-ge,
}
use tiny_coroutine.Callback.{Event, no_event, read, write}
use tiny_coroutine.Result.{Result, done, abort, assert, ◌>>=◌, ◌>>◌, Returns}
use tiny_coroutine.Timer
use tiny_coroutine.Scheduler.{Scheduler, new_scheduler, start}
use tiny_coroutine.IoManager
use tiny_coroutine.IoManager.{IoManager, Kernel}
use tiny_coroutine.IoManager.Mask
use tiny_coroutine.IoManager.Mask.{EventMask, has}
use tiny_coroutine.Idle.{Manager, Inputs, ended, waited, stopping, idle_round}

-- What the system answers to the constructor: the descriptor of epoll_create, where it is not -1, and
-- whether pipe, fcntl and epoll_ctl succeed.
pub record Setup : Type 0 where
  pub epfd : Option ℕ
  pub piped : Bool
  pub nonblocking : Bool
  pub added : Bool

abbrev from_option {ℓ} : {A : Type ℓ} → Option A → Result A
from_option none = abort
from_option (some a) = done a

-- m_epfd > 0
abbrev pub is_positive : Option ℕ → Bool
is_positive none = false
is_positive (some n) = ltb 0 n

-- IOManager::IOManager on the thread `caller`, which has the scheduler `this`, at the time `now`. The
-- new scheduler stands under `self` in `schedulers`.
unfoldable pub new_manager :
    Setup → (ℕ → Scheduler) → ℕ → ℕ → Bool → ℕ → Option ℕ → ℕ → Result Manager
unfolding new_scheduler start IoManager.init Timer.init
new_manager a schedulers self threads use_caller caller this now = do
  assert (not (is_some this))
  s ← from_option (new_scheduler threads use_caller caller)
  assert (is_positive a.epfd)
  assert a.piped
  assert a.nonblocking
  assert a.added
  s' ← from_option (start s)
  done (record {
    io = IoManager.init (update schedulers self s');
    timers = Timer.init now;
    self = self;
  })

-- A manager at its start: it runs the threads that it was asked for, nothing waits, and nothing is done.
pub record IsFresh (m : Manager) (self threads : ℕ) (now : ℕ) : Type 0 where
  pub named : m.self ≡ self
  pub valid : package.tiny_coroutine.IoManager.Valid.IsValid m.io
  pub timers_valid : package.tiny_coroutine.Timer.Valid.IsValid m.timers
  pub events : (fd : ℕ) (event : Event) → has (m.io.contexts fd).events event ≡ false
  pub timers : m.timers.timers ≡ []
  pub tasks : (m.io.schedulers self).tasks ≡ []
  pub pool :
      (m.io.schedulers self).threads + (if (m.io.schedulers self).use_caller then 1 else 0)
      ≡ threads
  pub idle : (m.io.schedulers self).active_thread_cnt + (m.io.schedulers self).idle_thread_cnt ≡ 0
  pub flag : (m.io.schedulers self).stopping ≡ false
  pub first_turn : (stopping m now).1 ≡ false

-- Where the calls of the system succeed, on a thread without a scheduler: the constructor for a
-- positive number of threads runs into no assertion. The manager runs as many threads, valid events
-- and timers, with nothing registered, scheduled or stopped, and its threads do not end at once.
pub new_manager-IsFresh :
    (a : Setup) (schedulers : ℕ → Scheduler) (self n : ℕ) (use_caller : Bool) (caller now later : ℕ)
    → is_positive a.epfd ≡ true
    → (a.piped ≡ true) × (a.nonblocking ≡ true) × (a.added ≡ true)
    → Returns
        (λ m. IsFresh m self (suc n) later)
        (new_manager a schedulers self (suc n) use_caller caller none now)
unfolding new_manager stopping package.tiny_coroutine.Scheduler.stopping IoManager.init Timer.init
new_manager-IsFresh a schedulers self n use_caller caller now later e (p, q, r) =
    rw (e, p, q, r)
      (record {
        named = refl;
        valid = package.tiny_coroutine.IoManager.Valid.init-IsValid (update schedulers self _);
        timers_valid = package.tiny_coroutine.Timer.Valid.init-IsValid now;
        events = λ fd event. clear fd event;
        timers = refl;
        tasks = ground arith;
        pool = ground arith;
        idle = ground arith;
        flag = ground arith;
        first_turn = ground arith;
      })
  where
    clear :
        (fd : ℕ) (event : Event)
        → has ((IoManager.init schedulers).contexts fd).events event ≡ false
    clear fd no_event = refl
    clear fd read = ground arith
    clear fd write = ground arith

has-size : (m : EventMask) (event : Event) → has m event ≡ true → 1 ≤ Mask.size m
has-size m no_event h = cc
has-size m read h = ground arith
has-size m write h = ground arith

-- On valid events, as long as an event of any descriptor is registered, a round of idle() does not
-- end the loop but comes to epoll_wait.
pub registered_goes_on :
    (kernel : Kernel) (fuel : ℕ) (m : Manager) (i : Inputs) (fd : ℕ) (event : Event)
    → package.tiny_coroutine.IoManager.Valid.IsValid m.io
    → fd < m.io.size
    → has (m.io.contexts fd).events event ≡ true
    → (timeouts : List ℕ) × (result : Option (Result Manager)) × (idle_round kernel fuel m i
        ≡ waited timeouts result)
unfolding idle_round stopping
registered_goes_on kernel fuel m i fd event v lt h =
    goes_on (stopping m i.checked).1 (stopping m i.checked).0 _ _ (ground (arith, counted))
  where
    goes_on :
        (over : Bool) (x : Manager) (timeouts : List ℕ) (result : Option (Result Manager))
        → over ≡ false
        → (ts : List ℕ) × (r : Option (Result Manager)) × ((if over
              then ended x
              else waited timeouts result)
            ≡ waited ts r)
    goes_on over x timeouts result e = (timeouts, result, rw e refl)

    counted : 1 ≤ m.io.pending_event_cnt
    counted = omega (
      arith,
      v.pending,
      has-size (m.io.contexts fd).events event h,
      sum_below-ge (λ j. Mask.size (m.io.contexts j).events) m.io.size fd lt,
    )
