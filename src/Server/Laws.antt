-- ===== src/Server/Laws.antt =====
-- code/main.cpp: the server goes on listening, and answers each connection once.
use tiny_coroutine.Base.{
  ℕ, ◌≡◌, ◌≢◌, refl, ap, Bool, true, false, Option, none, some, List, [], ◌∷◌, arith, ◌==◌,
  if◌then◌else◌, is_some, count, pos, Bool-cases, inl, inr,
}
use tiny_coroutine.Callback.{Callback, read}
use tiny_coroutine.Result.{done, Returns, Returns-map, Returns-bind, returned}
use tiny_coroutine.FdManager.{Os, FdManager, get}
use tiny_coroutine.FdManager.Valid.{Got, get-Got}
use tiny_coroutine.Scheduler.{Scheduler}
use tiny_coroutine.IoManager.{
  IoManager, Kernel, Caller, Request, ask, addition, filled_context, add_event,
}
use tiny_coroutine.IoManager.Mask.{has}
use tiny_coroutine.IoManager.Context.{FdContext}
use tiny_coroutine.IoManager.Slots.{slot}
use tiny_coroutine.IoManager.Events.{Added, accepts, registered_context, add_event-Added}
use tiny_coroutine.Idle.{Manager}
use tiny_coroutine.Idle.Lifecycle.{Setup, is_positive, new_manager, new_manager-IsFresh}
use tiny_coroutine.Hook.{fcntl, set_fl}
use tiny_coroutine.Hook.Io.{value, accepted}
use tiny_coroutine.Server.{
  Server, accept_function, connection_function, o_nonblock, listen_on, take_connection, test_accept,
  Received, bytes, end_of_file, again, failed, Action, sends, closes, connection, Listening,
  test_iomanager,
}

-- The function `f` waits for a descriptor to be readable, on the scheduler of the caller.
pub record Listens (m : IoManager) (fd : ℕ) (caller : Caller) (f : Callback) : Type 0 where
  pub valid : package.tiny_coroutine.IoManager.Valid.IsValid m
  pub registered : has (m.contexts fd).events read ≡ true
  pub entry :
      slot (m.contexts fd) read ≡ record { scheduler = caller.scheduler; fiber = none; cb = some f }

listen_on-Returns :
    (kernel : Kernel) (s : Server) (fd : ℕ) (caller : Caller) (f : Callback)
    → package.tiny_coroutine.IoManager.Valid.IsValid s.io
    → is_some caller.scheduler ≡ true
    → Returns
        (λ s'.
          Added s.io fd read caller
            (some f)
            (accepts kernel s.io fd read caller (some f))
            (s'.io, accepts kernel s.io fd read caller (some f)))
        (listen_on kernel s fd caller f)
listen_on-Returns kernel s fd caller f v on =
    Returns-bind _ _ (add_event kernel s.io fd read caller (some f)) _
      (add_event-Added kernel s.io fd read caller (some f) v refl (on, refl))
      λ r a. record {
        valid = a.valid;
        answer = refl;
        contexts = a.contexts;
        pending = a.pending;
        schedulers = a.schedulers;
      }

Added-Listens :
    (m m' : IoManager) (fd : ℕ) (caller : Caller) (f : Callback) (b : Bool)
    → Added m fd read caller (some f) true (m', b)
    → Listens m' fd caller f
Added-Listens m m' fd caller f b a =
    let here : m'.contexts fd ≡ registered_context (m.contexts fd) read caller (some f) =
      ground (arith, a.contexts fd) in
    record {
      valid = a.valid;
      registered = ap (λ (x : FdContext). has x.events read) here;
      entry = ap (λ (x : FdContext). slot x read) here;
    }

accepted-Returns :
    (os : Os) (table : FdManager) (fd : ℕ)
    → package.tiny_coroutine.FdManager.Valid.IsValid table
    → Returns (λ t. Unit {0}) (accepted os table (value fd))
unfolding accepted
accepted-Returns os table fd v = elim (Bool-cases (fd == 0)) [
  | inl e ↦ rw e tt
  | inr e ↦
      rw e (Returns-bind _ _ (get os table (pos fd) true) _ (get-Got os table fd true v) λ r g. tt)
]

-- The state between the connection and the listening socket `l`.
abbrev IsFree : ℕ → Server → Type 0
IsFree l s =
    package.tiny_coroutine.IoManager.Valid.IsValid s.io
    × (has (s.io.contexts l).events read ≡ false)

take_connection-Returns :
    (kernel : Kernel) (os : Os) (l : ℕ) (s : Server) (caller : Caller) (answer : Option ℕ)
    → IsFree l s
    → package.tiny_coroutine.FdManager.Valid.IsValid s.table
    → is_some caller.scheduler ≡ true
    → answer ≢ some l
    → Returns (IsFree l) (take_connection kernel os s caller answer)
take_connection-Returns kernel os l s caller none free tv on ne = free
take_connection-Returns kernel os l s caller (some fd) (v, free) tv on ne =
    Returns-bind _ _ (accepted os s.table (value fd)) _ (accepted-Returns os s.table fd tv)
      λ table _.
        Returns-map
          (listen_on kernel (record s { table = (fcntl os table fd (set_fl o_nonblock) 0).0 }) fd
            caller (connection_function fd))
          (λ s' a. (a.valid, ground (arith, a.contexts l, free, apart)))
          (listen_on-Returns kernel
            (record s { table = (fcntl os table fd (set_fl o_nonblock) 0).0 }) fd caller
            (connection_function fd) v on)
  where
    apart : fd ≢ l
    apart e = ne (ap some e)

-- On valid events and a valid table, on a thread with a scheduler, where the listening socket is not
-- registered for reading, accept() does not answer that socket, and epoll_ctl takes what is asked
-- for it: test_accept returns, and the socket is registered for reading again, with test_accept,
-- whether or not a connection came and could be registered.
pub accepts_again :
    (kernel : Kernel) (os : Os) (l : ℕ) (s : Server) (caller : Caller) (answer : Option ℕ)
    → package.tiny_coroutine.IoManager.Valid.IsValid s.io
    → package.tiny_coroutine.FdManager.Valid.IsValid s.table
    → has (s.io.contexts l).events read ≡ false
    → is_some caller.scheduler ≡ true
    → answer ≢ some l
    → ((log : List (Request × Bool)) (r : Request) → r.fd ≡ l → kernel log r ≡ true)
    → Returns
        (λ s'. Listens s'.io l caller accept_function)
        (test_accept kernel os l s caller answer)
unfolding test_accept
accepts_again kernel os l s caller answer v tv free on ne willing =
    Returns-bind _ _ (take_connection kernel os s caller answer) _
      (take_connection-Returns kernel os l s caller answer (v, free) tv on ne)
      λ s1 (v1, free1).
        let passes : accepts kernel s1.io l read caller (some accept_function) ≡ true =
          ground (arith, free1, willing s1.io.requests (addition (s1.io.contexts l) l read) refl) in
        Returns-map (listen_on kernel s1 l caller accept_function)
          (λ s2 a. Added-Listens s1.io s2.io l caller accept_function true (rw passes at a))
          (listen_on-Returns kernel s1 l caller accept_function v1 on)

abbrev pub is_again : Received → Bool
is_again again = true
is_again _ = false

abbrev pub is_bytes : Received → Bool
is_bytes (bytes n) = true
is_bytes _ = false

abbrev pub is_closing : Action → Bool
is_closing closes = true
is_closing _ = false

abbrev pub is_sending : Action → Bool
is_sending sends = true
is_sending _ = false

-- The first outcome that is not EAGAIN.
abbrev pub first_other : List Received → Option Received
first_other [] = none
first_other (r ∷ rs) = let rest = first_other rs in if is_again r then rest else some r

abbrev pub is_answer : Option Received → Bool
is_answer none = false
is_answer (some r) = is_bytes r

-- The function of a connection ends with the first outcome of recv() that is not EAGAIN. It closes
-- the connection once then, and not before, and sends its answer once exactly if that outcome is
-- bytes.
pub connection_once :
    (rs : List Received)
    → let (actions, ends) = connection rs in
      (ends ≡ is_some (first_other rs))
      × (count is_closing actions ≡ (if ends then 1 else 0))
      × (count is_sending actions ≡ (if is_answer (first_other rs) then 1 else 0))
unfolding connection
connection_once [] = (refl, refl, refl)
connection_once (bytes n ∷ rs) = (refl, refl, refl)
connection_once (end_of_file ∷ rs) = (refl, refl, refl)
connection_once (failed e ∷ rs) = (refl, refl, refl)
connection_once (again ∷ rs) = ground (arith, connection_once rs)

-- Where the socket is made, bound and heard on, the calls of the constructor succeed, epoll_ctl
-- takes what is asked for the socket, and the thread has a scheduler: test_iomanager comes to the
-- end of its scope without a failed assertion, and the socket is then registered for reading with
-- test_accept, on valid events.
pub server_opens :
    (l : Listening) (a : Setup) (kernel : Kernel) (schedulers : ℕ → Scheduler) (self caller : ℕ)
    (thread : Caller) (now fd : ℕ)
    → l.sock ≡ some fd
    → (l.bound ≡ true) × (l.heard ≡ true)
    → is_positive a.epfd ≡ true
    → (a.piped ≡ true) × (a.nonblocking ≡ true) × (a.added ≡ true)
    → is_some thread.scheduler ≡ true
    → ((log : List (Request × Bool)) (r : Request) → r.fd ≡ fd → kernel log r ≡ true)
    → (m : Manager) × (test_iomanager l a kernel schedulers self caller thread now ≡ some (done m))
      × Listens m.io fd thread accept_function
unfolding test_iomanager
server_opens l a kernel schedulers self caller thread now fd sock (bound, heard) e answers on
      willing =
    let (m0, run, fresh) =
      returned _ (new_manager a schedulers self 9 true caller none now)
        (new_manager-IsFresh a schedulers self 8 true caller now now e answers) in
    let passes : accepts kernel m0.io fd read thread (some accept_function) ≡ true = ground (
      arith,
      fresh.events fd read,
      willing m0.io.requests (addition (m0.io.contexts fd) fd read) refl,
    ) in
    let (r, run', added) =
      returned (Added m0.io fd read thread (some accept_function) true)
        (add_event kernel m0.io fd read thread (some accept_function))
        (rw (← passes) (
          add_event-Added kernel m0.io fd read thread (some accept_function) fresh.valid refl
            (on, refl))) in
    (
      record m0 { io = r.0 },
      rw (sock, bound, heard, run, run') refl,
      Added-Listens m0.io r.0 fd thread accept_function r.1 added,
    )
