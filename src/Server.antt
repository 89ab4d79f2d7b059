-- ===== src/Server.antt =====
-- code/main.cpp: the HTTP server that the library comes with.
--
-- The functions that it registers are named by numbers: 0 is test_accept, and the descriptor plus one is
-- the function for a connection. What the calls of the system answer is given; they go through
-- code/hook.cpp, which leaves sockets to the system.
pub mod Laws
pub mod Tests
use tiny_coroutine.Base.{
  ℕ, suc, ◌+◌, ◌≡◌, Bool, true, false, ◌&&◌, Option, none, some, List, [], ◌∷◌, ◌==◌, if◌then◌else◌,
}
use tiny_coroutine.Callback.{Callback, user, read}
use tiny_coroutine.Result.{Result, done, abort, ◌>>=◌}
use tiny_coroutine.FdManager.{Os, FdManager}
use tiny_coroutine.Scheduler.{Scheduler}
use tiny_coroutine.IoManager.{IoManager, Kernel, Caller, add_event}
use tiny_coroutine.Idle.{Manager}
use tiny_coroutine.Idle.Lifecycle.{Setup, new_manager}
use tiny_coroutine.Hook.{set_fl, fcntl}
use tiny_coroutine.Hook.Io.{Answer, value, error, accepted}

-- The I/O manager and the table of descriptors, as the functions of the server find them.
pub record Server : Type 0 where
  pub io : IoManager
  pub table : FdManager

abbrev pub accept_function : Callback
accept_function = user 0

abbrev pub connection_function : ℕ → Callback
connection_function fd = user (suc fd)

-- O_NONBLOCK
abbrev pub o_nonblock : ℕ
o_nonblock = 2048

-- IOManager::GetThis()->addEvent(fd, READ, f), whose answer is dropped.
abbrev pub listen_on : Kernel → Server → ℕ → Caller → Callback → Result Server
listen_on kernel s fd caller f = do
  r ← add_event kernel s.io fd read caller (some f)
  done (record s { io = r.0 })

-- A connection, behind accept(): the fcntl and the addEvent for it.
abbrev pub take_connection : Kernel → Os → Server → Caller → Option ℕ → Result Server
take_connection kernel os s caller none = done s
take_connection kernel os s caller (some fd) = do
  table ← accepted os s.table (value fd)
  listen_on kernel (record s { table = (fcntl os table fd (set_fl o_nonblock) 0).0 }) fd caller
      (connection_function fd)

-- test_accept, where accept() answers a descriptor, or -1 for `none`.
unfoldable pub test_accept : Kernel → Os → ℕ → Server → Caller → Option ℕ → Result Server
unfolding fcntl accepted
test_accept kernel os sock_listen_fd s caller answer = do
  s' ← take_connection kernel os s caller answer
  listen_on kernel s' sock_listen_fd caller accept_function

-- What recv() comes to in the function of a connection: bytes, the end, EAGAIN or another error.
pub data Received : Type 0 where
  bytes : ℕ → Received
  end_of_file : Received
  again : Received
  failed : ℕ → Received

pub data Action : Type 0 where
  receives : Action
  sends : Action
  closes : Action

-- The function of a connection, for the outcomes of recv(): what it does, and whether it ends.
unfoldable pub connection : List Received → List Action × Bool
connection [] = ([], false)
connection (r ∷ rs) =
    let rest = connection rs in
    elim r [
      | bytes n ↦ (receives ∷ sends ∷ closes ∷ [], true)
      | end_of_file ↦ (receives ∷ closes ∷ [], true)
      | again ↦ (receives ∷ rest.0, rest.1)
      | failed e ↦ (receives ∷ closes ∷ [], true)
    ]

-- What the calls of test_iomanager answer: the socket, and whether bind and listen succeed.
pub record Listening : Type 0 where
  pub sock : Option ℕ
  pub bound : Bool
  pub heard : Bool

-- The end of test_iomanager: a manager of nine threads, and the event of the listening socket.
abbrev pub open_server : Setup → Kernel → (ℕ → Scheduler) → ℕ → ℕ → Caller → ℕ → ℕ → Result Manager
open_server a kernel schedulers self caller thread now fd = do
  iom ← new_manager a schedulers self 9 true caller none now
  r ← add_event kernel iom.io fd read thread (some accept_function)
  done (record iom { io = r.0 })

-- test_iomanager up to the end of its scope, on the thread `caller`; `none` where it exits. Hooks are not
-- enabled on that thread.
unfoldable pub test_iomanager :
    Listening → Setup → Kernel → (ℕ → Scheduler) → ℕ → ℕ → Caller → ℕ → Option (Result Manager)
unfolding new_manager
test_iomanager l a kernel schedulers self caller thread now = elim l.sock [
  | none ↦ none
  | some fd ↦
      if l.bound && l.heard
      then some (open_server a kernel schedulers self caller thread now fd)
      else none
]
