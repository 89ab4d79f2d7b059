-- ===== src/Server/Tests.antt =====
-- Runs of code/main.cpp on small inputs, and its theorems at inputs that meet their hypotheses.
use tiny_coroutine.Base.{◌≡◌, refl, true, false, none, some, List, [], ◌∷◌}
use tiny_coroutine.Callback.{read}
use tiny_coroutine.Result.{Result, done, abort, Returns}
use tiny_coroutine.FdManager
use tiny_coroutine.FdManager.{Os}
use tiny_coroutine.Scheduler.{Scheduler}
use tiny_coroutine.IoManager
use tiny_coroutine.IoManager.{IoManager, Kernel, Caller, add_event}
use tiny_coroutine.IoManager.History.{adds, exec, starts, calls, Reach-refines}
use tiny_coroutine.Timer
use tiny_coroutine.Idle.{Manager, Inputs}
use tiny_coroutine.Idle.Lifecycle.{Setup}
use tiny_coroutine.Server.{
  Server, test_accept, Received, bytes, again, receives, sends, closes, connection, Listening,
  test_iomanager, accept_function,
}
use tiny_coroutine.Server.Laws.{Listens, accepts_again, server_opens}

abbrev quiet : Scheduler
quiet = record {
  tasks = [];
  thread_cnt = 8;
  threads = 8;
  active_thread_cnt = 1;
  idle_thread_cnt = 7;
  use_caller = true;
  root_thread = some 1;
  stopping = false;
  pipe = 0;
}

-- A kernel that takes every request.
abbrev willing : Kernel
willing log r = true

abbrev thread : Caller
thread = record { scheduler = some 0; fiber = 5; is_running = true }

abbrev os : Os
os = record { fstat = λ fd. some true; flags = λ fd. 2 }

-- Every call succeeds, and the listening socket is 3.
abbrev listening : Listening
listening = record { sock = some 3; bound = true; heard = true }

abbrev setup : Setup
setup = record { epfd = some 4; piped = true; nonblocking = true; added = true }

server_opens_example :
    (m : Manager) × (test_iomanager listening setup willing (λ _. quiet) 0 1 thread 0
      ≡ some (done m))
    × Listens m.io 3 thread accept_function
server_opens_example =
    server_opens listening setup willing (λ _. quiet) 0 1 thread 0 3 refl (refl, refl) refl
      (refl, refl, refl) refl (λ log r e. refl)

abbrev at_start : Server
at_start = record { io = IoManager.init (λ _. quiet); table = FdManager.init }

accepts_again_example :
    Returns
      (λ s'. Listens s'.io 3 thread accept_function)
      (test_accept willing os 3 at_start thread (some 7))
unfolding IoManager.init FdManager.init
accepts_again_example =
    accepts_again willing os 3 at_start thread (some 7)
      (package.tiny_coroutine.IoManager.Valid.init-IsValid (λ _. quiet))
      package.tiny_coroutine.FdManager.Valid.init-IsValid refl refl (λ e. cc) (λ log r e. refl)

-- The connection has nothing to read at first.
abbrev script : List Received
script = again ∷ again ∷ bytes 78 ∷ []

connection_run : connection script ≡ (receives ∷ receives ∷ receives ∷ sends ∷ closes ∷ [], true)
unfolding connection
connection_run = refl

-- A manager that waits for descriptor 3 does not let its threads end.
abbrev state_of : Result IoManager → IoManager
state_of (done m) = m
state_of abort = IoManager.init (λ _. quiet)

abbrev waiting : IoManager
waiting = state_of (exec willing (IoManager.init (λ _. quiet)) (adds 3 read thread none))

waiting-IsValid : package.tiny_coroutine.IoManager.Valid.IsValid waiting
unfolding IoManager.init add_event exec
waiting-IsValid =
    (Reach-refines {kernel = willing} {schedulers = λ _. quiet}
      (calls (adds 3 read thread none) starts (refl, refl, refl) refl)).0

abbrev manager : Manager
manager = record { io = waiting; timers = Timer.init 0; self = 0 }

abbrev inputs : Inputs
inputs = record {
  checked = 1;
  interrupted = [];
  waiting = 2;
  expiring = 3;
  detected = 3;
  ready = [];
}
