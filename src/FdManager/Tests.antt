-- ===== src/FdManager/Tests.antt =====
-- code/fd_manager.cpp: a system with a blocking socket 3, a file 4 and, beyond the table, a socket 200.
use tiny_coroutine.Base.{
  ◌≡◌, refl, true, false, none, some, if◌then◌else◌, ◌==◌, ◌||◌, pos, [], ◌∷◌,
}
use tiny_coroutine.Result.{done, Returns}
use tiny_coroutine.FdManager.{Os, FdManager, init_ctx, init, create, get, store_new}
use tiny_coroutine.FdManager.Valid.{IsValid, Got, init-IsValid, get-Got}

abbrev os : Os
os = record {
  fstat = λ fd. if fd == 3 || fd == 200 then some true else if fd == 4 then some false else none;
  flags = λ fd. if fd == 200 then 2050 else 2;
}

abbrev with_socket : FdManager
with_socket = store_new os init 3

-- The first get() with creation sets O_NONBLOCK on a blocking socket.
set_calls : with_socket.set_calls ≡ (3, 2050) ∷ []
unfolding init init_ctx
set_calls = refl

created : get os init (pos 3) true ≡ done (with_socket, some 0)
unfolding init init_ctx get create
created = refl

get-Got_example : Returns (Got os init 3 true) (get os init (pos 3) true)
get-Got_example = get-Got os init 3 true init-IsValid

with_socket-IsValid : IsValid with_socket
unfolding init init_ctx get create
with_socket-IsValid = (get-Got os init 3 true init-IsValid).valid
