-- ===== src/Hook/Tests.antt =====
-- code/hook.cpp: a table with a socket, 3.
use tiny_coroutine.Base.{◌≡◌, ◌<◌, count, arith, refl, true, false, some, List, [], ◌∷◌}
use tiny_coroutine.FdManager.{
  Os, FdManager, create, get_timeout, init, init_ctx, store_new, get, has_nonblock,
}
use tiny_coroutine.Hook.{known, open_socket, set_fl, get_fl, fcntl, sleep_ms}
use tiny_coroutine.Hook.Io.{
  Outcome, finished, interrupted, again, Wake, timed_out, woken, calls, adds_timer, cancels_timer,
  adds_event, yields, value, error, eagain, etimedout, retry, do_io,
}
use tiny_coroutine.Hook.Flags.{sent_flags, fcntl_flags_roundtrip}
use tiny_coroutine.Hook.Waiting.{Waited, is_event, retry-Waited}
use tiny_coroutine.Hook.Marked.{IsWaitable, Reach, starts, gets, waits_unprepared}

abbrev os : Os
os = record { fstat = λ fd. some true; flags = λ fd. 2 }

abbrev with_socket : FdManager
with_socket = store_new os init 3

socket_known : open_socket os with_socket 3 ≡ some 0
unfolding open_socket known init init_ctx get
socket_known = refl

-- 4294968 seconds are 704 milliseconds.
long_sleep : sleep_ms 4294968 ≡ 704
long_sleep = refl

-- A call is interrupted, waits, and then succeeds, with a timeout of 50 ms.
abbrev script : List (Outcome × Wake)
script = (interrupted, woken) ∷ (again, woken) ∷ (finished 7, woken) ∷ []

run : retry 50 script ≡ (
  calls ∷ calls ∷ adds_timer 50 ∷ adds_event ∷ yields ∷ cancels_timer ∷ calls ∷ [],
  some (value 7),
)
unfolding retry
run = refl

run_timed_out :
    retry 50 ((again, timed_out) ∷ [])
    ≡ (calls ∷ adds_timer 50 ∷ adds_event ∷ yields ∷ cancels_timer ∷ [], some (error etimedout))
unfolding retry
run_timed_out = refl

fcntl_flags_roundtrip_example :
    let (m', call, _) = fcntl os with_socket 3 (set_fl 2) 0 in
    let sent = sent_flags (with_socket.heap 0) 2 in
    (call.arg ≡ some sent)
    × (has_nonblock sent ≡ (with_socket.heap 0).sys_nonblock)
    × ((fcntl os m' 3 get_fl sent).2 ≡ 2)
fcntl_flags_roundtrip_example = fcntl_flags_roundtrip os with_socket 3 0 2 0 socket_known

retry-Waited_example : Waited 50 script (retry 50 script)
retry-Waited_example = retry-Waited 50 script

-- A pipe 4, of which the table knows since it was asked for it, and a read() that waits.
abbrev pipe_os : Os
pipe_os = record { fstat = λ fd. some false; flags = λ fd. 0 }

abbrev with_pipe : FdManager
with_pipe = store_new pipe_os init 4

with_pipe-Reach : Reach with_pipe
unfolding init init_ctx get create
with_pipe-Reach = gets pipe_os 4 with_pipe (some 0) starts refl

abbrev pipe_script : List (Outcome × Wake)
pipe_script = (again, woken) ∷ (finished 7, woken) ∷ []

pipe_waits : 0 < count is_event (do_io true pipe_os with_pipe 4 20 pipe_script).0
unfolding do_io known get init init_ctx get_timeout retry
pipe_waits = omega arith

waits_unprepared_example : IsWaitable true pipe_os with_pipe 4
waits_unprepared_example = waits_unprepared true pipe_os 4 20 pipe_script with_pipe-Reach pipe_waits

-- On a socket the call that finds no data is the only one, and its error goes to the user.
socket_refused :
    do_io true os with_socket 3 20 ((again, woken) ∷ (finished 7, woken) ∷ [])
    ≡ (calls ∷ [], some (error eagain))
unfolding do_io known get init init_ctx
socket_refused = refl
