-- ===== src/Hook.antt =====
-- code/hook.cpp: the system calls that the library replaces.
--
-- An int is its 32-bit pattern, so that -1 is 2 ^ 32 - 1. What the system answers to a call is an
-- argument; the calls that are made, and the actions around them, are results. `enabled` is
-- t_hook_enable. Descriptors are not negative.
pub mod Init
pub mod Io
pub mod Flags
pub mod Waiting
pub mod Marked
pub mod Wait
pub mod Timeout
pub mod Started
pub mod Runs
pub mod Tests
use tiny_coroutine.Base.{
  ℕ, zero, suc, ◌+◌, ◌*◌, ◌/◌, ◌%◌, ◌^◌, ◌≡◌, Bool, true, false, ◌&&◌, ◌||◌, not, Option, none,
  some, List, [], ◌∷◌, ◌++◌, ◌-◌, ◌==◌, if◌then◌else◌, is_some, update, pos,
}
use tiny_coroutine.Callback.{Callback, Event, wake}
use tiny_coroutine.Result.{Result, done, abort, ◌>>=◌}
use tiny_coroutine.FdManager.{
  Os, FdCtx, FdManager, get, del, has_nonblock, with_nonblock, without_nonblock, set_user_nonblock,
  set_timeout, get_timeout, so_rcvtimeo, so_sndtimeo, no_timeout,
}
use tiny_coroutine.IoManager.{IoManager, Kernel, cancel_all}
use tiny_coroutine.Idle.{Manager, add_manager_timer}

-- FdMgr::GetInstance()->get(fd), as a pointer.
abbrev pub pointer : Result (FdManager × Option ℕ) → Option ℕ
pointer (done r) = r.1
pointer abort = none

unfoldable pub known : Os → FdManager → ℕ → Option ℕ
unfolding get
known os m fd = pointer (get os m (pos fd) false)

-- The object of a descriptor that passes `!ctx || ctx->isClosed() || !ctx->isSocket()` by.
abbrev pub if_socket : FdManager → Option ℕ → Option ℕ
if_socket m none = none
if_socket m (some p) = if (m.heap p).is_closed || not (m.heap p).is_socket then none else some p

unfoldable pub open_socket : Os → FdManager → ℕ → Option ℕ
unfolding known
open_socket os m fd = if_socket m (known os m fd)

abbrev pub write_ctx : FdManager → ℕ → FdCtx → FdManager
write_ctx m p c = record m { heap = update m.heap p c }

-- The commands of fcntl, by the cases of its switch: F_SETFL, F_GETFL, those with an int, those with
-- none, those with a pointer, and all others, which lose their argument.
pub data Command : Type 0 where
  set_fl : ℕ → Command
  get_fl : Command
  int_command : ℕ → ℕ → Command
  void_command : ℕ → Command
  pointer_command : ℕ → ℕ → Command
  other_command : ℕ → ℕ → Command

-- fcntl_f(fd, cmd, arg) or fcntl_f(fd, cmd).
pub record FcntlCall : Type 0 where
  pub fd : ℕ
  pub cmd : ℕ
  pub arg : Option ℕ

abbrev pub f_getfl : ℕ
f_getfl = 3

abbrev pub f_setfl : ℕ
f_setfl = 4

-- fcntl: the table, the call that is made, and the value returned where the call answers `answer`.
unfoldable pub fcntl : Os → FdManager → ℕ → Command → ℕ → FdManager × FcntlCall × ℕ
unfolding open_socket
fcntl os m fd (set_fl arg) answer = elim (open_socket os m fd) [
  | none ↦ (m, record { fd = fd; cmd = f_setfl; arg = some arg }, answer)
  | some p ↦
      let m' = write_ctx m p (set_user_nonblock (m.heap p) (has_nonblock arg)) in
      let arg' = if (m.heap p).sys_nonblock then with_nonblock arg else without_nonblock arg in
      (m', record { fd = fd; cmd = f_setfl; arg = some arg' }, answer)
]
fcntl os m fd get_fl answer =
    let call : FcntlCall = record { fd = fd; cmd = f_getfl; arg = none } in
    elim (open_socket os m fd) [
      | none ↦ (m, call, answer)
      | some p ↦ (
        m,
        call,
        if (m.heap p).user_nonblock then with_nonblock answer else without_nonblock answer,
      )
    ]
fcntl os m fd (int_command cmd arg) answer =
    (m, record { fd = fd; cmd = cmd; arg = some arg }, answer)
fcntl os m fd (void_command cmd) answer = (m, record { fd = fd; cmd = cmd; arg = none }, answer)
fcntl os m fd (pointer_command cmd arg) answer =
    (m, record { fd = fd; cmd = cmd; arg = some arg }, answer)
fcntl os m fd (other_command cmd arg) answer =
    (m, record { fd = fd; cmd = cmd; arg = none }, answer)

-- FIONBIO
abbrev pub fionbio : ℕ
fionbio = 21537

-- ioctl: the table; the call ioctl_f(fd, request, arg) is made in any case. `value` is *(int*)arg.
unfoldable pub ioctl : Os → FdManager → ℕ → ℕ → ℕ → FdManager
unfolding open_socket
ioctl os m fd request value =
    if request == fionbio
    then (elim (open_socket os m fd) [
      | none ↦ m
      | some p ↦ write_ctx m p (set_user_nonblock (m.heap p) (not (value == 0)))
    ])
    else m

-- SOL_SOCKET
abbrev pub sol_socket : ℕ
sol_socket = 1

-- setsockopt: the table; the call of setsockopt_f is made in any case.
unfoldable pub setsockopt : Bool → Os → FdManager → ℕ → ℕ → ℕ → ℕ → ℕ → FdManager
unfolding set_timeout known
setsockopt enabled os m fd level optname tv_sec tv_usec =
    if enabled && level == sol_socket && (optname == so_rcvtimeo || optname == so_sndtimeo)
    then (elim (known os m fd) [
      | none ↦ m
      | some p ↦
          write_ctx m p (set_timeout (m.heap p) optname ((tv_sec * 1000 + tv_usec / 1000) % 2 ^ 64))
    ])
    else m

-- socket, where socket_f answers the descriptor `fd`, or -1 for `none`.
unfoldable pub socket : Bool → Os → FdManager → Option ℕ → Result FdManager
unfolding get
socket enabled os m none = done m
socket enabled os m (some fd) =
    if enabled then (get os m (pos fd) true >>= λ r. done (r.0)) else done m

-- close up to close_f(fd), where `iom` is IOManager::GetThis().
unfoldable pub close :
    Bool → Kernel → Os → Option IoManager → FdManager → ℕ → Result (Option IoManager × FdManager)
unfolding cancel_all del known
close enabled kernel os iom m fd =
    if enabled && is_some (known os m fd)
    then (elim iom [
      | none ↦ done (none, del m (pos fd))
      | some io ↦ cancel_all kernel io fd >>= λ r. done (some (r.0), del m (pos fd))
    ])
    else done (iom, m)

-- sleep, usleep and nanosleep of a fiber up to its yield(): the timer's period, and the timer.
abbrev pub sleep_ms : ℕ → ℕ
sleep_ms seconds = seconds * 1000 % 2 ^ 32

abbrev pub usleep_ms : ℕ → ℕ
usleep_ms usec = usec / 1000

-- An int that becomes a uint64_t: a negative one gets the upper bits.
abbrev pub nanosleep_ms : ℕ → ℕ → ℕ
nanosleep_ms tv_sec tv_nsec =
    let timeout_ms = (tv_sec * 1000 + tv_nsec / 1000 / 1000) % 2 ^ 32 in
    if timeout_ms / 2 ^ 31 == 0 then timeout_ms else timeout_ms + (2 ^ 64 - 2 ^ 32)

unfoldable pub sleep_for : Manager → ℕ → ℕ → ℕ → Manager × ℕ
unfolding add_manager_timer
sleep_for m fiber ms now = add_manager_timer m ms (some (wake fiber)) false now
