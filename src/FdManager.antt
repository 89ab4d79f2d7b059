-- ===== src/FdManager.antt =====
-- code/fd_manager.h and code/fd_manager.cpp: what the library knows of a file descriptor.
--
-- An FdCtx is an entry of `heap` under its pointer, since a caller of get() keeps it beyond a del(); the
-- table holds pointers. What the system answers is the argument `os`; `set_calls` records the calls
-- fcntl_f(fd, F_SETFL, flags), newest first.
pub mod Valid
pub mod Laws
pub mod Tests
use tiny_coroutine.Base.{
  ℕ, suc, ◌+◌, ◌-◌, ◌*◌, ◌/◌, ◌%◌, ◌^◌, ◌≡◌, Bool, true, false, ◌&&◌, ◌||◌, not, Option, none, some,
  List, [], ◌∷◌, ltb, leb, ◌==◌, if◌then◌else◌, is_some, update, ℤ, pos, negsuc, to_size,
}
use tiny_coroutine.Result.{Result, done, abort}

-- SO_RCVTIMEO and SO_SNDTIMEO.
abbrev pub so_rcvtimeo : ℕ
so_rcvtimeo = 20

abbrev pub so_sndtimeo : ℕ
so_sndtimeo = 21

-- (uint64_t) - 1
abbrev pub no_timeout : ℕ
no_timeout = 2 ^ 64 - 1

-- flags & O_NONBLOCK, flags | O_NONBLOCK and flags & ~O_NONBLOCK; O_NONBLOCK is bit 11.
abbrev pub has_nonblock : ℕ → Bool
has_nonblock flags = flags / 2048 % 2 == 1

abbrev pub with_nonblock : ℕ → ℕ
with_nonblock flags = if has_nonblock flags then flags else flags + 2048

abbrev pub without_nonblock : ℕ → ℕ
without_nonblock flags = if has_nonblock flags then flags - 2048 else flags

-- The system's answers: fstat, `none` for -1 and otherwise S_ISSOCK of the mode, and F_GETFL.
pub record Os : Type 0 where
  pub fstat : ℕ → Option Bool
  pub flags : ℕ → ℕ

pub record FdCtx : Type 0 where
  pub is_init : Bool
  pub is_socket : Bool
  pub sys_nonblock : Bool
  pub user_nonblock : Bool
  pub is_closed : Bool
  pub fd : ℕ
  pub recv_timeout : ℕ
  pub send_timeout : ℕ

-- The members before init().
abbrev pub raw_ctx : ℕ → FdCtx
raw_ctx fd = record {
  is_init = false;
  is_socket = false;
  sys_nonblock = false;
  user_nonblock = false;
  is_closed = false;
  fd = fd;
  recv_timeout = no_timeout;
  send_timeout = no_timeout;
}

-- FdCtx::init: the object, and the flags that it sets on the descriptor if it sets any.
unfoldable pub init_ctx : Os → FdCtx → FdCtx × Option ℕ
init_ctx os c =
    if c.is_init
    then (c, none)
    else let socket = elim (os.fstat c.fd) as (λ _. Bool) [ none ↦ false | some b ↦ b ] in
      let flags = os.flags c.fd in
      (
        record c { is_init = is_some (os.fstat c.fd); is_socket = socket; sys_nonblock = socket },
        if socket && not (has_nonblock flags) then some (with_nonblock flags) else none,
      )

-- FdCtx::setTimeout and FdCtx::getTimeout.
unfoldable pub set_timeout : FdCtx → ℕ → ℕ → FdCtx
set_timeout c type v =
    if type == so_rcvtimeo then record c { recv_timeout = v } else record c { send_timeout = v }

unfoldable pub get_timeout : FdCtx → ℕ → ℕ
get_timeout c type = if type == so_rcvtimeo then c.recv_timeout else c.send_timeout

-- setUserNonblock.
abbrev pub set_user_nonblock : FdCtx → Bool → FdCtx
set_user_nonblock c v = record c { user_nonblock = v }

pub record FdManager : Type 0 where
  pub datas : ℕ → Option ℕ
  pub size : ℕ
  pub heap : ℕ → FdCtx
  pub fresh : ℕ
  pub set_calls : List (ℕ × ℕ)

-- FdManager::FdManager.
unfoldable pub init : FdManager
init = record { datas = λ _. none; size = 64; heap = raw_ctx; fresh = 0; set_calls = [] }

-- The table as resize(size) makes it.
abbrev pub resized : FdManager → ℕ → FdManager
resized m size = record m {
  datas = λ i. if ltb i m.size && ltb i size then m.datas i else none;
  size = size;
}

abbrev pub log_call : ℕ → Option ℕ → List (ℕ × ℕ) → List (ℕ × ℕ)
log_call fd none calls = calls
log_call fd (some flags) calls = (fd, flags) ∷ calls

-- m_datas[fd] = std::make_shared<FdCtx>(fd)
abbrev pub store_new : Os → FdManager → ℕ → FdManager
store_new os m fd =
    let (c, flags) = init_ctx os (raw_ctx fd) in
    record m {
      datas = update m.datas fd (some m.fresh);
      heap = update m.heap m.fresh c;
      fresh = suc m.fresh;
      set_calls = log_call fd flags m.set_calls;
    }

-- The part of get() under the write lock. A table cannot be made longer by a negative number, nor
-- written past its end.
unfoldable pub create : Os → FdManager → ℤ → Result (FdManager × Option ℕ)
unfolding init_ctx
create os m (negsuc n) = abort
create os m (pos fd) =
    let m' = if leb m.size fd then resized m (fd * 3 / 2) else m in
    if ltb fd m'.size then done (store_new os m' fd, some m.fresh) else abort

-- FdManager::get; `none` is nullptr.
unfoldable pub get : Os → FdManager → ℤ → Bool → Result (FdManager × Option ℕ)
unfolding create
get os m (negsuc n) auto_create =
    if n == 0
    then done (m, none)
    else if auto_create
    then create os m (negsuc n)
    else done (m, none)
get os m (pos fd) auto_create =
    if leb m.size fd
    then (if auto_create then create os m (pos fd) else done (m, none))
    else if is_some (m.datas fd) || not auto_create
    then done (m, m.datas fd)
    else create os m (pos fd)

-- FdManager::del.
unfoldable pub del : FdManager → ℤ → FdManager
del m fd =
    if leb m.size (to_size fd) then m else record m { datas = update m.datas (to_size fd) none }

-- Singleton<FdManager>, on its `instance`: GetInstance makes the table at its first call, and
-- DestroyInstance gives it up.
abbrev pub get_instance : Option FdManager → FdManager
get_instance none = init
get_instance (some m) = m

abbrev pub destroy_instance : Option FdManager → Option FdManager
destroy_instance m = none
