-- ===== src/Hook/Init.antt =====
-- code/hook.cpp: the flag of a thread, and the lookup of the system's own functions.
use tiny_coroutine.Base.{ℕ, ◌≡◌, refl, Bool, true, false, Option, none, if◌then◌else◌}

-- The pointers of HOOK_FUN.
pub data OriginFun : Type 0 where
  sleep_f usleep_f nanosleep_f socket_f connect_f accept_f read_f : OriginFun
  readv_f recv_f recvfrom_f recvmsg_f write_f writev_f send_f : OriginFun
  sendto_f sendmsg_f close_f fcntl_f ioctl_f getsockopt_f setsockopt_f : OriginFun

-- is_inited, what the pointers hold, and t_hook_enable of a thread.
pub record HookState : Type 0 where
  pub is_inited : Bool
  pub pointers : OriginFun → Option ℕ
  pub enabled : Bool

abbrev pub before_init : HookState
before_init = record { is_inited = false; pointers = λ f. none; enabled = false }

-- hook_init, where `dlsym` answers a function or null.
unfoldable pub hook_init : (OriginFun → Option ℕ) → HookState → HookState
hook_init dlsym s = if s.is_inited then s else record s { is_inited = true; pointers = dlsym }

abbrev pub set_hook_enable : HookState → Bool → HookState
set_hook_enable s flag = record s { enabled = flag }

abbrev pub is_hook_enable : HookState → Bool
is_hook_enable s = s.enabled

-- The pointers are set by the first call of hook_init, with which every thread still has its hooks off,
-- and no later call changes anything.
pub hook_init_once :
    (dlsym later : OriginFun → Option ℕ)
    → let s = hook_init dlsym before_init in
      (s.pointers ≡ dlsym) × (is_hook_enable s ≡ false) × (hook_init later s ≡ s)
unfolding hook_init
hook_init_once dlsym later = (refl, refl, refl)
