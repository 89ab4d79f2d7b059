-- ===== src/Hook/Marked.antt =====
-- code/hook.cpp and code/fd_manager.cpp: which descriptors do_io waits for, and which of them the library has
-- made non-blocking.
use tiny_coroutine.Base.{
  ℕ, ◌<◌, ◌≡◌, refl, Bool, true, false, ◌||◌, Option, none, some, List, [], ◌∷◌, arith, count, pos,
  Bool-cases, Option-cases, inl, inr, subst, ◌==◌, ◌∙◌,
}
use tiny_coroutine.Result.{Result, done, abort, ◌>>=◌}
use tiny_coroutine.IoManager.{IoManager, Kernel}
use tiny_coroutine.FdManager.{Os, FdManager, init, get, del, create, init_ctx}
use tiny_coroutine.Hook.{Command, known, fcntl, ioctl, setsockopt, socket, close}
use tiny_coroutine.Hook.Io.{
  Outcome, Wake, Answer, value, error, kept_errno, accepted, direct, do_io,
}
use tiny_coroutine.Hook.Waiting.{is_event}

-- The tables that the calls of the library make of an empty one. The system may answer otherwise at each.
pub data Reach : FdManager → Type 0 where
  starts : Reach init
  opens :
      {m : FdManager} (enabled : Bool) (os : Os) (fd : Option ℕ) (m' : FdManager)
      → Reach m
      → socket enabled os m fd ≡ done m'
      → Reach m'
  accepts :
      {m : FdManager} (os : Os) (a : Answer) (m' : FdManager)
      → Reach m
      → accepted os m a ≡ done m'
      → Reach m'
  controls :
      {m : FdManager} (os : Os) (fd : ℕ) (c : Command) (answer : ℕ)
      → Reach m
      → Reach (fcntl os m fd c answer).0
  sets_mode :
      {m : FdManager} (os : Os) (fd request setting : ℕ)
      → Reach m
      → Reach (ioctl os m fd request setting)
  sets_option :
      {m : FdManager} (enabled : Bool) (os : Os) (fd level optname tv_sec tv_usec : ℕ)
      → Reach m
      → Reach (setsockopt enabled os m fd level optname tv_sec tv_usec)
  closes :
      {m : FdManager} (enabled : Bool) (kernel : Kernel) (os : Os) (iom iom' : Option IoManager)
      (fd : ℕ) (m' : FdManager)
      → Reach m
      → close enabled kernel os iom m fd ≡ done (iom', m')
      → Reach m'
  -- FdMgr::GetInstance()->get(fd, true)
  gets :
      {m : FdManager} (os : Os) (fd : ℕ) (m' : FdManager) (o : Option ℕ)
      → Reach m
      → get os m (pos fd) true ≡ done (m', o)
      → Reach m'

-- The library has made a descriptor non-blocking exactly if it is a socket.
abbrev pub IsMarked : FdManager → Type 0
IsMarked m = (p : ℕ) → (m.heap p).sys_nonblock ≡ (m.heap p).is_socket

get-IsMarked :
    (os : Os) (m : FdManager) (fd : ℕ) (m' : FdManager) (o : Option ℕ)
    → IsMarked m
    → get os m (pos fd) true ≡ done (m', o)
    → IsMarked m'
unfolding get create init_ctx
get-IsMarked os m fd m' o v e p = ground (arith, v p, e)

done_injective {ℓ} : {A : Type ℓ} {a b : A} → done a ≡ done b → a ≡ b
done_injective e = cc

-- What get() makes, behind its pointer.
made-IsMarked :
    (os : Os) (m : FdManager) (fd : ℕ) (m' : FdManager)
    → IsMarked m
    → (get os m (pos fd) true >>= λ r. done (r.0)) ≡ done m'
    → IsMarked m'
made-IsMarked os m fd m' v = behind (get os m (pos fd) true) (λ n o. get-IsMarked os m fd n o v)
  where
    behind :
        (r : Result (FdManager × Option ℕ))
        → ((n : FdManager) (o : Option ℕ) → r ≡ done (n, o) → IsMarked n)
        → (r >>= λ x. done (x.0)) ≡ done m'
        → IsMarked m'
    behind (done (n, o)) k e = subst IsMarked (done_injective e) (k n o refl)
    behind abort k e = cc

socket-IsMarked :
    (enabled : Bool) (os : Os) (m : FdManager) (fd : Option ℕ) (m' : FdManager)
    → IsMarked m
    → socket enabled os m fd ≡ done m'
    → IsMarked m'
unfolding socket
socket-IsMarked enabled os m none m' v e = subst IsMarked (done_injective e) v
socket-IsMarked true os m (some fd) m' v e = made-IsMarked os m fd m' v e
socket-IsMarked false os m (some fd) m' v e = subst IsMarked (done_injective e) v

accepted-IsMarked :
    (os : Os) (m : FdManager) (a : Answer) (m' : FdManager)
    → IsMarked m
    → accepted os m a ≡ done m'
    → IsMarked m'
unfolding accepted
accepted-IsMarked os m (value fd) m' v e = elim (Bool-cases (fd == 0)) [
  | inl z ↦ subst IsMarked (done_injective (rw z at e)) v
  | inr z ↦ made-IsMarked os m fd m' v (rw z at e)
]
accepted-IsMarked os m (error n) m' v e = subst IsMarked (done_injective e) v
accepted-IsMarked os m kept_errno m' v e = subst IsMarked (done_injective e) v

fcntl-IsMarked :
    (os : Os) (m : FdManager) (fd : ℕ) (c : Command) (answer : ℕ)
    → IsMarked m
    → IsMarked (fcntl os m fd c answer).0
unfolding fcntl
fcntl-IsMarked os m fd c answer v p = ground (arith, v p)

ioctl-IsMarked :
    (os : Os) (m : FdManager) (fd request setting : ℕ)
    → IsMarked m
    → IsMarked (ioctl os m fd request setting)
unfolding ioctl
ioctl-IsMarked os m fd request setting v p = ground (arith, v p)

setsockopt-IsMarked :
    (enabled : Bool) (os : Os) (m : FdManager) (fd level optname tv_sec tv_usec : ℕ)
    → IsMarked m
    → IsMarked (setsockopt enabled os m fd level optname tv_sec tv_usec)
unfolding setsockopt
setsockopt-IsMarked enabled os m fd level optname tv_sec tv_usec v p = ground (arith, v p)

close-IsMarked :
    (enabled : Bool) (kernel : Kernel) (os : Os) (iom iom' : Option IoManager) (m : FdManager)
    (fd : ℕ) (m' : FdManager)
    → IsMarked m
    → close enabled kernel os iom m fd ≡ done (iom', m')
    → IsMarked m'
unfolding close del
close-IsMarked enabled kernel os iom iom' m fd m' v e p = ground (arith, v p, e)

Reach-IsMarked : {m : FdManager} → Reach m → IsMarked m
unfolding init
Reach-IsMarked starts = λ p. refl
Reach-IsMarked (opens {m} enabled os fd m' r e) =
    socket-IsMarked enabled os m fd m' (Reach-IsMarked r) e
Reach-IsMarked (accepts {m} os a m' r e) = accepted-IsMarked os m a m' (Reach-IsMarked r) e
Reach-IsMarked (controls {m} os fd c answer r) = fcntl-IsMarked os m fd c answer (Reach-IsMarked r)
Reach-IsMarked (sets_mode {m} os fd request setting r) =
    ioctl-IsMarked os m fd request setting (Reach-IsMarked r)
Reach-IsMarked (sets_option {m} enabled os fd level optname tv_sec tv_usec r) =
    setsockopt-IsMarked enabled os m fd level optname tv_sec tv_usec (Reach-IsMarked r)
Reach-IsMarked (closes {m} enabled kernel os iom iom' fd m' r e) =
    close-IsMarked enabled kernel os iom iom' m fd m' (Reach-IsMarked r) e
Reach-IsMarked (gets {m} os fd m' o r e) = get-IsMarked os m fd m' o (Reach-IsMarked r) e

-- What do_io knows of a descriptor that it waits for.
pub record IsWaitable (enabled : Bool) (os : Os) (m : FdManager) (fd : ℕ) : Type 0 where
  pub hooked : enabled ≡ true
  pub pointer : ℕ
  pub entry : known os m fd ≡ some pointer
  pub opened : (m.heap pointer).is_closed ≡ false
  pub no_socket : (m.heap pointer).is_socket ≡ false
  pub user : (m.heap pointer).user_nonblock ≡ false
  pub system : (m.heap pointer).sys_nonblock ≡ false

-- For a table of descriptors that came from an empty one by the library's socket, accept, close,
-- fcntl, ioctl and setsockopt, and by get() with creation: where do_io adds an event, the hooks are
-- on, the table knows the descriptor and has not marked it as closed, it is no socket, the user has
-- not asked for O_NONBLOCK, and the library has not made it non-blocking.
pub waits_unprepared :
    {m : FdManager} (enabled : Bool) (os : Os) (fd timeout_so : ℕ) (script : List (Outcome × Wake))
    → Reach m
    → 0 < count is_event (do_io enabled os m fd timeout_so script).0
    → IsWaitable enabled os m fd
unfolding do_io
waits_unprepared {m} enabled os fd timeout_so script r h = elim (Bool-cases enabled) [
  | inr off ↦ absurd (idle script (rw off at h))
  | inl on ↦ elim (Option-cases (known os m fd)) [
    | inl e ↦ absurd (idle script (rw (on, e) at h))
    | inr (p, e) ↦
        let c = m.heap p in
        let h' = rw (on, e) at h in
        elim (Bool-cases c.is_closed) [
          | inl closed ↦ absurd (omega (arith, rw closed at h'))
          | inr opened ↦ elim (Bool-cases (c.is_socket || c.user_nonblock)) [
            | inl left ↦ absurd (idle script (rw (opened, left) at h'))
            | inr waits ↦
                let no_socket : c.is_socket ≡ false = ground (arith, waits) in
                record {
                  hooked = on;
                  pointer = p;
                  entry = e;
                  opened = opened;
                  no_socket = no_socket;
                  user = ground (arith, waits);
                  system = Reach-IsMarked r p ∙ no_socket;
                }
          ]
        ]
  ]
]
  where
    idle : (script : List (Outcome × Wake)) → 0 < count is_event (direct script).0 → ⊥
    idle [] lt = omega (arith, lt)
    idle ((o, w) ∷ script) lt = omega (arith, lt)
