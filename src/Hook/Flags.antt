-- ===== src/Hook/Flags.antt =====
-- code/hook.cpp: fcntl on the flags of a socket.
use tiny_coroutine.Base.{
  ℕ, ◌≡◌, refl, Bool, true, false, Option, none, some, arith, if◌then◌else◌, leb, Bool-cases,
  Option-cases, inl, inr, pos, ◌∙◌, sym, ap, subst,
}
use tiny_coroutine.Result.{done}
use tiny_coroutine.FdManager.{
  Os, FdCtx, FdManager, get, has_nonblock, with_nonblock, without_nonblock, set_user_nonblock,
}
use tiny_coroutine.Hook.{
  known, open_socket, if_socket, pointer, write_ctx, set_fl, get_fl, fcntl, f_setfl,
}

with_has : (flags : ℕ) → has_nonblock flags ≡ true → with_nonblock flags ≡ flags
with_has flags h = ground arith

without_hasnt : (flags : ℕ) → has_nonblock flags ≡ false → without_nonblock flags ≡ flags
without_hasnt flags h = ground arith

with-without :
    (flags : ℕ) → has_nonblock flags ≡ true → with_nonblock (without_nonblock flags) ≡ flags
with-without flags h = ground arith

without-with :
    (flags : ℕ) → has_nonblock flags ≡ false → without_nonblock (with_nonblock flags) ≡ flags
without-with flags h = ground arith

has-with : (flags : ℕ) → has_nonblock (with_nonblock flags) ≡ true
has-with flags = ground arith

has-without : (flags : ℕ) → has_nonblock (without_nonblock flags) ≡ false
has-without flags = ground arith

-- The flags that fcntl passes on for a socket.
abbrev pub sent_flags : FdCtx → ℕ → ℕ
sent_flags c flags = if c.sys_nonblock then with_nonblock flags else without_nonblock flags

sent_has : (c : FdCtx) (flags : ℕ) → has_nonblock (sent_flags c flags) ≡ c.sys_nonblock
sent_has c flags = elim (Bool-cases c.sys_nonblock) [
  | inl e ↦ rw e (has-with flags)
  | inr e ↦ rw e (has-without flags)
]

-- O_NONBLOCK set or taken off.
abbrev choose : Bool → ℕ → ℕ
choose b flags = if b then with_nonblock flags else without_nonblock flags

choose-choose :
    (b s : Bool) (flags : ℕ) → has_nonblock flags ≡ b → choose b (choose s flags) ≡ flags
choose-choose true true flags h = with_has (with_nonblock flags) (has-with flags) ∙ with_has flags h
choose-choose true false flags h = with-without flags h
choose-choose false true flags h = without-with flags h
choose-choose false false flags h =
    without_hasnt (without_nonblock flags) (has-without flags) ∙ without_hasnt flags h

-- get() without creation looks into the table.
get_lookup :
    (os : Os) (m : FdManager) (fd : ℕ)
    → get os m (pos fd) false ≡ done (m, if leb m.size fd then none else m.datas fd)
unfolding get
get_lookup os m fd = elim (Bool-cases (leb m.size fd)) [
  | inl outside ↦ rw outside refl
  | inr inside ↦ elim (Option-cases (m.datas fd)) [
    | inl e ↦ rw (inside, e) refl
    | inr (p, e) ↦ rw (inside, e) refl
  ]
]

known_lem :
    (os : Os) (m : FdManager) (fd : ℕ)
    → known os m fd ≡ (if leb m.size fd then none else m.datas fd)
unfolding known
known_lem os m fd = ap pointer (get_lookup os m fd)

pub record IsSocket (os : Os) (m : FdManager) (fd p : ℕ) : Type 0 where
  pub entry : known os m fd ≡ some p
  pub opened : (m.heap p).is_closed ≡ false
  pub socket : (m.heap p).is_socket ≡ true

if_socket-some :
    (m : FdManager) (o : Option ℕ) (p : ℕ)
    → if_socket m o ≡ some p
    → (o ≡ some p) × ((m.heap p).is_closed ≡ false) × ((m.heap p).is_socket ≡ true)
if_socket-some m none p h = cc
if_socket-some m (some q) p h = ground (arith, h)

-- What open_socket says of the object.
pub open_socket-IsSocket :
    (os : Os) (m : FdManager) (fd p : ℕ) → open_socket os m fd ≡ some p → IsSocket os m fd p
unfolding open_socket
open_socket-IsSocket os m fd p h =
    let (entry, opened, socket) = if_socket-some m (known os m fd) p h in
    record { entry = entry; opened = opened; socket = socket }

-- What the object of a socket says of it does not depend on what the user asked for.
open_socket_kept :
    (os : Os) (m : FdManager) (fd p : ℕ) (b : Bool)
    → open_socket os m fd ≡ some p
    → open_socket os (write_ctx m p (set_user_nonblock (m.heap p) b)) fd ≡ some p
unfolding open_socket
open_socket_kept os m fd p b h =
    let s = open_socket-IsSocket os m fd p h in
    let m' = write_ctx m p (set_user_nonblock (m.heap p) b) in
    let entry : known os m' fd ≡ some p = known_lem os m' fd ∙ sym (known_lem os m fd) ∙ s.entry in
    ap (λ o. if_socket m' o) entry ∙ ground (arith, s.opened, s.socket)

set_fl_effect :
    (os : Os) (m : FdManager) (fd p flags answer : ℕ)
    → open_socket os m fd ≡ some p
    → fcntl os m fd (set_fl flags) answer ≡ (
      write_ctx m p (set_user_nonblock (m.heap p) (has_nonblock flags)),
      record { fd = fd; cmd = f_setfl; arg = some (sent_flags (m.heap p) flags) },
      answer,
    )
unfolding fcntl
set_fl_effect os m fd p flags answer h = rw (h, fcntl) refl

get_fl_answer :
    (os : Os) (m : FdManager) (fd p answer : ℕ)
    → open_socket os m fd ≡ some p
    → (fcntl os m fd get_fl answer).2 ≡ choose (m.heap p).user_nonblock answer
unfolding fcntl
get_fl_answer os m fd p answer h = rw (h, fcntl) refl

-- For a socket that the table knows: F_SETFL passes flags on that have O_NONBLOCK exactly if the library
-- wants the descriptor non-blocking, and where the system answers these flags to F_GETFL, the user gets
-- the flags that he set.
pub fcntl_flags_roundtrip :
    (os : Os) (m : FdManager) (fd p flags answer : ℕ)
    → open_socket os m fd ≡ some p
    → let (m', call, _) = fcntl os m fd (set_fl flags) answer in
      let sent = sent_flags (m.heap p) flags in
      (call.arg ≡ some sent)
      × (has_nonblock sent ≡ (m.heap p).sys_nonblock)
      × ((fcntl os m' fd get_fl sent).2 ≡ flags)
fcntl_flags_roundtrip os m fd p flags answer h =
    let b = has_nonblock flags in
    let m' = write_ctx m p (set_user_nonblock (m.heap p) b) in
    let sent = sent_flags (m.heap p) flags in
    let effect = set_fl_effect os m fd p flags answer h in
    let asked : (m'.heap p).user_nonblock ≡ b = ground arith in
    (
      ap (λ r. r.1.arg) effect,
      sent_has (m.heap p) flags,
      subst (λ n. (fcntl os n fd get_fl sent).2 ≡ flags) (sym (ap (λ r. r.0) effect))
          (get_fl_answer os m' fd p sent (open_socket_kept os m fd p b h)
            ∙ ap (λ c. choose c sent) asked
            ∙ choose-choose b (m.heap p).sys_nonblock flags refl),
    )
