-- ===== src/FdManager/Laws.antt =====
-- code/fd_manager.cpp: sequences of calls, negative descriptors, and what a new object knows.
use tiny_coroutine.Base.{
  ℕ, ◌≡◌, ◌≢◌, ◌<◌, refl, ap, Bool, true, false, ◌&&◌, not, Option, none, some, arith, leb, ◌==◌,
  if◌then◌else◌, is_some, pos, negsuc, Bool-cases, Option-cases, inl, inr, leb→le, lt→ltb,
}
use tiny_coroutine.Result.{Result, done, abort, Returns}
use tiny_coroutine.FdManager.{
  Os, FdCtx, FdManager, raw_ctx, init_ctx, set_timeout, get_timeout, so_rcvtimeo, get, del, create,
  store_new, has_nonblock, with_nonblock,
}
use tiny_coroutine.FdManager.Valid.{IsValid, Got, get-Got, outside_none}

-- A result of which a call that returns is known.
from_returns {ℓ} :
    {A : Type ℓ} (P : A → Type 0) (r : Result A) (a : A) → Returns P r → r ≡ done a → P a
from_returns P r a p e = rw e at p

-- get() for a descriptor that is known.
get_known :
    (os : Os) (m : FdManager) (fd : ℕ) (auto_create : Bool) (p : ℕ)
    → IsValid m
    → m.datas fd ≡ some p
    → get os m (pos fd) auto_create ≡ done (m, some p)
unfolding get
get_known os m fd auto_create p v e = ground (arith, v.entries fd p)

-- get() without creation for a descriptor that is not known.
get_unknown :
    (os : Os) (m : FdManager) (fd : ℕ)
    → IsValid m
    → m.datas fd ≡ none
    → get os m (pos fd) false ≡ done (m, none)
unfolding get
get_unknown os m fd v e = elim (Bool-cases (leb m.size fd)) [
  | inl outside ↦ rw outside refl
  | inr inside ↦ rw (inside, e) refl
]

-- On a valid table, once get() with creation has answered, the answer is a pointer, and every
-- further get() for the descriptor answers the same one and changes nothing, whatever the system
-- says by then.
pub get_again :
    (os os' : Os) (m m' : FdManager) (fd : ℕ) (auto_create : Bool) (o : Option ℕ)
    → IsValid m
    → get os m (pos fd) true ≡ done (m', o)
    → (p : ℕ) × (o ≡ some p) × (get os' m' (pos fd) auto_create ≡ done (m', some p))
get_again os os' m m' fd auto_create o v h =
    let g : Got os m fd true (m', o) =
      from_returns (Got os m fd true) _ _ (get-Got os m fd true v) h in
    elim (Option-cases (m.datas fd)) [
      | inl e ↦
          let (answer, entry, _) = g.created e refl in
          (m.fresh, answer, get_known os' m' fd auto_create m.fresh g.valid entry)
      | inr (p, e) ↦
          let same : (m', o) ≡ (m, some p) = g.known p e in
          (p, ap (λ r. r.1) same, rw (ap (λ r. r.0) same) (get_known os' m fd auto_create p v e))
    ]

-- The part of get() under the write lock, where the descriptor has become known in between.
create_known :
    (os : Os) (m : FdManager) (fd p : ℕ)
    → IsValid m
    → m.datas fd ≡ some p
    → create os m (pos fd) ≡ done (store_new os m fd, some m.fresh)
unfolding create
create_known os m fd p v e =
    let inside : fd < m.size = (v.entries fd p e).0 in
    let outside : leb m.size fd ≡ false = ground arith in rw (outside, lt→ltb fd m.size inside) refl

-- Between the two locks of get() another thread may make the object: on a valid table where the
-- descriptor has an object, the part under the write lock makes a second one all the same. The table
-- then holds the second, and no entry of it points to the first.
pub create_replaces :
    (os : Os) (m : FdManager) (fd p : ℕ)
    → IsValid m
    → m.datas fd ≡ some p
    → (m' : FdManager) × (create os m (pos fd) ≡ done (m', some m.fresh))
      × (p ≢ m.fresh)
      × (m'.datas fd ≡ some m.fresh)
      × ((i : ℕ) → m'.datas i ≢ some p)
create_replaces os m fd p v e = (
  store_new os m fd,
  create_known os m fd p v e,
  omega (arith, v.entries fd p e),
  ground arith,
  λ i. ground (arith, v.entries fd p e, v.entries i p),
)

del-IsValid : (m : FdManager) (fd : ℕ) → IsValid m → IsValid (del m (pos fd))
unfolding del
del-IsValid m fd v = elim (Bool-cases (leb m.size fd)) [
  | inl outside ↦ rw outside v
  | inr inside ↦
      rw inside (record { sized = v.sized; entries = λ i p e. ground (arith, v.entries i p) })
]

del-datas : (m : FdManager) (fd : ℕ) → IsValid m → (del m (pos fd)).datas fd ≡ none
unfolding del
del-datas m fd v = elim (Bool-cases (leb m.size fd)) [
  | inl outside ↦ rw outside (outside_none m fd v (leb→le _ _ outside))
  | inr inside ↦ rw inside (ground arith)
]

del_others : (m : FdManager) (fd i : ℕ) → i ≢ fd → (del m (pos fd)).datas i ≡ m.datas i
unfolding del
del_others m fd i ne = ground arith

-- On a valid table del() for a descriptor keeps the table valid and makes it forget the descriptor;
-- the other entries and all objects stay as they were.
pub del_forgets :
    (os : Os) (m : FdManager) (fd : ℕ)
    → IsValid m
    → let m' = del m (pos fd) in
      IsValid m'
      × (get os m' (pos fd) false ≡ done (m', none))
      × ((i : ℕ) → i ≢ fd → m'.datas i ≡ m.datas i)
      × (m'.heap ≡ m.heap)
unfolding del
del_forgets os m fd v =
    let v' = del-IsValid m fd v in
    (v', get_unknown os _ fd v' (del-datas m fd v), del_others m fd, ground arith)

-- A negative descriptor is unknown; get() with creation for one below -1 runs past the table's end.
pub get_negative :
    (os : Os) (m : FdManager) (n : ℕ) (auto_create : Bool)
    → get os m (negsuc n) auto_create
      ≡ (if auto_create && not (n == 0) then abort else done (m, none))
unfolding get
get_negative os m n auto_create = ground arith

with_nonblock_lem : (flags : ℕ) → has_nonblock (with_nonblock flags) ≡ true
with_nonblock_lem flags = ground arith

-- The flags in the end, where those that are new are only set if they lack O_NONBLOCK.
nonblock_after :
    (flags : ℕ)
    → let set = if not (has_nonblock flags) then some (with_nonblock flags) else none in
      has_nonblock (if is_some set then with_nonblock flags else flags) ≡ true
nonblock_after flags = elim (Bool-cases (has_nonblock flags)) [
  | inl h ↦ rw h h
  | inr h ↦ rw h (rw h at (with_nonblock_lem flags))
]

-- A new object of a socket leaves the descriptor non-blocking, by the flags it sets or those it found,
-- and remembers that the library, not the user, wanted that. Any other object sets no flags.
pub init_ctx_nonblock :
    (os : Os) (fd : ℕ)
    → let r = init_ctx os (raw_ctx fd) in
      ((r.0).is_socket ≡ true
        → has_nonblock (if is_some r.1 then with_nonblock (os.flags fd) else os.flags fd) ≡ true)
      × ((r.0).is_socket ≡ false → r.1 ≡ none)
      × ((r.0).sys_nonblock ≡ (r.0).is_socket)
      × ((r.0).user_nonblock ≡ false)
unfolding init_ctx
init_ctx_nonblock os fd = (λ h. rw h (nonblock_after (os.flags fd)), λ h. rw h refl, refl, refl)

-- setTimeout: what getTimeout answers afterwards; every option but SO_RCVTIMEO means that of sending.
pub timeout_roundtrip :
    (c : FdCtx) (type other v : ℕ)
    → (get_timeout (set_timeout c type v) type ≡ v)
      × (type ≡ so_rcvtimeo
          → other ≢ so_rcvtimeo
          → get_timeout (set_timeout c type v) other ≡ get_timeout c other)
      × (type ≢ so_rcvtimeo
          → get_timeout (set_timeout c type v) other
            ≡ (if other == so_rcvtimeo then get_timeout c other else v))
unfolding get_timeout set_timeout
timeout_roundtrip c type other v = (ground arith, λ e ne. ground arith, λ ne. ground arith)
