-- ===== src/FdManager/Valid.antt =====
-- code/fd_manager.cpp: the table of descriptors under get() and del().
use tiny_coroutine.Base.{
  ℕ, ◌*◌, ◌/◌, ◌≤◌, ◌<◌, ◌≡◌, ◌≢◌, refl, ap, sym, ◌∙◌, Bool, true, false, Option, none, some, arith,
  leb, pos, Bool-cases, Option-cases, inl, inr, lt→ltb, leb→le,
}
use tiny_coroutine.Result.{Returns}
use tiny_coroutine.FdManager.{
  Os, FdManager, raw_ctx, init_ctx, init, resized, store_new, create, get,
}

-- The table has room for 64 descriptors, and an entry points to an allocated object of its descriptor.
pub record IsValid (m : FdManager) : Type 0 where
  pub sized : 64 ≤ m.size
  pub entries : (i p : ℕ) → m.datas i ≡ some p → (i < m.size) × (p < m.fresh) × ((m.heap p).fd ≡ i)

pub init-IsValid : IsValid init
unfolding init
init-IsValid = record { sized = omega arith; entries = λ i p h. cc }

resized-IsValid : (m : FdManager) (size : ℕ) → m.size ≤ size → IsValid m → IsValid (resized m size)
resized-IsValid m size h v = record {
  sized = omega (arith, v.sized);
  entries = λ i p e. ground (arith, v.entries i p);
}

store_new-IsValid :
    (os : Os) (m : FdManager) (fd : ℕ) → fd < m.size → IsValid m → IsValid (store_new os m fd)
unfolding init_ctx
store_new-IsValid os m fd lt v = record {
  sized = v.sized;
  entries = λ i p e. ground (arith, v.entries i p);
}

-- How get() on a descriptor comes out: a known object is returned; an unknown descriptor yields nullptr
-- or, on request, a new object, initialised for it. Nothing else of the table or the objects changes.
pub record Got (os : Os) (m : FdManager) (fd : ℕ) (auto_create : Bool) (r : FdManager × Option ℕ)
    : Type 0 where
  pub valid : IsValid (r.0)
  pub known : (p : ℕ) → m.datas fd ≡ some p → r ≡ (m, some p)
  pub unknown : m.datas fd ≡ none → auto_create ≡ false → r ≡ (m, none)
  pub created :
      m.datas fd ≡ none
      → auto_create ≡ true
      → (r.1 ≡ some m.fresh)
        × ((r.0).datas fd ≡ some m.fresh)
        × ((r.0).heap m.fresh ≡ (init_ctx os (raw_ctx fd)).0)
  pub others : (i : ℕ) → i ≢ fd → (r.0).datas i ≡ m.datas i
  pub objects : (p : ℕ) → p ≢ m.fresh → (r.0).heap p ≡ m.heap p

-- Beyond the table there are no entries.
pub outside_none : (m : FdManager) (i : ℕ) → IsValid m → m.size ≤ i → m.datas i ≡ none
outside_none m i v h = elim (Option-cases (m.datas i)) [
  | inl e ↦ e
  | inr (p, e) ↦ absurd (omega (arith, (v.entries i p e).0))
]

create-Got :
    (os : Os) (m : FdManager) (fd : ℕ)
    → IsValid m
    → m.datas fd ≡ none
    → Returns (Got os m fd true) (create os m (pos fd))
unfolding create
create-Got os m fd v free = elim (Bool-cases (leb m.size fd)) [
  | inr inside ↦
      rw (inside, lt→ltb fd m.size (ground arith))
        (record {
          valid = store_new-IsValid os m fd (ground arith) v;
          known = λ p e. cc;
          unknown = λ e h. cc;
          created = λ e h. (refl, ground arith, ground arith);
          others = λ i ne. ground arith;
          objects = λ p ne. ground arith;
        })
  | inl outside ↦
      let n = fd * 3 / 2 in
      let room : fd < n = omega (arith, v.sized, leb→le _ _ outside) in
      rw (outside, lt→ltb fd n room)
        (record {
          valid =
              store_new-IsValid os (resized m n) fd room
                (resized-IsValid m n (omega (arith, leb→le _ _ outside)) v);
          known = λ p e. cc;
          unknown = λ e h. cc;
          created = λ e h. (refl, ground arith, ground arith);
          others = λ i ne. ground (arith, outside_none m i v);
          objects = λ p ne. ground arith;
        })
]

known-Got :
    (os : Os) (m : FdManager) (fd : ℕ) (auto_create : Bool)
    → IsValid m
    → (p : ℕ) → m.datas fd ≡ some p
    → Got os m fd auto_create (m, some p)
known-Got os m fd auto_create v p e = record {
  valid = v;
  known = λ q f. ap (λ o. (m, o)) (sym e ∙ f);
  unknown = λ f h. cc;
  created = λ f h. cc;
  others = λ i ne. refl;
  objects = λ q ne. refl;
}

unknown-Got :
    (os : Os) (m : FdManager) (fd : ℕ) → IsValid m → m.datas fd ≡ none → Got os m fd false (m, none)
unknown-Got os m fd v e = record {
  valid = v;
  known = λ q f. cc;
  unknown = λ f h. refl;
  created = λ f h. cc;
  others = λ i ne. refl;
  objects = λ q ne. refl;
}

-- On a valid table get() for a descriptor returns, keeps the table valid, also where the descriptor
-- lies past its end, and answers a known object, nullptr or, on request, a new object that is
-- initialised for it; nothing else of the table or the objects changes.
pub get-Got :
    (os : Os) (m : FdManager) (fd : ℕ) (auto_create : Bool)
    → IsValid m
    → Returns (Got os m fd auto_create) (get os m (pos fd) auto_create)
unfolding get
get-Got os m fd true v = elim (Bool-cases (leb m.size fd)) [
  | inl outside ↦
      rw outside (rw outside at (create-Got os m fd v (outside_none m fd v (leb→le _ _ outside))))
  | inr inside ↦ elim (Option-cases (m.datas fd)) [
    | inl e ↦ rw (inside, e) (rw inside at (create-Got os m fd v e))
    | inr (p, e) ↦ rw (inside, e) (known-Got os m fd true v p e)
  ]
]
get-Got os m fd false v = elim (Bool-cases (leb m.size fd)) [
  | inl outside ↦ rw outside (unknown-Got os m fd v (outside_none m fd v (leb→le _ _ outside)))
  | inr inside ↦ elim (Option-cases (m.datas fd)) [
    | inl e ↦ rw (inside, e) (unknown-Got os m fd v e)
    | inr (p, e) ↦ rw (inside, e) (known-Got os m fd false v p e)
  ]
]
