-- ===== src/OrderedSet.antt =====
-- std::set under a comparator that compares keys: TimerManager::m_timers of code/timer.h, whose
-- Timer::Comparator compares `m_next`. Two elements with equal keys are equivalent: the set holds one.
pub mod Keys
use tiny_coroutine.Base.{
  ℕ, ◌≤◌, ◌<◌, ◌≡◌, refl, Bool, true, false, ◌&&◌, ◌||◌, not, Option, none, some, List, [], ◌∷◌,
  arith, ltb, ◌==◌, if◌then◌else◌, contains, is_some, leb, leb→le, Option-cases, inl, inr, ◌↔◌, ◌≢◌,
}

-- Timer::Comparator::operator() on two elements with their keys.
abbrev pub less : (ℕ → ℕ) → ℕ → ℕ → Bool
less key a b = ltb (key a) (key b)

-- set::insert: an element equivalent to one of the set is not inserted.
unfoldable pub insert : (ℕ → ℕ) → ℕ → List ℕ → List ℕ
insert key a [] = a ∷ []
insert key a (x ∷ xs) =
    if less key x a then x ∷ insert key a xs else (if less key a x then a ∷ x ∷ xs else x ∷ xs)

-- set::find: the element that is equivalent to the one given.
unfoldable pub find : (ℕ → ℕ) → ℕ → List ℕ → Option ℕ
find key a [] = none
find key a (x ∷ xs) =
    if less key x a then find key a xs else (if less key a x then none else some x)

-- set::erase of what `find` has found.
unfoldable pub erase : (ℕ → ℕ) → ℕ → List ℕ → List ℕ
erase key a [] = []
erase key a (x ∷ xs) =
    if less key x a then x ∷ erase key a xs else (if less key a x then x ∷ xs else xs)

-- Does the iterator, `none` at the end, stand at the beginning of the set?
abbrev pub is_begin : List ℕ → Option ℕ → Bool
is_begin [] it = not (is_some it)
is_begin (x ∷ xs) none = false
is_begin (x ∷ xs) (some i) = x == i

-- All keys lie above `n`.
abbrev pub Above : (ℕ → ℕ) → ℕ → List ℕ → Type 0
Above key n [] = Unit {0}
Above key n (x ∷ xs) = (n < key x) × Above key n xs

-- The keys rise along the list.
abbrev pub IsOrdered : (ℕ → ℕ) → List ℕ → Type 0
IsOrdered key [] = Unit {0}
IsOrdered key (x ∷ xs) = Above key (key x) xs × IsOrdered key xs

-- Does an element have the key `k`?
abbrev pub has_key : (ℕ → ℕ) → ℕ → List ℕ → Bool
has_key key k [] = false
has_key key k (x ∷ xs) = key x == k || has_key key k xs

module _ (key : ℕ → ℕ) where
  pub Above-mono : (m n : ℕ) (xs : List ℕ) → m ≤ n → Above key n xs → Above key m xs
  Above-mono m n [] h a = tt
  Above-mono m n (x ∷ xs) h a = (omega arith, Above-mono m n xs h a.1)

  pub Above-contains : (n j : ℕ) (xs : List ℕ) → Above key n xs → contains j xs ≡ true → n < key j
  Above-contains n j [] a h = cc
  Above-contains n j (x ∷ xs) a h = ground (arith, Above-contains n j xs a.1)

  -- What lies strictly above its own key is not in the list.
  pub Above-fresh : (j : ℕ) (xs : List ℕ) → Above key (key j) xs → contains j xs ≡ false
  Above-fresh j xs a = ground (arith, Above-contains (key j) j xs a)

  pub Above-has_key : (n k : ℕ) (xs : List ℕ) → Above key n xs → k ≤ n → has_key key k xs ≡ false
  Above-has_key n k [] a h = refl
  Above-has_key n k (x ∷ xs) a h = ground (arith, Above-has_key n k xs a.1 h)

  pub Above-insert :
      (n a : ℕ) (xs : List ℕ) → Above key n xs → n < key a → Above key n (insert key a xs)
  unfolding insert
  Above-insert n a [] h lt = (lt, tt)
  Above-insert n a (x ∷ xs) h lt = ground (arith, Above-insert n a xs h.1 lt)

  pub insert-IsOrdered : (a : ℕ) (xs : List ℕ) → IsOrdered key xs → IsOrdered key (insert key a xs)
  unfolding insert
  insert-IsOrdered a [] o = (tt, tt)
  insert-IsOrdered a (x ∷ xs) o = ground (
    arith,
    insert-IsOrdered a xs o.1,
    Above-insert (key x) a xs o.0,
    Above-mono (key a) (key x) xs,
  )

  pub Above-erase : (n a : ℕ) (xs : List ℕ) → Above key n xs → Above key n (erase key a xs)
  unfolding erase
  Above-erase n a [] h = tt
  Above-erase n a (x ∷ xs) h = ground (arith, Above-erase n a xs h.1)

  pub erase-IsOrdered : (a : ℕ) (xs : List ℕ) → IsOrdered key xs → IsOrdered key (erase key a xs)
  unfolding erase
  erase-IsOrdered a [] o = tt
  erase-IsOrdered a (x ∷ xs) o =
      ground (arith, erase-IsOrdered a xs o.1, Above-erase (key x) a xs o.0)

  -- An element is in the set after an insertion if it was before, or if it is the new one and its
  -- key was free.
  pub contains-insert :
      (a j : ℕ) (xs : List ℕ)
      → IsOrdered key xs
      → contains j (insert key a xs) ≡ ((a == j && not (has_key key (key a) xs)) || contains j xs)
  unfolding insert
  contains-insert a j [] o = ground arith
  contains-insert a j (x ∷ xs) o =
      ground (arith, contains-insert a j xs o.1, Above-has_key (key x) (key a) xs o.0)

  -- `find` finds an element of the set with the key, and there is one if it can.
  pub find-some :
      (a : ℕ) (xs : List ℕ) (x : ℕ)
      → find key a xs ≡ some x
      → (key x ≡ key a) × (contains x xs ≡ true)
  unfolding find
  find-some a [] x h = cc
  find-some a (y ∷ ys) x h = ground (arith, find-some a ys x)

  pub find-has_key :
      (a : ℕ) (xs : List ℕ)
      → IsOrdered key xs
      → find key a xs ≡ none
      → has_key key (key a) xs ≡ false
  unfolding find
  find-has_key a [] o h = refl
  find-has_key a (x ∷ xs) o h =
      ground (arith, find-has_key a xs o.1, Above-has_key (key x) (key a) xs o.0)

  -- Erasing takes out exactly what has the key.
  pub contains-erase :
      (a j : ℕ) (xs : List ℕ)
      → IsOrdered key xs
      → contains j (erase key a xs) ≡ (contains j xs && not (key j == key a))
  unfolding erase
  contains-erase a j [] o = refl
  contains-erase a j (x ∷ xs) o =
      ground (arith, contains-erase a j xs o.1, Above-contains (key x) j xs o.0)

  pub contains-has_key :
      (j : ℕ) (xs : List ℕ) → contains j xs ≡ true → has_key key (key j) xs ≡ true
  contains-has_key j [] h = cc
  contains-has_key j (x ∷ xs) h = ground (arith, contains-has_key j xs)

  pub erase_absent : (a : ℕ) (xs : List ℕ) → find key a xs ≡ none → erase key a xs ≡ xs
  unfolding find erase
  erase_absent a [] h = refl
  erase_absent a (x ∷ xs) h = ground (arith, erase_absent a xs)

-- The set stays as it is where the keys change only at an identifier that is not in it.
module _ (key key' : ℕ → ℕ) (t : ℕ) (same : (j : ℕ) → (t == j) ≡ false → key' j ≡ key j) where
  pub Above-update :
      (n : ℕ) (xs : List ℕ) → contains t xs ≡ false → Above key n xs → Above key' n xs
  Above-update n [] h a = tt
  Above-update n (x ∷ xs) h a = ground (arith, same x, Above-update n xs)

  pub IsOrdered-update :
      (xs : List ℕ) → contains t xs ≡ false → IsOrdered key xs → IsOrdered key' xs
  IsOrdered-update [] h o = tt
  IsOrdered-update (x ∷ xs) h o =
      ground (arith, same x, Above-update (key x) xs, IsOrdered-update xs)

  pub has_key-update :
      (k : ℕ) (xs : List ℕ) → contains t xs ≡ false → has_key key' k xs ≡ has_key key k xs
  has_key-update k [] h = refl
  has_key-update k (x ∷ xs) h = ground (arith, same x, has_key-update k xs)

module _ (key : ℕ → ℕ) where
  -- The first element of an ordered set has the least key.
  pub first_least :
      (x j : ℕ) (xs : List ℕ) → IsOrdered key (x ∷ xs) → contains j (x ∷ xs) ≡ true → key x ≤ key j
  first_least x j xs o h = ground (arith, Above-contains key (key x) j xs o.0)

  -- Does no key of the ordered set lie below `k`?
  abbrev pub none_below : ℕ → List ℕ → Bool
  none_below k [] = true
  none_below k (x ∷ xs) = leb k (key x)

  -- What stands under the key of `a` after its insertion is the first element exactly if no key of
  -- the set lies below that of `a`.
  pub is_begin-insert :
      (a : ℕ) (xs : List ℕ)
      → is_begin (insert key a xs) (find key a (insert key a xs)) ≡ none_below (key a) xs
  unfolding insert find
  is_begin-insert a [] = ground arith
  is_begin-insert a (x ∷ xs) = elim (Option-cases (find key a (insert key a xs))) [
    | inl e ↦ ground (arith, e)
    | inr (i, e) ↦ ground (arith, e, find-some key a (insert key a xs) i e)
  ]

  pub distinct_keys :
      (i j : ℕ) (xs : List ℕ)
      → IsOrdered key xs
      → i ≢ j
      → key i ≡ key j
      → (contains i xs && contains j xs) ≡ false
  distinct_keys i j [] o ne e = refl
  distinct_keys i j (x ∷ xs) o ne e = ground (
    arith,
    distinct_keys i j xs o.1 ne e,
    Above-contains key (key x) i xs o.0,
    Above-contains key (key x) j xs o.0,
  )

  pub none_below-least :
      (k : ℕ) (xs : List ℕ)
      → IsOrdered key xs
      → (none_below k xs ≡ true) ↔ ((j : ℕ) → contains j xs ≡ true → k ≤ key j)
  none_below-least k [] o = (λ e j h. cc, λ all. refl)
  none_below-least k (x ∷ xs) o = (
    λ e j h. omega (arith, leb→le k (key x) e, first_least x j xs o h),
    λ all. ground (arith, all x),
  )

module _ (key key' : ℕ → ℕ) (t : ℕ) (same : (j : ℕ) → (t == j) ≡ false → key' j ≡ key j) where
  pub none_below-update :
      (k : ℕ) (xs : List ℕ) → contains t xs ≡ false → none_below key' k xs ≡ none_below key k xs
  none_below-update k [] h = refl
  none_below-update k (x ∷ xs) h = ground (arith, same x)

module _ (key : ℕ → ℕ) where
  pub insert_nonempty : (a : ℕ) (xs : List ℕ) → insert key a xs ≢ []
  unfolding insert
  insert_nonempty a [] = λ e. cc
  insert_nonempty a (x ∷ xs) = ground arith

  -- Also out of order, an insertion adds nothing but the new element.
  pub contains_of_insert :
      (a j : ℕ) (xs : List ℕ)
      → contains j (insert key a xs) ≡ true
      → (a == j || contains j xs) ≡ true
  unfolding insert
  contains_of_insert a j [] h = ground arith
  contains_of_insert a j (x ∷ xs) h = ground (arith, contains_of_insert a j xs)

  -- `find` finds a member of an ordered set itself.
  pub find_member :
      (a : ℕ) (xs : List ℕ) → IsOrdered key xs → contains a xs ≡ true → find key a xs ≡ some a
  unfolding find
  find_member a [] o h = cc
  find_member a (x ∷ xs) o h =
      ground (arith, find_member a xs o.1, Above-contains key (key x) a xs o.0)
