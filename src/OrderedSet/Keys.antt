-- ===== src/OrderedSet/Keys.antt =====
-- std::set under a comparator that compares keys, seen as a map from the keys to the elements.
use tiny_coroutine.Base.{
  ℕ, ◌≤◌, ◌≡◌, refl, false, Option, none, some, List, [], ◌∷◌, arith, ◌==◌, if◌then◌else◌, contains,
  is_some,
}
use tiny_coroutine.OrderedSet.{insert, find, erase, Above, IsOrdered}

-- The element with the key `k`.
abbrev pub at_key : (ℕ → ℕ) → ℕ → List ℕ → Option ℕ
at_key key k [] = none
at_key key k (x ∷ xs) = if key x == k then some x else at_key key k xs

module _ (key : ℕ → ℕ) where
  Above-at_key : (n k : ℕ) (xs : List ℕ) → Above key n xs → k ≤ n → at_key key k xs ≡ none
  Above-at_key n k [] a h = refl
  Above-at_key n k (x ∷ xs) a h = ground (arith, Above-at_key n k xs a.1 h)

  pub find-at_key : (a : ℕ) (xs : List ℕ) → IsOrdered key xs → find key a xs ≡ at_key key (key a) xs
  unfolding find
  find-at_key a [] o = refl
  find-at_key a (x ∷ xs) o =
      ground (arith, find-at_key a xs o.1, Above-at_key (key x) (key a) xs o.0)

  pub at_key-insert :
      (a k : ℕ) (xs : List ℕ)
      → IsOrdered key xs
      → at_key key k (insert key a xs) ≡ (
          if key a == k
          then (if is_some (at_key key k xs) then at_key key k xs else some a)
          else at_key key k xs)
  unfolding insert
  at_key-insert a k [] o = ground arith
  at_key-insert a k (x ∷ xs) o =
      ground (arith, at_key-insert a k xs o.1, Above-at_key (key x) k xs o.0)

  pub at_key-erase :
      (a k : ℕ) (xs : List ℕ)
      → IsOrdered key xs
      → at_key key k (erase key a xs) ≡ (if key a == k then none else at_key key k xs)
  unfolding erase
  at_key-erase a k [] o = ground arith
  at_key-erase a k (x ∷ xs) o =
      ground (arith, at_key-erase a k xs o.1, Above-at_key (key x) k xs o.0)

  pub at_key_key : (k x : ℕ) (xs : List ℕ) → at_key key k xs ≡ some x → key x ≡ k
  at_key_key k x [] h = cc
  at_key_key k x (y ∷ ys) h = ground (arith, at_key_key k x ys)

-- The map stays as it is where the keys change only at an identifier that is not in the set.
pub at_key-update :
    (key key' : ℕ → ℕ) (t : ℕ)
    → ((j : ℕ) → (t == j) ≡ false → key' j ≡ key j)
    → (k : ℕ) (xs : List ℕ) → contains t xs ≡ false
    → at_key key' k xs ≡ at_key key k xs
at_key-update key key' t same k [] h = refl
at_key-update key key' t same k (x ∷ xs) h =
    ground (arith, same x, at_key-update key key' t same k xs)
