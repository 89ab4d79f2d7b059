-- ===== src/Result.antt =====
-- What a function with assertions gives: a result, or nothing after a failed assertion, a null pointer
-- that is followed, or an access past the end of a vector.
use tiny_coroutine.Base.{Bool, true, false, ◌≡◌, refl, subst}

pub data Result {ℓ} (A : Type ℓ) : Type ℓ where
  done : A → Result A
  abort : Result A

infixl 5 ◌>>=◌
abbrev pub ◌>>=◌ {ℓ κ} : {A : Type ℓ} {B : Type κ} → Result A → (A → Result B) → Result B
done a >>= f = f a
abort >>= f = abort

infixl 5 ◌>>◌
abbrev pub ◌>>◌ {ℓ} : {B : Type ℓ} → Result (Unit {0}) → Result B → Result B
m >> k = m >>= λ _. k

-- assert(…)
abbrev pub assert : Bool → Result (Unit {0})
assert true = done tt
assert false = abort

-- The call returns, with a result of which `P` holds.
abbrev pub Returns {ℓ} : {A : Type ℓ} → (A → Type 0) → Result A → Type 0
Returns P (done a) = P a
Returns P abort = ⊥

pub Returns-map {ℓ} :
    {A : Type ℓ} {P Q : A → Type 0} (r : Result A)
    → ((a : A) → P a → Q a)
    → Returns P r
    → Returns Q r
Returns-map (done a) f p = f a p
Returns-map abort f p = p

pub Returns-bind :
    {A B : Type 0} (P : A → Type 0) (Q : B → Type 0) (r : Result A) (f : A → Result B)
    → Returns P r
    → ((a : A) → P a → Returns Q (f a))
    → Returns Q (r >>= f)
Returns-bind P Q (done a) f p k = k a p
Returns-bind P Q abort f p k = absurd p

-- What is known of a call that returns holds of its result, which there is.
pub Returns-done :
    {A : Type 0} (P : A → Type 0) {r : Result A} {a : A} → Returns P r → r ≡ done a → P a
Returns-done P h e = subst (Returns P) e h

pub returned :
    {A : Type 0} (P : A → Type 0) (r : Result A) → Returns P r → (a : A) × (r ≡ done a) × P a
returned P (done a) h = (a, refl, h)
returned P abort h = absurd h
