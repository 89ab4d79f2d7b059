-- ===== src/Base/Store.antt =====
-- The heap of shared objects: a function from the identifiers, written at one of them.
use Prim.Native.Nat.{ℕ}
use mathlib.Core.Path.{◌≡◌, fun_ext}
use mathlib.Core.Logic.{◌≢◌}
use native.Mathlib.Omega.{arith}
use tiny_coroutine.Base.Tests.{◌==◌, if◌then◌else◌}

abbrev pub update {ℓ} : {A : Type ℓ} → (ℕ → A) → ℕ → A → ℕ → A
update f i a j = if i == j then a else f j

module _ {ℓ} {A : Type ℓ} (f : ℕ → A) where
  pub update_self : (i : ℕ) (a : A) → update f i a i ≡ a
  update_self i a = ground arith

  pub update_ne : (i j : ℕ) (a : A) → i ≢ j → update f i a j ≡ f j
  update_ne i j a h = ground arith

  pub update-update : (i : ℕ) (a b : A) → update (update f i a) i b ≡ update f i b
  update-update i a b = fun_ext λ j. ground arith
