-- ===== src/Base/Family.antt =====
-- Families indexed by a number, such as a store by its addresses: update at one index.
use Prim.Native.Nat.{ℕ}
use mathlib.Core.Path.{◌≡◌}
use mathlib.Core.Logic.{◌≢◌}
use native.Mathlib.Decide.{ℕ_discrete}
use native.Mathlib.Omega.{arith}
use bandmaster.Base.Tests.{if◌then◌else◌, nat_eq}

abbrev pub update {ℓ} : {A : Type ℓ} → (ℕ → A) → ℕ → A → ℕ → A
update f i a j = if nat_eq i j then a else f j

module _ {ℓ} {A : Type ℓ} (f : ℕ → A) (i : ℕ) (a : A) where
  pub update_self : update f i a i ≡ a
  update_self = ground arith

  pub update_ne : (j : ℕ) → i ≢ j → update f i a j ≡ f j
  update_ne j h = ground arith

  -- A property of the new value and of the old one at `j` holds of the updated one at `j`.
  pub update_keeps {κ} : (P : A → Type κ) (j : ℕ) → (i ≡ j → P a) → P (f j) → P (update f i a j)
  update_keeps P j at_i at_j = elim (ℕ_discrete i j) [
    | yes e ↦ let same : update f i a j ≡ a = ground arith in rw same (at_i e)
    | no n ↦ rw (update_ne j n) at_j
  ]
