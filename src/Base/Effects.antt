-- ===== src/Base/Effects.antt =====
-- What a piece of Go code does: it returns, it panics, or it blocks for ever on a channel. The
-- state outlives all three, as the objects that the code has already changed do.

use mathlib.Core.Path.{◌≡◌, refl}

module _ {ℓ κ} (E : Type ℓ) (A : Type κ) where
  pub data Outcome : Type (ℓ ⊔ κ) where
    returned : A → Outcome
    panicked : E → Outcome
    blocked : Outcome

abbrev pub Exec : Type 0 → Type 0 → Type 0 → Type 0
Exec E S A = S → Outcome E A × S

module _ {E S : Type 0} where
  abbrev pub pure : {A : Type 0} → A → Exec E S A
  pure a s = (returned a, s)

  abbrev pub panic : {A : Type 0} → E → Exec E S A
  panic e s = (panicked e, s)

  abbrev pub modify : (S → S) → Exec E S (Unit {0})
  modify f s = (returned tt, f s)

  abbrev pub and_then : {A B : Type 0} → Outcome E A → (A → Exec E S B) → Exec E S B
  and_then (returned a) f = f a
  and_then (panicked e) f = panic e
  and_then blocked f = λ s. (blocked, s)

  infixl 5 ◌>>=◌ ◌>>◌
  abbrev pub ◌>>=◌ : {A B : Type 0} → Exec E S A → (A → Exec E S B) → Exec E S B
  m >>= f = λ s. let (r, s') = m s in and_then r f s'

  abbrev pub ◌>>◌ : {A B : Type 0} → Exec E S A → Exec E S B → Exec E S B
  m >> n = m >>= λ _. n

  -- A last step that changes nothing leaves the state of the steps before it.
  pub and_then-pure_state :
      {A B : Type 0} (r : Outcome E A) (b : B) (s : S) → (and_then r (λ _. pure b) s).1 ≡ s
  and_then-pure_state (returned a) b s = refl
  and_then-pure_state (panicked e) b s = refl
  and_then-pure_state blocked b s = refl

  -- A sequence that returns has a first step that returns.
  pub and_then_returned :
      {A B : Type 0} (r : Outcome E A) (f : A → Exec E S B) (s : S) {b : B}
      → (and_then r f s).0 ≡ returned b
      → (a : A) × (r ≡ returned a)
  and_then_returned (returned a) f s h = (a, refl)
  and_then_returned (panicked e) f s h = cc
  and_then_returned blocked f s h = cc
