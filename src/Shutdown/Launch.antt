-- ===== src/Shutdown/Launch.antt =====
-- maestro.go: where the goroutines of StopAll stand when it has launched them.
use bandmaster.Base.{ℕ, ◌≡◌, refl, sym, ◌⊎◌, inl, inr, [], ◌∷◌, In, arith}
use native.Mathlib.Decide.{ℕ_discrete}
use bandmaster.Base.Dict.{values}
use bandmaster.ServiceBase.{Object}
use bandmaster.Registry.{Maestro}
use bandmaster.Shutdown.Defs.{entry, finished, stop_launched, stop_launch}
use bandmaster.Shutdown.Order.{AtEntry}

pub stop_launched-entry : (m : Maestro) (i : ℕ) → In i (values m) → stop_launched m i ≡ entry
unfolding stop_launched
stop_launched-entry [] i at = absurd at
stop_launched-entry ((name, s) ∷ m) i at = elim (ℕ_discrete s i) [
  | yes e ↦ ground (arith, e)
  | no n ↦ elim at [
    | inl e ↦ absurd (n (sym e))
    | inr at' ↦ ground (arith, n, stop_launched-entry m i at')
  ]
]

pub stop_launched_cases :
    (m : Maestro) (i : ℕ)
    → (stop_launched m i ≡ finished) ⊎ ((stop_launched m i ≡ entry) × In i (values m))
unfolding stop_launched
stop_launched_cases [] i = inl refl
stop_launched_cases ((name, s) ∷ m) i = elim (ℕ_discrete s i) [
  | yes e ↦ inr (ground (arith, e), inl (sym e))
  | no n ↦ elim (stop_launched_cases m i) [
    | inl e ↦ inl (ground (arith, n, e))
    | inr (e, at) ↦ inr (ground (arith, n, e), inr at)
  ]
]

pub stop_launch-AtEntry : (m : Maestro) (objects : ℕ → Object) → AtEntry (stop_launch m objects)
stop_launch-AtEntry m objects i = elim (stop_launched_cases m i) [
  | inl e ↦ inr e
  | inr (e, at) ↦ inl e
]
