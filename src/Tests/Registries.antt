-- ===== src/Tests/Registries.antt =====
-- maestro.go at concrete registries.
use bandmaster.Base.{
  ℕ, String, true, false, some, [], ◌∷◌, ◌≡◌, refl, ◌≢◌, ◌↔◌, returned, blocked, if◌then◌else◌,
  ◌==◌, arith, inl, inr, ◌⊎◌,
}
use bandmaster.Base.Dict.{lookup}
use bandmaster.Channel.{make}
use bandmaster.ServiceBase.{new_service_base}
use bandmaster.Registry.{Program, new_maestro, service, add_service_with_backoff}
use bandmaster.Registry.Add.{IsAcceptable, configured, add-returns_iff, add_registers}
use bandmaster.Registry.Valid.{IsRegistry}
use bandmaster.Deps.{has_missing_deps, has_circular_deps}
use bandmaster.Deps.Missing.{
  missing_errors, is_some_missing, error_for, errors_of, deps_of, has_missing_deps-blocks,
}
use bandmaster.Deps.Missing.Which.{has_missing_deps-decides, is_some_missing_iff}
use bandmaster.Deps.Graph.{IsClosed, IsCircle}
use bandmaster.Deps.Circular.{Found}
use bandmaster.Deps.Decide.{has_circular_deps-decides}
use bandmaster.Tests.Data.{pair, pair-IsRegistry, ne_by_test}

-- `a` and `b` depend on each other.
abbrev circle : Program
circle = pair ("a" ∷ [])

circle-IsClosed : IsClosed circle
unfolding is_some_missing missing_errors errors_of error_for deps_of lookup new_service_base
circle-IsClosed = (is_some_missing_iff circle (pair-IsRegistry "a" refl)).0 refl

-- `b` depends on `c`, which is not registered.
abbrev gap : Program
gap = pair ("c" ∷ [])

gap-IsRegistry : IsRegistry gap
gap-IsRegistry = pair-IsRegistry "c" refl

has_circular_deps-decides_example :
    (Found circle (make 2) (has_circular_deps circle 3 (make 2))
      × ((a : String) × IsCircle circle a))
    ⊎ ((has_circular_deps circle 3 (make 2) ≡ (returned false, make 2))
        × ((a : String) → ¬ IsCircle circle a))
has_circular_deps-decides_example =
    has_circular_deps-decides circle (make 2) 3 (pair-IsRegistry "a" refl) circle-IsClosed
      (refl, omega arith) (omega arith)

has_missing_deps-decides_example :
    ((has_missing_deps gap (make 2)).0 ≡ returned false) ↔ IsClosed gap
unfolding missing_errors errors_of error_for deps_of lookup new_service_base
has_missing_deps-decides_example =
    has_missing_deps-decides gap (make 2) gap-IsRegistry refl (omega arith)

has_missing_deps-blocks_example : (has_missing_deps gap (make 0)).0 ≡ blocked
unfolding is_some_missing missing_errors errors_of error_for deps_of lookup new_service_base
has_missing_deps-blocks_example =
    has_missing_deps-blocks gap (make 0) gap-IsRegistry refl (omega arith) (omega arith)

-- A program of one service that is not registered yet.
abbrev alone : Program
alone = record { services = new_maestro; objects = λ i. some new_service_base }

alone-IsAcceptable : IsAcceptable "a" true 3 1000 7 ("b" ∷ []) alone
unfolding lookup new_maestro new_service_base
alone-IsAcceptable = record {
  free = refl;
  base = new_service_base;
  based = refl;
  others = λ i. elim i [ inl e ↦ ne_by_test "a" "b" refl e | inr x ↦ x ];
  once = (tt, tt);
  unknown = (λ x. x, tt);
}

add-returns_iff_example :
    ((add_service_with_backoff "a" true 3 1000 7 ("b" ∷ []) alone).0 ≡ returned tt)
    ↔ IsAcceptable "a" true 3 1000 7 ("b" ∷ []) alone
add-returns_iff_example = add-returns_iff "a" true 3 1000 7 ("b" ∷ []) alone

add_registers_example :
    ((j : String)
      → service j (add_service_with_backoff "a" true 3 1000 7 ("b" ∷ []) alone).1
        ≡ (if "a" == j then some 7 else service j alone))
    × ((add_service_with_backoff "a" true 3 1000 7 ("b" ∷ []) alone).1.objects 7
        ≡ some (configured "a" true 3 1000 7 ("b" ∷ []) alone-IsAcceptable.base))
    × ((i : ℕ)
        → 7 ≢ i
        → (add_service_with_backoff "a" true 3 1000 7 ("b" ∷ []) alone).1.objects i
          ≡ alone.objects i)
add_registers_example = add_registers "a" true 3 1000 7 ("b" ∷ []) alone alone-IsAcceptable
