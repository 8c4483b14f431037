-- ===== src/Deps/Defs.antt =====
-- maestro.go: hasMissingDeps and hasCircularDeps. The state is the channel `errC`, to which both send.
use bandmaster.Base.{
  ℕ, zero, suc, ◌+◌, String, Bool, true, false, Option, none, some, List, [], ◌∷◌, returned,
  panicked, blocked, Exec, panic, pure, ◌>>=◌, ◌>>◌, length,
}
use mathlib.Core.Option
use bandmaster.Base.Dict.{lookup, insert}
use bandmaster.Errors.{Err, foreign, with_stack, error_of, dependency_missing, dependency_circular}
use bandmaster.Errors.Text.{nil_dereference}
use bandmaster.Channel.{Chan, send}
use bandmaster.ServiceBase.{Object, dependencies}
use bandmaster.Registry.{Maestro, Program, service_base}

-- `errC <- err`
unfoldable pub push : Err → Exec Err Chan (Unit {0})
push err c = elim (send err c) [
  | returned c' ↦ (returned tt, c')
  | panicked e ↦ (panicked e, c)
  | blocked ↦ (blocked, c)
]

abbrev pub nil_panic : {A : Type 0} → Exec Err Chan A
nil_panic = panic (foreign nil_dereference)

abbrev pub missing_error : ℕ → String → Err
missing_error s dep =
    with_stack (record (error_of dependency_missing) { service = some s; dependency = dep })

module _ (p : Program) where
  -- The body of the inner loop of hasMissingDeps; `failure` is its named result.
  unfoldable pub check_dep : ℕ → String → Option ℕ → Bool → Exec Err Chan Bool
  check_dep s dep (some _) failure = pure failure
  check_dep s dep none failure = push (missing_error s dep) >> pure true

  unfoldable pub check_deps : ℕ → List String → Bool → Exec Err Chan Bool
  check_deps s [] failure = pure failure
  check_deps s (dep ∷ deps) failure =
      check_dep s dep (lookup dep p.services) failure >>= λ failure'. check_deps s deps failure'

  -- `base.Dependencies()` dereferences `base`.
  unfoldable pub check_service : ℕ → Option Object → Bool → Exec Err Chan Bool
  check_service s none failure = nil_panic
  check_service s (some o) failure = check_deps s (dependencies o) failure

  unfoldable pub check_services : Maestro → Bool → Exec Err Chan Bool
  check_services [] failure = pure failure
  check_services ((name, s) ∷ rest) failure =
      check_service s (service_base p s) failure >>= λ failure'. check_services rest failure'

  unfoldable pub has_missing_deps : Exec Err Chan Bool
  has_missing_deps = check_services p.services false

-- A write to a slice; out of range it panics.
unfoldable pub set_at : List String → ℕ → String → Option (List String)
set_at [] i v = none
set_at (x ∷ xs) zero v = some (v ∷ xs)
set_at (x ∷ xs) (suc i) v = Option.map (λ r. x ∷ r) (set_at xs i v)

-- `make([]string, n)`
unfoldable pub empty_strings : ℕ → List String
empty_strings zero = []
empty_strings (suc n) = "" ∷ empty_strings n

-- `for dep, lvl := range met { circularDeps[lvl] = dep }`
unfoldable pub fill : List (String × ℕ) → List String → Option (List String)
fill [] deps = some deps
fill ((dep, lvl) ∷ met) deps = Option.bind (set_at deps lvl dep) (fill met)

-- The names met, in the order of their levels, and the one met again.
unfoldable pub circular_deps : List (String × ℕ) → String → ℕ → Option (List String)
circular_deps met cur lvl =
    Option.bind (fill met (empty_strings (length met + 1))) (λ deps. set_at deps lvl cur)

unfoldable pub first_of_list : List String → String
first_of_list [] = ""
first_of_list (x ∷ xs) = x

abbrev pub circular_error : Option ℕ → List String → Err
circular_error s deps =
    with_stack (record (error_of dependency_circular) { service = s; circular_deps = deps })

-- `if … { return true }` in a loop.
abbrev pub stop_or : Bool → Exec Err Chan Bool → Exec Err Chan Bool
stop_or true rest = pure true
stop_or false rest = rest

-- The loop over the dependencies, which stops at the first circle.
unfoldable pub any_dep : (String → Exec Err Chan Bool) → List String → Exec Err Chan Bool
any_dep visit [] = pure false
any_dep visit (dep ∷ deps) = visit dep >>= λ found. stop_or found (any_dep visit deps)

module _ (p : Program) where
  -- The object behind `cur`, if it is not nil.
  unfoldable pub object_at : Option ℕ → Option Object
  object_at none = none
  object_at (some s) = service_base p s

  report_to : Option (List String) → Exec Err Chan Bool
  report_to none = panic (foreign "index out of range")
  report_to (some deps) =
      push (circular_error (lookup (first_of_list deps) p.services) deps) >> pure true

  -- `cur` was met before.
  unfoldable pub report : List (String × ℕ) → String → ℕ → Exec Err Chan Bool
  unfolding report_to
  report met cur lvl = report_to (circular_deps met cur lvl)

  -- The body of hasCircularDepsRec for a service with its name and dependencies; `visit` is the
  -- recursive call.
  unfoldable pub descend :
      (String → List (String × ℕ) → ℕ → Exec Err Chan Bool)
      → String
      → List String
      → List (String × ℕ)
      → ℕ
      → Exec Err Chan Bool
  descend visit name deps met lvl = elim (lookup name met) [
    | some _ ↦ report met name lvl
    | none ↦ any_dep (λ dep. visit dep (insert name lvl met) (lvl + 1)) deps
  ]

  -- hasCircularDepsRec, without `parent`, which is only logged. Each call takes one unit of the stack.
  unfoldable pub circular_rec : ℕ → Option ℕ → List (String × ℕ) → ℕ → Exec Err Chan Bool
  circular_rec zero cur met lvl = panic (foreign "stack overflow")
  circular_rec (suc fuel) cur met lvl = elim (object_at cur) [
    | none ↦ nil_panic
    | some o ↦
        descend (λ dep. circular_rec fuel (lookup dep p.services)) o.name (dependencies o) met lvl
  ]

  -- The loop of hasCircularDeps.
  unfoldable pub circular_from : ℕ → Maestro → Exec Err Chan Bool
  circular_from fuel [] = pure false
  circular_from fuel ((name, s) ∷ rest) =
      circular_rec fuel (some s) [] 0 >>= λ found. stop_or found (circular_from fuel rest)

  unfoldable pub has_circular_deps : ℕ → Exec Err Chan Bool
  has_circular_deps fuel = circular_from fuel p.services
