-- ===== src/Errors/Panics.antt =====
-- errors.go: when the method `Error` of an error panics.
use bandmaster.Base.{
  ℕ, String, Bool, true, false, Option, none, some, List, ◌≡◌, refl, ◌↔◌, panicked, returned,
}
use bandmaster.Errors.Defs.{
  ErrorKind, unknown, service_already_exists, service_without_base, service_depends_on_itself,
  service_duplicate_dependency, parent_unavailable, other, dependency_missing, dependency_circular,
  dependency_unavailable, service_start_failure, service_stop_failure, Error,
}
use bandmaster.Errors.Text.{nil_dereference, with_name, by_kind, error}

-- The kinds whose text has the name of the service.
abbrev pub names_service : ErrorKind → Bool
names_service dependency_missing = true
names_service dependency_circular = true
names_service dependency_unavailable = true
names_service service_start_failure = true
names_service service_stop_failure = true
names_service _ = false

with_name-panics_iff :
    (name_of : ℕ → String) (s : Option ℕ) (pieces : String → List String)
    → (with_name name_of s pieces ≡ panicked nil_dereference) ↔ (s ≡ none)
unfolding with_name
with_name-panics_iff name_of none pieces = (λ e. refl, λ e. refl)
with_name-panics_iff name_of (some s) pieces = (λ e. cc, λ e. cc)

named :
    (k : ErrorKind) {P : Type 0} {s : Option ℕ}
    → names_service k ≡ true
    → P ↔ (s ≡ none)
    → P ↔ ((names_service k ≡ true) × (s ≡ none))
named k t h = (λ p. (t, h.0 p), λ q. h.1 q.1)

by_kind-panics_iff :
    (name_of : ℕ → String) (k : ErrorKind) (e : Error)
    → (by_kind name_of k e ≡ panicked nil_dereference)
      ↔ ((names_service k ≡ true) × (e.service ≡ none))
unfolding by_kind
by_kind-panics_iff name_of unknown e = (λ h. cc, λ h. cc)
by_kind-panics_iff name_of service_already_exists e = (λ h. cc, λ h. cc)
by_kind-panics_iff name_of service_without_base e = (λ h. cc, λ h. cc)
by_kind-panics_iff name_of service_depends_on_itself e = (λ h. cc, λ h. cc)
by_kind-panics_iff name_of service_duplicate_dependency e = (λ h. cc, λ h. cc)
by_kind-panics_iff name_of dependency_missing e =
    named dependency_missing refl (with_name-panics_iff name_of e.service _)
by_kind-panics_iff name_of dependency_circular e =
    named dependency_circular refl (with_name-panics_iff name_of e.service _)
by_kind-panics_iff name_of dependency_unavailable e =
    named dependency_unavailable refl (with_name-panics_iff name_of e.service _)
by_kind-panics_iff name_of parent_unavailable e = (λ h. cc, λ h. cc)
by_kind-panics_iff name_of service_start_failure e =
    named service_start_failure refl (with_name-panics_iff name_of e.service _)
by_kind-panics_iff name_of service_stop_failure e =
    named service_stop_failure refl (with_name-panics_iff name_of e.service _)
by_kind-panics_iff name_of (other n) e = (λ h. cc, λ h. cc)

-- `Error` panics exactly on an error of a kind whose text names the service, when there is none.
pub error-panics_iff :
    (name_of : ℕ → String) (e : Error)
    → (error name_of e ≡ panicked nil_dereference)
      ↔ ((names_service e.kind ≡ true) × (e.service ≡ none))
unfolding error
error-panics_iff name_of e = by_kind-panics_iff name_of e.kind e

with_name-returned :
    (name_of : ℕ → String) (s : Option ℕ) (i : ℕ) (pieces : String → List String)
    → s ≡ some i
    → (t : String) × (with_name name_of s pieces ≡ returned t)
unfolding with_name
with_name-returned name_of none i pieces named = absurd (cc)
with_name-returned name_of (some s) i pieces named = (_, refl)

by_kind-returned :
    (name_of : ℕ → String) (k : ErrorKind) (e : Error) (i : ℕ)
    → e.service ≡ some i
    → (t : String) × (by_kind name_of k e ≡ returned t)
unfolding by_kind
by_kind-returned name_of unknown e i named = (_, refl)
by_kind-returned name_of service_already_exists e i named = (_, refl)
by_kind-returned name_of service_without_base e i named = (_, refl)
by_kind-returned name_of service_depends_on_itself e i named = (_, refl)
by_kind-returned name_of service_duplicate_dependency e i named = (_, refl)
by_kind-returned name_of dependency_missing e i named =
    with_name-returned name_of e.service i _ named
by_kind-returned name_of dependency_circular e i named =
    with_name-returned name_of e.service i _ named
by_kind-returned name_of dependency_unavailable e i named =
    with_name-returned name_of e.service i _ named
by_kind-returned name_of parent_unavailable e i named = (_, refl)
by_kind-returned name_of service_start_failure e i named =
    with_name-returned name_of e.service i _ named
by_kind-returned name_of service_stop_failure e i named =
    with_name-returned name_of e.service i _ named
by_kind-returned name_of (other n) e i named = (_, refl)

-- The text of an error that has a service, whatever its kind.
pub error-returned :
    (name_of : ℕ → String) (e : Error) (i : ℕ)
    → e.service ≡ some i
    → (t : String) × (error name_of e ≡ returned t)
unfolding error
error-returned name_of e i named = by_kind-returned name_of e.kind e i named
