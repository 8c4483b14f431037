-- ===== src/Tests/Lifetimes.antt =====
-- A program that registers `a`, boots in vain, since `a` depends on `b`, and then registers `b`.
use bandmaster.Base.{
  ℕ, zero, suc, ◌^◌, ◌<◌, ◌≡◌, refl, sym, ◌∙◌, true, false, some, [], ◌∷◌, In, returned, inl, inr,
  arith,
}
use bandmaster.Base.Dict.{values, lookup, insert, member}
use bandmaster.Base.Family.{update}
use bandmaster.Channel.{Chan, make, send, close}
use bandmaster.ServiceBase.{
  Object, new_service_base, set_name, set_required, set_retry_conf, add_dependency, add_one,
  dependencies, started_channel, allocate,
}
use bandmaster.Registry.{
  Program, new_maestro, add_service_with_backoff, add_if_free, add_to_base, configure, service_base,
}
use bandmaster.Deps.{
  push, has_missing_deps, check_services, check_service, check_deps, check_dep, has_circular_deps,
  circular_from, circular_rec, object_at, descend, any_dep, missing_error,
}
use bandmaster.Boot.Checks.{IsBootable, start_checks-decides}
use bandmaster.Boot.Later.{later}
use bandmaster.Boot.Returns.{false_ne_true}
use bandmaster.Boot.StartAll.{StartAll, refused, start_err_c, start_checks, store_of, object_or_new}
use bandmaster.Shutdown.StopAll.{StopAll}
use bandmaster.Deps.Missing.{missing_errors, errors_of, deps_of, error_for}
use bandmaster.Lifetime.{Uses, unused, registers, starts, asks_started}
use bandmaster.Lifetime.Invariant.{IsKept}
use bandmaster.Lifetime.Keeps.{IsNew, Uses-IsKept}
use bandmaster.Lifetime.Restart.{can_restart}

abbrev begin : Program
begin = record { services = new_maestro; objects = λ i. some new_service_base }

begin-IsNew : IsNew begin
unfolding object_or_new
begin-IsNew = record { empty = refl; fresh = λ i. refl }

abbrev with_a : Program
with_a = (add_service_with_backoff "a" true 3 1000 0 ("b" ∷ []) begin).1

abbrev told : Chan
told = record (make 1) { buffer = missing_error 0 "b" ∷ []; closed = true }

refusal : StartAll with_a 3 "cancelled" (store_of with_a) told
unfolding add_service_with_backoff add_if_free add_to_base configure service_base set_name
    set_required set_retry_conf add_dependency add_one lookup insert member new_service_base
    new_maestro start_checks has_missing_deps check_services check_service check_deps check_dep
    dependencies push send close
refusal = refused (record (make 1) { buffer = missing_error 0 "b" ∷ [] }) told refl refl

abbrev refused_boot : Program
refused_boot = later with_a (store_of with_a)

abbrev with_b : Program
with_b = (add_service_with_backoff "b" true 3 1000 1 [] refused_boot).1

abbrev asked : Program
asked = later with_b (update (store_of with_b) 0 (started_channel (store_of with_b 0)).1)

first : Uses 3 begin with_a
unfolding add_service_with_backoff add_if_free add_to_base configure service_base set_name
    set_required set_retry_conf add_dependency add_one lookup insert member new_service_base
    new_maestro
first = registers begin with_a "a" true 3 1000 0 ("b" ∷ []) unused (λ x. x) refl

uses : Uses 3 begin asked
unfolding add_service_with_backoff add_if_free add_to_base configure service_base set_name
    set_required set_retry_conf add_dependency add_one lookup insert member new_service_base
    new_maestro object_or_new
uses = asks_started with_b 0 (
    registers refused_boot with_b "b" true 3 1000 1 []
      (starts with_a "cancelled" (store_of with_a) told first refusal)
      (λ x. elim x [ inl e ↦ omega (arith, e) | inr y ↦ y ]) refl)

Uses-IsKept_example : IsKept asked
Uses-IsKept_example = Uses-IsKept 3 begin asked begin-IsNew uses

checked : start_checks asked 3 (start_err_c asked) ≡ (returned false, start_err_c asked)
unfolding add_service_with_backoff add_if_free add_to_base configure service_base set_name
    set_required set_retry_conf add_dependency add_one lookup insert member new_service_base
    new_maestro start_checks has_missing_deps check_services check_service check_deps check_dep
    dependencies has_circular_deps circular_from circular_rec object_at descend any_dep
    object_or_new started_channel allocate
checked = refl

bootable : IsBootable asked
unfolding add_service_with_backoff add_if_free add_to_base configure service_base set_name
    set_required set_retry_conf add_dependency add_one lookup insert member new_service_base
    new_maestro missing_errors errors_of deps_of error_for object_or_new started_channel allocate
bootable =
    elim (start_checks-decides asked 3 (Uses-IsKept_example.registry) (omega arith) (omega arith)) [
      | inl (refusal, not) ↦ absurd (false_ne_true (sym checked ∙ refusal.checked))
      | inr (went_on, boots) ↦ boots
    ]

small : (i : ℕ) → (store_of asked i).retries < 2 ^ 64
unfolding add_service_with_backoff add_if_free add_to_base configure service_base set_name
    set_required set_retry_conf add_dependency add_one lookup insert member new_service_base
    new_maestro object_or_new started_channel allocate
small zero = omega arith
small (suc zero) = omega arith
small (suc (suc i)) = grind arith

can_restart_example :
    (objects objects' : ℕ → Object) × (d d' : Chan) × StopAll asked.services "cancelled"
      (store_of asked)
      objects
      d
    × ((i : ℕ) → In i (values asked.services) → (objects i).stopped ≡ true)
    × (d.buffer ≡ [])
    × StartAll (later asked objects) 3 "cancelled" objects' d'
    × ((i : ℕ) → In i (values asked.services) → (objects' i).started ≡ true)
    × (d'.buffer ≡ [])
unfolding add_service_with_backoff add_if_free add_to_base configure service_base set_name
    set_required set_retry_conf add_dependency add_one lookup insert member new_service_base
    new_maestro
can_restart_example =
    can_restart 3 begin asked "cancelled" "cancelled" begin-IsNew uses bootable small (omega arith)
