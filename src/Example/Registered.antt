-- ===== src/Example/Registered.antt =====
-- example/main.go: the services that main registers.
use bandmaster.Base.{
  ◌≢◌, nat_eq, ℕ, ◌≡◌, refl, sym, ◌∙◌, String, true, false, Option, none, some, returned, panicked,
  inl, inr, arith, [], ◌∷◌,
}
use bandmaster.Base.Dict.{lookup, insert, member}
use bandmaster.Errors.{foreign}
use bandmaster.Errors.Text.{nil_dereference}
use bandmaster.ServiceBase.{
  Object, new_service_base, set_name, set_required, set_retry_conf, add_dependency, add_one,
}
use bandmaster.Registry.{
  Program, new_maestro, add_service, add_service_with_backoff, add_if_free, add_to_base, configure,
  service_base, service,
}
use bandmaster.Registry.Valid.{IsRegistry}
use bandmaster.Base.Dict.{keys, are_distinct, are_distinct-Distinct, not_in_by_test}
use bandmaster.ServiceBase.{dependencies}
use bandmaster.Registry.Valid.{IsEntry}
use bandmaster.Boot.StartAll.{start_checks, start_err_c, store_of, object_or_new}
use bandmaster.Deps.Missing.{missing_errors, errors_of, deps_of, error_for}
use bandmaster.Boot.Returns.{false_ne_true}
use bandmaster.Boot.Checks.{IsBootable, start_checks-decides}
use bandmaster.Deps.{
  has_missing_deps, check_services, check_service, check_deps, check_dep, has_circular_deps,
  circular_from, circular_rec, object_at, descend, any_dep,
}
use bandmaster.Example.Defs.{add_services, config_of, before_main, in_use}

-- Where NewEnv of memcached fails, main panics before it registers anything; where only that of redis
-- fails, it panics with three services registered.
pub add_services-panics :
    {Memcached Redis : Type 0} (e : Memcached) (r : Option Redis)
    → (add_services {Memcached = Memcached} {Redis = Redis} none r before_main
        ≡ (panicked (foreign nil_dereference), before_main))
      × ((add_services {Memcached = Memcached} {Redis = Redis} (some e) none before_main).0
          ≡ panicked (foreign nil_dereference))
unfolding add_services config_of add_service add_service_with_backoff add_if_free add_to_base
    configure service_base set_name set_required set_retry_conf add_dependency add_one lookup insert
    member new_service_base new_maestro
add_services-panics e r = (refl, refl)

-- The program behind the registration.
abbrev pub example : Program
example = (add_services (some tt) (some tt) before_main).1

entry :
    (i : ℕ) (o : Object) (name : String)
    → example.objects i ≡ some o
    → o.name ≡ name
    → member name o.direct_deps ≡ false
    → are_distinct o.direct_deps ≡ true
    → IsEntry example.objects (name, i)
entry i o name stored named others once = record {
  object = o;
  stored = stored;
  named = named;
  others = not_in_by_test name o.direct_deps others;
  once = are_distinct-Distinct o.direct_deps once;
}

apart : (a b : ℕ) → nat_eq a b ≡ false → a ≢ b
apart a b other e = ground (arith, e, other)

example-IsRegistry : IsRegistry example
unfolding add_services config_of add_service add_service_with_backoff add_if_free add_to_base
    configure service_base set_name set_required set_retry_conf add_dependency add_one lookup insert
    member new_service_base new_maestro object_or_new are_distinct
example-IsRegistry = record {
  entries = (
    entry 0 (store_of example 0) "mc-1" refl refl refl refl,
    (
      entry 1 (store_of example 1) "mc-2" refl refl refl refl,
      (
        entry 2 (store_of example 2) "mc-3" refl refl refl refl,
        (
          entry 3 (store_of example 3) "rd-1" refl refl refl refl,
          (entry 4 (store_of example 4) "mc-x" refl refl refl refl, tt),
        ),
      ),
    ),
  );
  names = are_distinct-Distinct (keys example.services) refl;
  addresses = (
    (apart 0 1 refl, (apart 0 2 refl, (apart 0 3 refl, (apart 0 4 refl, tt)))),
    (
      (apart 1 2 refl, (apart 1 3 refl, (apart 1 4 refl, tt))),
      ((apart 2 3 refl, (apart 2 4 refl, tt)), ((apart 3 4 refl, tt), (tt, tt))),
    ),
  );
}

checked : start_checks example 6 (start_err_c example) ≡ (returned false, start_err_c example)
unfolding add_services config_of add_service add_service_with_backoff add_if_free add_to_base
    configure service_base set_name set_required set_retry_conf add_dependency add_one lookup insert
    member new_service_base new_maestro start_checks has_missing_deps check_services check_service
    check_deps check_dep dependencies has_circular_deps circular_from circular_rec object_at descend
    any_dep
checked = refl

-- The services that main asks for behind the boot are the first four.
pub in_use-example : in_use example ≡ some 0 ∷ some 1 ∷ some 2 ∷ some 3 ∷ []
unfolding in_use service add_services config_of add_service add_service_with_backoff add_if_free
    add_to_base configure service_base set_name set_required set_retry_conf add_dependency add_one
    lookup insert member new_service_base new_maestro
in_use-example = refl

-- With both environments, main registers its five services, whatever the configurations are: their
-- names are distinct, no service depends on itself or twice on another, each dependency is registered
-- in the end, though "rd-1" was not when "mc-1" named it, and there is no circle.
pub add_services-IsBootable :
    {Memcached Redis : Type 0} (mc : Memcached) (rd : Redis)
    → (add_services (some mc) (some rd) before_main ≡ (returned tt, example))
      × IsRegistry example
      × IsBootable example
unfolding add_services config_of add_service add_service_with_backoff add_if_free add_to_base
    configure service_base set_name set_required set_retry_conf add_dependency add_one lookup insert
    member new_service_base new_maestro missing_errors errors_of deps_of error_for
add_services-IsBootable mc rd = (
  refl,
  example-IsRegistry,
  elim (start_checks-decides example 6 example-IsRegistry (omega arith) (omega arith)) [
    | inl (refusal, not) ↦ absurd (false_ne_true (sym checked ∙ refusal.checked))
    | inr (went_on, boots) ↦ boots
  ],
)
