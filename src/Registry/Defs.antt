-- ===== src/Registry/Defs.antt =====
-- maestro.go: Maestro, NewMaestro, AddService, AddServiceWithBackoff, Service and serviceBase, and the
-- package-level Maestro. The Maestro's lock is held throughout each, so each is one step.
use bandmaster.Base.{
  ℕ, String, Bool, Option, none, some, List, [], Outcome, Exec, panic, pure, and_then,
}
use bandmaster.Base.Dict.{lookup, insert}
use bandmaster.Base.Family.{update}
use bandmaster.Errors.{Err, plain, error_of, service_already_exists, service_without_base}
use bandmaster.ServiceBase.{Object, set_name, set_required, set_retry_conf, add_dependency}

-- The services of a Maestro are pointers: addresses in the store of `Program`.
abbrev pub Maestro : Type 0
Maestro = List (String × ℕ)

-- A Maestro with the objects of the program: `none` is a service that embeds no ServiceBase.
pub record Program : Type 0 where
  pub services : Maestro
  pub objects : ℕ → Option Object

unfoldable pub new_maestro : Maestro
new_maestro = []

-- The reflection in `serviceBase` finds the embedded ServiceBase, or nil.
unfoldable pub service_base : Program → ℕ → Option Object
service_base p s = p.objects s

-- The four calls on the ServiceBase, in order.
unfoldable pub configure :
    String → Bool → ℕ → ℕ → List String → Object → Outcome Err (Unit {0}) × Object
configure name req max_retries initial_backoff deps o =
    add_dependency deps
      (set_retry_conf max_retries initial_backoff (set_required req (set_name name o)))

-- What `configure` did to the object stays, also when it panicked.
register : String → ℕ → Outcome Err (Unit {0}) × Object → Exec Err Program (Unit {0})
register name s (r, o) p =
    and_then r (λ _ q. pure tt (record q { services = insert name s q.services }))
      (record p { objects = update p.objects s (some o) })

module _ (name : String) (req : Bool) (max_retries initial_backoff s : ℕ) (deps : List String) where
  -- The second check of AddServiceWithBackoff and what follows it.
  unfoldable pub add_to_base : Option Object → Exec Err Program (Unit {0})
  unfolding register
  add_to_base none = panic (plain (record (error_of service_without_base) { service_name = name }))
  add_to_base (some base) =
      register name s (configure name req max_retries initial_backoff deps base)

  -- The first check.
  unfoldable pub add_if_free : Option ℕ → Option Object → Exec Err Program (Unit {0})
  add_if_free (some _) base =
      panic (plain (record (error_of service_already_exists) { service_name = name }))
  add_if_free none base = add_to_base base

  unfoldable pub add_service_with_backoff : Exec Err Program (Unit {0})
  unfolding service_base
  add_service_with_backoff p = add_if_free (lookup name p.services) (service_base p s) p

unfoldable pub add_service : String → Bool → ℕ → List String → Exec Err Program (Unit {0})
add_service name req s deps = add_service_with_backoff name req 0 0 s deps

-- `Service`: nil for a name that is not registered.
unfoldable pub service : String → Program → Option ℕ
service name p = lookup name p.services

-- `GlobalMaestro` and `ReplaceGlobalMaestro`, over the package-level variable.
unfoldable pub global_maestro : ℕ → ℕ × ℕ
global_maestro gm = (gm, gm)

unfoldable pub replace_global_maestro : ℕ → ℕ → ℕ × ℕ
replace_global_maestro m gm = (gm, m)
