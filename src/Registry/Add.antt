-- ===== src/Registry/Add.antt =====
-- maestro.go: when AddServiceWithBackoff returns, and what it leaves behind.
use bandmaster.Base.{
  ℕ, ◌≡◌, refl, ◌≢◌, ◌↔◌, String, Bool, Option, none, some, List, ◌++◌, In, Distinct, All, Outcome,
  returned, panicked, blocked, Option-cases, inl, inr, ap, if◌then◌else◌, ◌==◌, and_then_returned,
  and_then, pure,
}
use bandmaster.Base.Dict.{lookup, insert, lookup-insert}
use bandmaster.Base.Family.{update, update_self, update_ne}
use bandmaster.Errors.{Err}
use bandmaster.ServiceBase.{Object, set_name, set_required, set_retry_conf}
use bandmaster.ServiceBase.Dependencies.{add_dependency-eq, add_dependency-returns_iff}
use bandmaster.Registry.Defs.{
  Program, configure, add_if_free, add_to_base, add_service_with_backoff, service,
}

module _ (name : String) (req : Bool) (max_retries initial_backoff s : ℕ) (deps : List String) where
  abbrev add : Program → Outcome Err (Unit {0}) × Program
  add = add_service_with_backoff name req max_retries initial_backoff s deps

  -- The ServiceBase after a successful AddService.
  abbrev pub configured : Object → Object
  configured o = record o {
    base = record o.base {
      name = name;
      required = req;
      retries = max_retries;
      initial_backoff = initial_backoff;
      direct_deps = o.direct_deps ++ deps;
    };
  }

  -- The name is free, the service embeds a ServiceBase, and the dependencies are new to it, given
  -- once, and not the service itself.
  pub record IsAcceptable (p : Program) : Type 0 where
    pub free : lookup name p.services ≡ none
    pub base : Object
    pub based : p.objects s ≡ some base
    pub others : ¬ In name deps
    pub once : Distinct deps
    pub unknown : All (λ d. ¬ In d base.direct_deps) deps

  -- The program after a successful AddService.
  abbrev pub added : Program → Object → Program
  added p o = record {
    services = insert name s p.services;
    objects = update p.objects s (some (configured o));
  }

  configure-eq :
      (o : Object)
      → (¬ In name deps)
      → Distinct deps
      → All (λ d. ¬ In d o.direct_deps) deps
      → configure name req max_retries initial_backoff deps o ≡ (returned tt, configured o)
  unfolding configure set_retry_conf set_required set_name
  configure-eq o others once unknown =
      add_dependency-eq deps _ (record { others = others; once = once; unknown = unknown })

  pub add-eq : (p : Program) (a : IsAcceptable p) → add p ≡ (returned tt, added p a.base)
  unfolding add_service_with_backoff add_if_free add_to_base
  add-eq p a = rw (a.free, a.based) (rw (configure-eq a.base a.others a.once a.unknown))

  register_returns :
      (o : Object) (p : Program)
      → (add_to_base name req max_retries initial_backoff s deps (some o) p).0 ≡ returned tt
      → (configure name req max_retries initial_backoff deps o).0 ≡ returned tt
  unfolding add_to_base
  register_returns o p h = let (_, e) = and_then_returned _ _ _ h in e

  configure_returns :
      (o : Object)
      → (configure name req max_retries initial_backoff deps o).0 ≡ returned tt
      → (¬ In name deps) × Distinct deps × All (λ d. ¬ In d o.direct_deps) deps
  unfolding configure set_retry_conf set_required set_name
  configure_returns o h =
      let a = (add_dependency-returns_iff deps _).0 h in (a.others, a.once, a.unknown)

  with_base_returns :
      (p : Program) (base : Option Object)
      → p.objects s ≡ base
      → lookup name p.services ≡ none
      → (add_to_base name req max_retries initial_backoff s deps base p).0 ≡ returned tt
      → IsAcceptable p
  unfolding add_to_base
  with_base_returns p none b f h = cc
  with_base_returns p (some o) b f h =
      let (others, once, unknown) = configure_returns o (register_returns o p h) in
      record { free = f; base = o; based = b; others = others; once = once; unknown = unknown }

  add_returns : (p : Program) → (add p).0 ≡ returned tt → IsAcceptable p
  unfolding add_service_with_backoff add_if_free
  add_returns p h = elim (Option-cases (lookup name p.services)) [
    | inl f ↦ with_base_returns p (p.objects s) refl f (rw f at h)
    | inr (r, e) ↦ let other = rw e at h in cc
  ]

  -- AddServiceWithBackoff returns, and does not panic, exactly if the name is free, the service
  -- embeds a ServiceBase, and the dependencies are new to it, given once, and not itself.
  pub add-returns_iff : (p : Program) → ((add p).0 ≡ returned tt) ↔ IsAcceptable p
  add-returns_iff p = (add_returns p, λ a. ap (λ r. r.0) (add-eq p a))

  -- What a successful AddServiceWithBackoff leaves: the name is bound to the service and every other
  -- name is bound as before; the ServiceBase has its settings and its new dependencies behind the
  -- old ones; no other object changes.
  pub add_registers :
      (p : Program) (a : IsAcceptable p)
      → ((j : String) → service j (add p).1 ≡ (if name == j then some s else service j p))
        × ((add p).1.objects s ≡ some (configured a.base))
        × ((i : ℕ) → s ≢ i → (add p).1.objects i ≡ p.objects i)
  unfolding service
  add_registers p a = rw (add-eq p a) (
    λ j. lookup-insert name j s p.services,
    update_self p.objects s (some (configured a.base)),
    λ i ne. update_ne p.objects s (some (configured a.base)) i ne,
  )

  and_then_services :
      (r : Outcome Err (Unit {0})) (q : Program)
      → (and_then r (λ _ q. pure tt (record q { services = insert name s q.services })) q).0
        ≢ returned tt
      → (and_then r
          (λ _ q. pure tt (record q { services = insert name s q.services }))
          q).1.services
        ≡ q.services
  and_then_services (returned a) q h = absurd (h refl)
  and_then_services (panicked x) q h = refl
  and_then_services blocked q h = refl

  with_base_services :
      (base : Option Object) (p : Program)
      → (add_to_base name req max_retries initial_backoff s deps base p).0 ≢ returned tt
      → (add_to_base name req max_retries initial_backoff s deps base p).1.services ≡ p.services
  unfolding add_to_base
  with_base_services none p h = refl
  with_base_services (some o) p h = and_then_services _ _ h

  if_free_services :
      (r : Option ℕ) (base : Option Object) (p : Program)
      → (add_if_free name req max_retries initial_backoff s deps r base p).0 ≢ returned tt
      → (add_if_free name req max_retries initial_backoff s deps r base p).1.services ≡ p.services
  unfolding add_if_free
  if_free_services none base p h = with_base_services base p h
  if_free_services (some r) base p h = refl

  -- An AddServiceWithBackoff that panics registers nothing: every name is bound as before.
  pub add_panics-services :
      (p : Program) → (add p).0 ≢ returned tt → (add p).1.services ≡ p.services
  unfolding add_service_with_backoff
  add_panics-services p h = if_free_services _ _ p h
