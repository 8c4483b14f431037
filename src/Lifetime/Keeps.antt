-- ===== src/Lifetime/Keeps.antt =====
-- maestro.go: what holds of a Maestro behind any calls on it.
use bandmaster.Base.{ℕ, ◌≡◌, ap, subst}
use bandmaster.Channel.{make}
use bandmaster.ServiceBase.{new_service_base}
use bandmaster.ServiceBase.Invariant.{new-IsValid}
use bandmaster.Registry.{Program, new_maestro}
use bandmaster.Registry.Add.{add-returns_iff}
use bandmaster.Boot
use bandmaster.Boot.StartAll.{store_of}
use bandmaster.Shutdown
use bandmaster.Lifetime.Defs.{Uses, unused, registers, starts, stops, asks_started, asks_stopped}
use bandmaster.Lifetime.Invariant.{
  IsKept, boot-IsKept, shutdown-IsKept, StartAll-IsKept, StopAll-IsKept,
}
use bandmaster.Lifetime.Registers.{add-IsKept}

-- NewMaestro, and services that nobody has used.
pub record IsNew (p : Program) : Type 0 where
  pub empty : p.services ≡ new_maestro
  pub fresh : (i : ℕ) → store_of p i ≡ new_service_base

new-IsKept : (p : Program) → IsNew p → IsKept p
unfolding new_maestro new_service_base
new-IsKept p new = record {
  registry = record {
    entries = rw new.empty tt;
    names = rw new.empty tt;
    addresses = rw new.empty tt;
  };
  sound = λ i. rw (new.fresh i) new-IsValid;
  orderly = λ i on. absurd (let off = ap (λ o. o.started) (new.fresh i) in cc);
  idle = λ i other. ap (λ o. o.started) (new.fresh i);
  free = λ i other. ap (λ o. o.direct_deps) (new.fresh i);
}

module _ (fuel : ℕ) (p : Program) where
  IsKept-through : (q : Program) → IsKept p → Uses fuel p q → IsKept q
  IsKept-through q kept unused = kept
  IsKept-through q kept
        (registers r q' name req max_retries initial_backoff s deps before absent added) =
      subst IsKept (ap (λ x. x.1) added) (
        add-IsKept name req max_retries initial_backoff s deps r (IsKept-through r kept before)
          absent
          ((add-returns_iff name req max_retries initial_backoff s deps r).0 (ap (λ x. x.0) added)))
  IsKept-through q kept (starts r ctx_err objects d before run) =
      StartAll-IsKept r ctx_err (IsKept-through r kept before) fuel objects d run
  IsKept-through q kept (stops r ctx_err objects d before run) =
      StopAll-IsKept r ctx_err (IsKept-through r kept before) objects d run
  IsKept-through q kept (asks_started r j before) =
      boot-IsKept r "" (IsKept-through r kept before) (make 0) _
        (Boot.next_step Boot.here (Boot.outside j))
  IsKept-through q kept (asks_stopped r j before) =
      shutdown-IsKept r "" (IsKept-through r kept before) _
        (Shutdown.next_step Shutdown.here (Shutdown.outside j))

  -- However a program uses a new Maestro over services that are new: by AddServiceWithBackoff of
  -- services that are not registered yet, by StartAll and StopAll, whatever each came to, and by
  -- `Started` and `Stopped`, any number of them in any order: no name and no service is registered
  -- twice, no service depends on itself or twice on another, every ServiceBase is valid, each
  -- service that is started is registered, and so are its dependencies, which are started.
  pub Uses-IsKept : (q : Program) → IsNew p → Uses fuel p q → IsKept q
  Uses-IsKept q new uses = IsKept-through q (new-IsKept p new) uses
