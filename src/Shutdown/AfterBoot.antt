-- ===== src/Shutdown/AfterBoot.antt =====
-- maestro.go: StopAll behind StartAll, over the same services.
use bandmaster.Base.{ℕ, ◌≡◌, String, true, In}
use bandmaster.ServiceBase.Invariant.{IsValid}
use bandmaster.Registry.{Program}
use bandmaster.Registry.Valid.{IsRegistry}
use bandmaster.Boot
use bandmaster.Boot.Later.{later, boot-IsRegistry, boot-IsOrderly, boot-IsValid}
use bandmaster.Boot.StartAll.{launch, start_err_c, store_of, object_or_new}
use bandmaster.Boot.Returns.{IsOrderly}
use bandmaster.Shutdown.Defs.{stop_launch, System, Reach, needs}
use bandmaster.Shutdown.Orderly.{shutdown-IsStopped}

module _ (p : Program) (start_ctx stop_ctx : String) (valid : IsRegistry p) (orderly : IsOrderly p)
    (sound : (i : ℕ) → IsValid (store_of p i)) (t : Boot.System)
    (r : Boot.Reach p.services start_ctx (launch p (start_err_c p)) t) where
  -- Where StopAll runs behind a StartAll over the same registry, whose services were valid before it,
  -- those that were started with their dependencies started, and whatever that one came to: in every
  -- state
  -- that the goroutines of StopAll can reach, a registered service that is stopped has no registered
  -- service that runs and depends on it.
  pub boot_then-IsStopped :
      (u : System)
      → Reach p.services stop_ctx (stop_launch p.services t.objects) u
      → (i j : ℕ) (name parent : String) → In (name, i) p.services
      → (u.objects i).stopped ≡ true
      → In (parent, j) p.services
      → needs u.objects j i ≡ true
      → (u.objects j).stopped ≡ true
  unfolding object_or_new
  boot_then-IsStopped u q i j name parent =
      shutdown-IsStopped (later p t.objects) stop_ctx
        (boot-IsRegistry p start_ctx (start_err_c p) orderly t r valid)
        (boot-IsOrderly p start_ctx (start_err_c p) orderly t r)
        (boot-IsValid p start_ctx (start_err_c p) orderly t r sound) u q i j name parent
