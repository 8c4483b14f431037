-- ===== src/Shutdown/Cycle.antt =====
-- maestro.go: a program that starts its services and stops them again.
use bandmaster.Base.{ℕ, ◌^◌, ◌<◌, ◌≡◌, sym, subst, String, true, [], In}
use bandmaster.Base.Dict.{values}
use bandmaster.Channel.{Chan}
use bandmaster.ServiceBase.{Object}
use bandmaster.ServiceBase.Invariant.{IsValid}
use bandmaster.Registry.{Program}
use bandmaster.Registry.Valid.{IsRegistry}
use bandmaster.Deps.Graph.{IsCircle}
use bandmaster.Boot
use bandmaster.Boot.Later.{later, earlier-IsCircle, boot-IsValid, boot-IsRegistry}
use bandmaster.Boot.Refinement.{Reach-Grows}
use bandmaster.Boot.StartAll.{launch, start_err_c, store_of, object_or_new}
use bandmaster.Boot.Returns.{IsOrderly, launch-IsFreshBoot}
use bandmaster.Shutdown.StopAll.{StopAll}
use bandmaster.Shutdown.Completes.{StopAll-can_return}

module _ (p : Program) (start_ctx stop_ctx : String) (valid : IsRegistry p)
    (no_circle : (a : String) → ¬ IsCircle p a) (orderly : IsOrderly p)
    (sound : (i : ℕ) → IsValid (store_of p i))
    (small : (i : ℕ) → (store_of p i).retries < 2 ^ 64) where
  -- Over a registry without a circle of dependencies, of valid services of which those that are
  -- started have their dependencies started, and whose numbers of retries fit in 64 bits: behind any
  -- steps of the goroutines of a StartAll, whatever it came to, StopAll can return with every service
  -- of the map stopped and no error in `errC`, which is closed.
  pub boot_then_shutdown :
      (t : Boot.System)
      → Boot.Reach p.services start_ctx (launch p (start_err_c p)) t
      → (objects : ℕ → Object) × (d : Chan) × StopAll p.services stop_ctx t.objects objects d
        × ((i : ℕ) → In i (values p.services) → (objects i).stopped ≡ true)
        × (d.buffer ≡ [])
        × (d.closed ≡ true)
  unfolding object_or_new
  boot_then_shutdown t r =
      let fresh = launch-IsFreshBoot p start_ctx (start_err_c p) orderly in
      let grows = Reach-Grows p.services start_ctx (launch p (start_err_c p)) t fresh r in
      StopAll-can_return (later p t.objects) stop_ctx
        (boot-IsRegistry p start_ctx (start_err_c p) orderly t r valid)
        (boot-IsValid p start_ctx (start_err_c p) orderly t r sound)
        (λ a circle. no_circle a (
          earlier-IsCircle p valid t.objects (λ i. (grows i).named) (λ i. (grows i).deps) a circle))
        (λ i. subst (λ n. n < 2 ^ 64) (sym (grows i).retry) (small i))
