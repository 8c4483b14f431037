-- ===== src/Lifetime/Restart.antt =====
-- maestro.go: a program that stops its services and starts them again, whatever it did before.
use bandmaster.Lifetime.Keeps.{IsNew, Uses-IsKept}
use bandmaster.Base.{ℕ, ◌^◌, ◌<◌, ◌≡◌, sym, subst, String, true, [], In, length}
use bandmaster.Base.Dict.{values}
use bandmaster.Channel.{Chan}
use bandmaster.ServiceBase.{Object}
use bandmaster.Registry.{Program}
use bandmaster.Boot.Checks.{IsBootable}
use bandmaster.Boot.Completes.{StartAll-can_return}
use bandmaster.Boot.Later.{later, later-IsBootable}
use bandmaster.Boot.StartAll.{StartAll, store_of, object_or_new}
use bandmaster.Shutdown.Completes.{StopAll-can_return}
use bandmaster.Shutdown.Effects.{Winds}
use bandmaster.Shutdown.Later.{shutdown-Winds}
use bandmaster.Shutdown.StopAll.{StopAll, wound_down}
use bandmaster.Lifetime.Defs.{Uses}
use bandmaster.Lifetime.Invariant.{IsKept, StopAll-IsKept}

StopAll-Winds :
    (p : Program) (ctx_err : String) (objects : ℕ → Object) (d : Chan)
    → IsKept p
    → StopAll p.services ctx_err (store_of p) objects d
    → Winds (store_of p) objects
StopAll-Winds p ctx_err objects d kept (wound_down t d' r ended shut) =
    shutdown-Winds p ctx_err kept.registry kept.sound t r

module _ (fuel : ℕ) (p q : Program) (stop_ctx start_ctx : String) (new : IsNew p)
    (uses : Uses fuel p q) (boots : IsBootable q)
    (small : (i : ℕ) → (store_of q i).retries < 2 ^ 64) (deep : length q.services < fuel) where
  -- However a program has used a new Maestro over services that are new, by AddServiceWithBackoff of
  -- services that were not registered before, by StartAll and StopAll, whatever each came to, and by
  -- `Started` and `Stopped`, where the dependencies of its services are now registered and without a
  -- circle and the numbers of retries fit in 64 bits, with a stack deeper than the number of
  -- services: StopAll can return with every service of the map stopped and no error, and behind it
  -- StartAll can return with every service of the map started and no error.
  pub can_restart :
      (objects objects' : ℕ → Object) × (d d' : Chan) × StopAll q.services stop_ctx
        (store_of q)
        objects
        d
      × ((i : ℕ) → In i (values q.services) → (objects i).stopped ≡ true)
      × (d.buffer ≡ [])
      × StartAll (later q objects) fuel start_ctx objects' d'
      × ((i : ℕ) → In i (values q.services) → (objects' i).started ≡ true)
      × (d'.buffer ≡ [])
  unfolding object_or_new
  can_restart =
      let kept = Uses-IsKept fuel p q new uses in
      let (objects, d, run, down, quiet, shut) =
        StopAll-can_return q stop_ctx kept.registry kept.sound boots.no_circle small in
      let kept' = StopAll-IsKept q stop_ctx kept objects d run in
      let winds = StopAll-Winds q stop_ctx objects d kept run in
      let (objects', d', run', up, quiet', shut') =
        StartAll-can_return (later q objects) fuel start_ctx kept'.registry deep
          (later-IsBootable q kept.registry objects (λ i. (winds i).named) (λ i. (winds i).deps)
            boots)
          kept'.orderly kept'.sound
          (λ i. subst (λ n. n < 2 ^ 64) (sym (winds i).retry) (small i)) in
      (objects, objects', d, d', run, down, quiet, run', up, quiet')
