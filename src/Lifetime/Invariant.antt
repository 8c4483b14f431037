-- ===== src/Lifetime/Invariant.antt =====
-- maestro.go: what holds of a Maestro between two calls, and that StartAll and StopAll keep it.
use bandmaster.Base.{ℕ, ◌≡◌, ◌∙◌, inl, inr, String, false, [], In, Bool-cases}
use bandmaster.Base.Dict.{values}
use bandmaster.Channel.{Chan}
use bandmaster.ServiceBase.{Object}
use bandmaster.ServiceBase.Invariant.{IsValid}
use bandmaster.Registry.{Program}
use bandmaster.Registry.Valid.{IsRegistry}
use bandmaster.Boot
use bandmaster.Boot.Absent.{launch-IsAbsent}
use bandmaster.Boot.Later.{later, boot-IsValid, boot-IsOrderly, boot-IsRegistry}
use bandmaster.Boot.Refinement.{Reach-Grows}
use bandmaster.Boot.Returns.{IsOrderly, launch-IsFreshBoot}
use bandmaster.Boot.StartAll.{StartAll, refused, ran, launch, store_of, object_or_new}
use bandmaster.Shutdown
use bandmaster.Shutdown.Later.{
  shutdown-Winds, shutdown-IsRegistry, shutdown-IsValid, shutdown-IsOrderly, started_before,
}
use bandmaster.Shutdown.StopAll.{StopAll, wound_down}

-- The registry is in order, the services are valid, those that are started have their dependencies
-- registered and started, and those that are not registered are not started and depend on nothing.
pub record IsKept (p : Program) : Type 0 where
  pub registry : IsRegistry p
  pub sound : (i : ℕ) → IsValid (store_of p i)
  pub orderly : IsOrderly p
  pub idle : (i : ℕ) → ¬ In i (values p.services) → (store_of p i).started ≡ false
  pub free : (i : ℕ) → ¬ In i (values p.services) → (store_of p i).direct_deps ≡ []

module _ (p : Program) (ctx_err : String) (kept : IsKept p) where
  pub boot-IsKept :
      (c : Chan) (t : Boot.System)
      → Boot.Reach p.services ctx_err (launch p c) t
      → IsKept (later p t.objects)
  unfolding object_or_new
  boot-IsKept c t r = record {
    registry = boot-IsRegistry p ctx_err c kept.orderly t r kept.registry;
    sound = boot-IsValid p ctx_err c kept.orderly t r kept.sound;
    orderly = boot-IsOrderly p ctx_err c kept.orderly t r;
    idle = λ i other. launch-IsAbsent p ctx_err c t i r other ∙ kept.idle i other;
    free = λ i other.
        let fresh = launch-IsFreshBoot p ctx_err c kept.orderly in
        (Reach-Grows p.services ctx_err (launch p c) t fresh r i).deps ∙ kept.free i other;
  }

  pub shutdown-IsKept :
      (t : Shutdown.System)
      → Shutdown.Reach p.services ctx_err (Shutdown.stop_launch p.services (store_of p)) t
      → IsKept (later p t.objects)
  unfolding object_or_new
  shutdown-IsKept t r = record {
    registry = shutdown-IsRegistry p ctx_err kept.registry kept.sound t r;
    sound = shutdown-IsValid p ctx_err kept.registry kept.sound t r;
    orderly = shutdown-IsOrderly p ctx_err kept.registry kept.sound t r kept.orderly kept.idle;
    idle = λ i other. elim (Bool-cases (t.objects i).started) [
      | inr off ↦ off
      | inl on ↦
          let on_before = started_before p ctx_err kept.registry kept.sound t r i on in
          let off_before = kept.idle i other in absurd (cc)
    ];
    free = λ i other.
        (shutdown-Winds p ctx_err kept.registry kept.sound t r i).deps ∙ kept.free i other;
  }

  -- StartAll, whatever it came to.
  pub StartAll-IsKept :
      (fuel : ℕ) (objects : ℕ → Object) (d : Chan)
      → StartAll p fuel ctx_err objects d
      → IsKept (later p objects)
  unfolding object_or_new
  StartAll-IsKept fuel objects d (refused c d' checked shut) = boot-IsKept c (launch p c) Boot.here
  StartAll-IsKept fuel objects d (ran c d' t checked r ended shut) = boot-IsKept c t r

  pub StopAll-IsKept :
      (objects : ℕ → Object) (d : Chan)
      → StopAll p.services ctx_err (store_of p) objects d
      → IsKept (later p objects)
  StopAll-IsKept objects d (wound_down t d' r ended shut) = shutdown-IsKept t r
