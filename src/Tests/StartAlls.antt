-- ===== src/Tests/StartAlls.antt =====
-- StartAll over a registry that boots, and over one that it refuses.
use bandmaster.Base.{
  ◌<◌, ◌≤◌, ◌^◌, inr, sym, ◌∙◌, ◌⊎◌, ◌≢◌, returned, In, ℕ, zero, suc, ◌≡◌, refl, false, [], ◌∷◌,
  inl, true, arith,
}
use bandmaster.Base.Dict.{lookup, insert, values}
use bandmaster.Channel.{Chan, send, make, close}
use bandmaster.ServiceBase.{Object, new_service_base, dependencies}
use bandmaster.Registry.{Program, service_base}
use bandmaster.Boot.{finished}
use bandmaster.Boot.StartAll.{
  StartAll, refused, ran, start_err_c, start_checks, store_of, object_or_new,
}
use bandmaster.Boot.Returns.{IsOrderly, StartAll-settles, false_ne_true}
use bandmaster.Boot.Checks.{IsBootable, IsRefused, start_checks-decides}
use bandmaster.Deps.{
  push, has_missing_deps, check_services, check_service, check_deps, check_dep, has_circular_deps,
  circular_from, circular_rec, object_at, descend, any_dep, missing_error,
}
use bandmaster.Deps.Missing.{missing_errors, errors_of, deps_of, error_for}
use bandmaster.Goroutines.Ledger.{IsSettled}
use bandmaster.Boot.Objects.{is_started}
use bandmaster.Boot.Moves.{IsUp, GoesOn}
use bandmaster.Goroutines.Ranks.{sum}
use bandmaster.Boot.Completes.{StartAll-can_return}
use bandmaster.Boot.Ends.{steps_of, most_steps, steps_of-bounded}
use bandmaster.Boot.Progress.{boot-GoesOn}
use bandmaster.Tests.Boots.{
  sound, s8, reached_s8, calm_s8, program, services, s10, orderly, reached_s10,
}
use bandmaster.Tests.Data.{pair, pair-IsRegistry, two-IsRegistry}

-- StartAll over the two services.
pub checked : start_checks program 3 (start_err_c program) ≡ (returned false, start_err_c program)
unfolding start_checks has_missing_deps check_services check_service check_deps check_dep
    service_base dependencies lookup has_circular_deps circular_from circular_rec object_at descend
    any_dep insert
checked = refl

done : (i : ℕ) → In i (values services) → s10.pcs i ≡ finished
done i (inl e) = rw e refl
done i (inr (inl e)) = rw e refl
done i (inr (inr x)) = absurd x

run : StartAll program 3 "cancelled" s10.objects (record (make 2) { closed = true })
unfolding close
run = ran (start_err_c program) _ s10 checked reached_s10 done refl

-- StartAll where `b` depends on a service that is not registered.
abbrev incomplete : Program
incomplete = pair ("c" ∷ [])

abbrev told : Chan
told = record (make 2) { buffer = missing_error 1 "c" ∷ []; closed = true }

refusal : StartAll incomplete 3 "cancelled" (store_of incomplete) told
unfolding start_checks has_missing_deps check_services check_service check_deps check_dep
    service_base dependencies lookup has_circular_deps circular_from circular_rec object_at descend
    any_dep insert push send close
refusal = refused (record (make 2) { buffer = missing_error 1 "c" ∷ [] }) told refl refl

none_up : IsOrderly incomplete
unfolding new_service_base object_or_new
none_up zero on = absurd (cc)
none_up (suc zero) on = absurd (cc)
none_up (suc (suc i)) on = absurd (cc)

StartAll-settles_example :
    (told.closed ≡ true)
    × (((¬ IsBootable incomplete)
          × (store_of incomplete ≡ store_of incomplete)
          × (told.buffer ≢ []))
        ⊎ (IsBootable incomplete
            × ((i : ℕ)
                → In i (values incomplete.services)
                → IsSettled is_started "cancelled" (store_of incomplete) told i)))
unfolding missing_errors errors_of deps_of error_for lookup
StartAll-settles_example =
    StartAll-settles incomplete 3 "cancelled" (pair-IsRegistry "c" refl) (omega arith) (omega arith)
      none_up (store_of incomplete) told refusal

pub bootable : IsBootable program
unfolding missing_errors errors_of deps_of error_for lookup
bootable = elim (start_checks-decides program 3 two-IsRegistry (omega arith) (omega arith)) [
  | inl (refusal, not) ↦ absurd (false_ne_true (sym checked ∙ refusal.checked))
  | inr (same, boots) ↦ boots
]

boot-GoesOn_example :
    ((i : ℕ) → In i (values services) → IsUp s8 i) ⊎ GoesOn services "cancelled" s8
boot-GoesOn_example =
    boot-GoesOn program "cancelled" two-IsRegistry bootable orderly sound s8 reached_s8 refl calm_s8

start_checks-decides_example :
    (IsRefused program 3 × ¬ IsBootable program)
    ⊎ ((start_checks program 3 (start_err_c program) ≡ (returned false, start_err_c program))
        × IsBootable program)
unfolding missing_errors errors_of deps_of error_for lookup
start_checks-decides_example =
    start_checks-decides program 3 two-IsRegistry (omega arith) (omega arith)

pub small : (i : ℕ) → (store_of program i).retries < 2 ^ 64
unfolding object_or_new new_service_base
small zero = omega arith
small (suc zero) = omega arith
small (suc (suc i)) = omega arith

-- The boot of the two services took ten steps.
steps_of-bounded_example :
    steps_of services "cancelled" reached_s10
    ≤ sum (λ i. most_steps (store_of program i)) (values services)
steps_of-bounded_example = steps_of-bounded program "cancelled" orderly sound small s10 reached_s10

StartAll-can_return_example :
    (objects : ℕ → Object) × (d : Chan) × StartAll program 3 "cancelled" objects d
    × ((i : ℕ) → In i (values services) → (objects i).started ≡ true)
    × (d.buffer ≡ [])
    × (d.closed ≡ true)
StartAll-can_return_example =
    StartAll-can_return program 3 "cancelled" two-IsRegistry (omega arith) bootable orderly sound
      small
