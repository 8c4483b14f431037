-- ===== src/Tests/StopAlls.antt =====
-- StopAll over two services that are both up, `a` on `b`.
use bandmaster.Base.{
  [], ◌<◌, ◌≤◌, ◌^◌, ◌⊎◌, ◌≢◌, returned, In, ℕ, ◌≡◌, refl, sym, subst, ◌∙◌, none, some, inl, inr,
  true, false, arith, String,
}
use bandmaster.Base.Dict.{values, lookup}
use bandmaster.Errors.{Err}
use bandmaster.Channel.{Chan, make, receive, close}
use bandmaster.ServiceBase.{
  Object, new_service_base, start, started_channel, dependencies, allocate, each, at_channel,
}
use bandmaster.ServiceBase.Invariant.{IsValid}
use bandmaster.Registry.{Program}
use bandmaster.Registry.Valid.{IsRegistry}
use bandmaster.Deps.Graph.{IsCircle}
use bandmaster.Goroutines.Ledger.{IsSettled}
use bandmaster.Goroutines.Ranks.{sum}
use bandmaster.Registry.{service_base}
use bandmaster.Boot.Later.{boot-IsValid}
use bandmaster.Base.Dict.{insert}
use bandmaster.Boot.Returns.{false_ne_true, launch-IsFreshBoot}
use bandmaster.Boot.Refinement.{Reach-Grows}
use bandmaster.Boot.Checks.{start_checks-decides}
use bandmaster.Deps.{
  has_missing_deps, check_services, check_service, check_deps, check_dep, has_circular_deps,
  circular_from, circular_rec, object_at, descend, any_dep,
}
use bandmaster.Deps.Missing.{missing_errors, errors_of, deps_of, error_for}
use bandmaster.Boot.StartAll.{start_err_c, start_checks, store_of, object_or_new}
use bandmaster.Shutdown.{finished, failing, stop_launched}
use bandmaster.Shutdown.Objects.{is_stopped}
use bandmaster.Shutdown.StopAll.{StopAll, wound_down}
use bandmaster.Shutdown.Returns.{StopAll-settles, StopAll-succeeds}
use bandmaster.Shutdown.Moves.{IsDown, GoesOn}
use bandmaster.Shutdown.Progress.{shutdown-GoesOn}
use bandmaster.Shutdown.Completes.{StopAll-can_return}
use bandmaster.Shutdown.Ends.{steps_taken, most_stop_steps, steps_taken-bounded}
use bandmaster.Tests.StartAlls.{small as new_services_small}
use bandmaster.Tests.Data.{ne_by_test}
use bandmaster.Tests.Boots.{services, boot, program, orderly, sound, s10, reached_s10}
use bandmaster.Tests.Shutdowns.{objects, s8, s13, reached_s8, reached_s13}

down : (i : ℕ) → In i (values services) → s13.pcs i ≡ finished
down i (inl e) = rw e refl
down i (inr (inl e)) = rw e refl
down i (inr (inr x)) = absurd x

run : StopAll services "cancelled" objects s13.objects (record (make 3) { closed = true })
unfolding close
run = wound_down s13 _ reached_s13 down refl

StopAll-settles_example :
    ((record (make 3) { closed = true }).closed ≡ true)
    × ((i : ℕ)
        → In i (values services)
        → IsSettled is_stopped "cancelled" s13.objects (record (make 3) { closed = true }) i)
StopAll-settles_example = StopAll-settles services "cancelled" objects s13.objects _ run

StopAll-succeeds_example :
    ((i : ℕ) → In i (values services) → (s13.objects i).stopped ≡ true)
    × (receive (record (make 3) { closed = true })
        ≡ returned (none, record (make 3) { closed = true }))
StopAll-succeeds_example = StopAll-succeeds services "cancelled" objects s13.objects _ run refl

-- The services as the boot has left them.
abbrev booted : Program
booted = record { services = services; objects = λ i. some (objects i) }

booted-IsRegistry : IsRegistry booted
unfolding object_or_new new_service_base start started_channel allocate each at_channel close
booted-IsRegistry = record {
  entries = (
    record {
      object = objects 0;
      stored = refl;
      named = refl;
      others = λ i. elim i [ inl e ↦ ne_by_test "a" "b" refl e | inr x ↦ x ];
      once = (tt, tt);
    },
    (record { object = objects 1; stored = refl; named = refl; others = λ i. i; once = tt }, tt),
  );
  names = ((ne_by_test "a" "b" refl, tt), (tt, tt));
  addresses = ((λ e. omega (arith, e), tt), (tt, tt));
}

booted_sound : (i : ℕ) → IsValid (store_of booted i)
unfolding object_or_new
booted_sound i =
    boot-IsValid program "cancelled" (start_err_c program) orderly s10 reached_s10 sound i

checked : start_checks booted 3 (start_err_c booted) ≡ (returned false, start_err_c booted)
unfolding object_or_new new_service_base start started_channel allocate each at_channel close
    start_checks has_missing_deps check_services check_service check_deps check_dep service_base
    dependencies lookup has_circular_deps circular_from circular_rec object_at descend any_dep
    insert
checked = refl

never_circular : (a : String) → ¬ IsCircle booted a
unfolding missing_errors errors_of deps_of error_for lookup object_or_new new_service_base start
    started_channel allocate each at_channel close
never_circular =
    elim (start_checks-decides booted 3 booted-IsRegistry (omega arith) (omega arith)) [
      | inl (refusal, not) ↦ absurd (false_ne_true (sym checked ∙ refusal.checked))
      | inr (same, boots) ↦ boots.no_circle
    ]

calm : (i : ℕ) (e : Err) → s8.pcs i ≢ failing e
unfolding stop_launched
calm i e q = ground (arith, q)

-- Where `b` can go on, since `a` is stopped.
shutdown-GoesOn_example :
    ((i : ℕ) → In i (values services) → IsDown s8 i) ⊎ GoesOn services "cancelled" s8
unfolding object_or_new
shutdown-GoesOn_example =
    shutdown-GoesOn booted "cancelled" booted-IsRegistry booted_sound never_circular s8 reached_s8
      refl calm

small : (i : ℕ) → (objects i).retries < 2 ^ 64
small i =
    subst (λ n. n < 2 ^ 64)
      (sym
        (Reach-Grows services "cancelled" boot s10
          (launch-IsFreshBoot program "cancelled" (start_err_c program) orderly) reached_s10
          i).retry)
      (new_services_small i)

-- The shutdown of the two services took thirteen steps.
steps_taken-bounded_example :
    steps_taken services "cancelled" reached_s13
    ≤ sum (λ i. most_stop_steps services (objects i)) (values services)
unfolding object_or_new
steps_taken-bounded_example =
    steps_taken-bounded services "cancelled" objects booted_sound small s13 reached_s13

booted_small : (i : ℕ) → (store_of booted i).retries < 2 ^ 64
unfolding object_or_new
booted_small = small

StopAll-can_return_example :
    (objects' : ℕ → Object) × (d : Chan) × StopAll services "cancelled" (store_of booted) objects' d
    × ((i : ℕ) → In i (values services) → (objects' i).stopped ≡ true)
    × (d.buffer ≡ [])
    × (d.closed ≡ true)
StopAll-can_return_example =
    StopAll-can_return booted "cancelled" booted-IsRegistry booted_sound never_circular booted_small
