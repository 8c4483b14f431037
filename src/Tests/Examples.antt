-- ===== src/Tests/Examples.antt =====
-- The loop of the example's main over the errors of a boot in which `b` fails and
-- `a` is cancelled.
use bandmaster.Base.{ℕ, ◌≡◌, refl, ◌⊎◌, In, List, true, some, [], ◌∷◌, returned, inl, inr, arith}
use bandmaster.Base.Dict.{values}
use bandmaster.Base.Family.{update}
use bandmaster.Errors.{Err, foreign}
use bandmaster.Channel.{Chan, make, send, close}
use bandmaster.ServiceBase.{
  new_service_base, start, started_channel, retry_conf, allocate, each, at_channel,
}
use bandmaster.Retry.{next}
use bandmaster.Goroutines.{move, jump}
use bandmaster.Deps.{push}
use bandmaster.Boot.{
  System, Step, Reach, here, next_step, failing, reporting, finished, call, fail, report, cancel,
  abort, after_call, after_next, start_failure_of,
}
use bandmaster.Boot.StartAll.{StartAll, ran, launched, start_err_c, object_or_new}
use bandmaster.Example.{report_all, Report}
use bandmaster.Example.Reports.{IsReported, report_all-IsReported}
use bandmaster.Tests.Boots.{program, services, boot, orderly, s2, step1, step2}
use bandmaster.Tests.StartAlls.{checked, bootable}
use bandmaster.Tests.Data.{two-IsRegistry}

abbrev down : Err
down = start_failure_of 1 "down"

abbrev late : Err
late = start_failure_of 0 "cancelled"

abbrev f3 : System
f3 = jump s2 1 (failing down)

abbrev f4 : System
f4 = move f3 1 (reporting down) 1 (start (some down) (f3.objects 1)).1

abbrev f5 : System
f5 = record f4 { pcs = update f4.pcs 1 finished; err_c = record (make 2) { buffer = down ∷ [] } }

abbrev f6 : System
f6 = record f5 { cancelled = true }

abbrev f7 : System
f7 = move f6 0 (reporting late) 0 (started_channel (f6.objects 0)).1

abbrev f8 : System
f8 = record f7 {
  pcs = update f7.pcs 0 finished;
  err_c = record (make 2) { buffer = down ∷ late ∷ [] };
}

step3 : Step services "cancelled" s2 f3
unfolding launched object_or_new new_service_base started_channel allocate after_call after_next
    next retry_conf
step3 = call 1 1 0 (some "down") refl

step4 : Step services "cancelled" f3 f4
unfolding launched object_or_new new_service_base started_channel allocate start each at_channel
    send
step4 = fail 1 down (some down) (start (some down) (f3.objects 1)).1 refl refl

step5 : Step services "cancelled" f4 f5
unfolding launched push send
step5 = report 1 down _ refl refl

step7 : Step services "cancelled" f6 f7
unfolding launched
step7 = abort 0 refl refl

step8 : Step services "cancelled" f7 f8
unfolding launched push send
step8 = report 0 late _ refl refl

reached_f8 : Reach services "cancelled" boot f8
reached_f8 =
    next_step
      (next_step
        (next_step
          (next_step (next_step (next_step (next_step (next_step here step1) step2) step3) step4)
            step5)
          cancel)
        step7)
      step8

done : (i : ℕ) → In i (values services) → f8.pcs i ≡ finished
done i (inl e) = rw e refl
done i (inr (inl e)) = rw e refl
done i (inr (inr x)) = absurd x

abbrev told : Chan
told = record (make 2) { buffer = down ∷ late ∷ []; closed = true }

run : StartAll program 3 "cancelled" f8.objects told
unfolding close
run = ran (start_err_c program) told f8 checked reached_f8 done refl

report_all-IsReported_example :
    (rs : List Report) × (report_all f8.objects told.buffer ≡ returned rs)
    × ((i : ℕ)
        → In i (values services)
        → ((f8.objects i).started ≡ true)
          ⊎ IsReported f8.objects "cancelled" i rs
          ⊎ In (foreign "cancelled") told.buffer)
report_all-IsReported_example =
    report_all-IsReported program 3 "cancelled" two-IsRegistry bootable (omega arith) orderly
      f8.objects told run
