-- ===== src/Tests/Strandeds.antt =====
-- A boot of two services, `a` on `b`, in which `b` fails before `a` subscribes to it.
use bandmaster.Base.{◌≡◌, refl, [], ◌∷◌, some, true, arith}
use bandmaster.Base.Family.{update}
use bandmaster.Base.Dict.{lookup}
use bandmaster.Channel.{send, make, receive}
use bandmaster.ServiceBase.{
  new_service_base, start, started_channel, dependencies, retry_conf, allocate, each, at_channel,
}
use bandmaster.Retry.{next}
use bandmaster.Boot.{
  failing, reporting, fail, report, cancel, start_failure_of, System, Reach, here, next_step,
  waiting, receiving, finished, go_on, subscribe, call, after_call, after_next, Step,
}
use bandmaster.Goroutines.{move, jump}
use bandmaster.Boot.StartAll.{launched, object_or_new}
use bandmaster.Boot.Stranded.{IsStranded, stranded-waits}
use bandmaster.Errors.{Err}
use bandmaster.Deps.{push}
use bandmaster.Tests.Boots.{services, boot, s2, step1, step2}

abbrev boom : Err
boom = start_failure_of 1 "boom"

abbrev f3 : System
f3 = jump s2 1 (failing boom)

abbrev f4 : System
f4 = move f3 1 (reporting boom) 1 (start (some boom) (f3.objects 1)).1

abbrev f5 : System
f5 = record f4 { pcs = update f4.pcs 1 finished; err_c = record (make 2) { buffer = boom ∷ [] } }

abbrev f6 : System
f6 = move f5 0 (waiting ("b" ∷ [])) 0 (started_channel (f5.objects 0)).1

abbrev f7 : System
f7 =
    move f6 0 (receiving "b" 1 (started_channel (f6.objects 1)).0 []) 1
      (started_channel (f6.objects 1)).1

fail3 : Step services "cancelled" s2 f3
unfolding launched object_or_new after_call after_next next retry_conf started_channel
    new_service_base allocate
fail3 = call 1 1 0 (some "boom") refl

fail4 : Step services "cancelled" f3 f4
unfolding launched object_or_new start new_service_base started_channel allocate each at_channel
    send push
fail4 = fail 1 boom (some boom) (start (some boom) (f3.objects 1)).1 refl refl

fail5 : Step services "cancelled" f4 f5
unfolding launched object_or_new start new_service_base started_channel allocate each at_channel
    send push
fail5 = report 1 boom (record (make 2) { buffer = boom ∷ [] }) refl refl

fail6 : Step services "cancelled" f5 f6
unfolding launched object_or_new start new_service_base started_channel allocate each at_channel
    send push dependencies
fail6 = go_on 0 ("b" ∷ []) refl refl refl (λ d. (λ x. x, λ x. x)) (tt, tt)

fail7 : Step services "cancelled" f6 f7
unfolding launched object_or_new lookup
fail7 = subscribe 0 1 "b" [] refl refl

reached_f7 : Reach services "cancelled" boot f7
reached_f7 =
    next_step
      (next_step
        (next_step (next_step (next_step (next_step (next_step here step1) step2) fail3) fail4)
          fail5)
        fail6)
      fail7

stranded : IsStranded f7 0 1 (started_channel (f6.objects 1)).0 "b" []
unfolding launched object_or_new start new_service_base started_channel allocate each at_channel
    send receive
stranded = record { waits = refl; ended = tt; made = omega arith; silent = refl }

-- `a` waits for `b`, also when the context is cancelled then.
stranded-waits_example :
    (record f7 { cancelled = true }).pcs 0 ≡ receiving "b" 1 (started_channel (f6.objects 1)).0 []
stranded-waits_example =
    stranded-waits services "cancelled" 0 1 (started_channel (f6.objects 1)).0 "b" [] f7
      (record f7 { cancelled = true }) stranded (next_step here cancel)
