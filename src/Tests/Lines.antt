-- ===== src/Tests/Lines.antt =====
-- The loop of the example's main over the errors of a shutdown in which `b` fails.
use bandmaster.Base.{ℕ, ◌≡◌, refl, In, List, String, true, some, [], ◌∷◌, returned, inl, inr}
use bandmaster.Base.Dict.{values}
use bandmaster.Base.Family.{update}
use bandmaster.Errors.{Err}
use bandmaster.Channel.{Chan, make, send, close}
use bandmaster.ServiceBase.{
  new_service_base, start, stop, started_channel, stopped_channel, retry_conf, allocate, each,
  at_channel,
}
use bandmaster.Retry.{next}
use bandmaster.Goroutines.{move, jump}
use bandmaster.Deps.{push}
use bandmaster.Shutdown.{
  System, Step, Reach, next_step, failing, reporting, finished, call, fail, report, after_call,
  after_next, stop_failure_of, stop_launched,
}
use bandmaster.Shutdown.StopAll.{StopAll, wound_down}
use bandmaster.Boot.StartAll.{launched, object_or_new}
use bandmaster.Example.{print_all}
use bandmaster.Example.Lines.{AreTexts, StopAll-AreTexts}
use bandmaster.Tests.Boots.{services}
use bandmaster.Tests.Shutdowns.{objects, up, t11, reached_t11}

abbrev down : Err
down = stop_failure_of 1 "down"

abbrev f12 : System
f12 = jump t11 1 (failing down)

abbrev f13 : System
f13 = move f12 1 (reporting down) 1 (stop (some down) (f12.objects 1)).1

abbrev f14 : System
f14 = record f13 { pcs = update f13.pcs 1 finished; err_c = record (make 3) { buffer = down ∷ [] } }

step12 : Step services "cancelled" t11 f12
unfolding launched object_or_new stop_launched start stop new_service_base started_channel
    stopped_channel allocate each at_channel close after_call after_next next retry_conf
step12 = call 1 1 0 (some "down") refl

step13 : Step services "cancelled" f12 f13
unfolding launched object_or_new stop_launched start stop new_service_base started_channel
    stopped_channel allocate each at_channel close send
step13 = fail 1 down (some down) (stop (some down) (f12.objects 1)).1 refl refl

step14 : Step services "cancelled" f13 f14
unfolding launched push send
step14 = report 1 down _ refl refl

reached_f14 : Reach services "cancelled" up f14
reached_f14 = next_step (next_step (next_step reached_t11 step12) step13) step14

done : (i : ℕ) → In i (values services) → f14.pcs i ≡ finished
done i (inl e) = rw e refl
done i (inr (inl e)) = rw e refl
done i (inr (inr x)) = absurd x

abbrev told : Chan
told = record (make 3) { buffer = down ∷ []; closed = true }

run : StopAll services "cancelled" objects f14.objects told
unfolding close
run = wound_down f14 told reached_f14 done refl

StopAll-AreTexts_example :
    (ts : List String) × (print_all f14.objects told.buffer ≡ returned ts)
    × AreTexts f14.objects told.buffer ts
StopAll-AreTexts_example = StopAll-AreTexts services "cancelled" objects f14.objects told run
