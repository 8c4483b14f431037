-- ===== src/Tests/Cancelleds.antt =====
-- A boot of two services under a context that has ended: the goroutine of `a` gives up.
use bandmaster.Base.{ℕ, ◌≡◌, ◌≢◌, refl, ◌⊎◌, In, true, [], ◌∷◌}
use bandmaster.Base.Dict.{values}
use bandmaster.Base.Family.{update}
use bandmaster.Channel.{make, send}
use bandmaster.ServiceBase.{started_channel}
use bandmaster.Goroutines.{move}
use bandmaster.Deps.{push}
use bandmaster.Boot.{
  System, Step, here, next_step, calling, reporting, finished, abort, report, start_failure_of,
}
use bandmaster.Boot.StartAll.{launched, start_err_c}
use bandmaster.Boot.Cancelled.{cancelled_launch, cancelled_launch-Reach}
use bandmaster.Tests.Boots.{program, services, objects}

abbrev over : System
over = cancelled_launch program "cancelled" (start_err_c program)

abbrev s1 : System
s1 = move over 0 (reporting (start_failure_of 0 "cancelled")) 0 (started_channel (over.objects 0)).1

abbrev s2 : System
s2 = record s1 {
  pcs = update s1.pcs 0 finished;
  err_c = record (make 2) { buffer = start_failure_of 0 "cancelled" ∷ [] };
}

step1 : Step services "cancelled" over s1
unfolding launched
step1 = abort 0 refl refl

step2 : Step services "cancelled" s1 s2
unfolding launched push send
step2 = report 0 _ _ refl refl

cancelled_launch-Reach_example :
    ((i attempts ib : ℕ) → s2.pcs i ≢ calling attempts ib)
    × ((i : ℕ) → (s2.objects i).started ≡ (objects i).started)
    × ((i : ℕ)
        → In i (values services)
        → s2.pcs i ≡ finished
        → ((objects i).started ≡ true) ⊎ In (start_failure_of i "cancelled") s2.err_c.buffer)
cancelled_launch-Reach_example =
    cancelled_launch-Reach program "cancelled" (start_err_c program) s2
      (next_step (next_step here step1) step2)
