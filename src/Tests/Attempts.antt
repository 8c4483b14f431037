-- ===== src/Tests/Attempts.antt =====
-- The loop of attempts of a goroutine, of which the first call fails and the second succeeds.
use bandmaster.Base.{ℕ, zero, suc, refl, String, false, Option, none, some, [], ◌∷◌}
use bandmaster.Channel.{make}
use bandmaster.ServiceBase.{Object, new_service_base, retry_conf, set_retry_conf}
use bandmaster.Retry.{Environment, succeeded, next}
use bandmaster.Goroutines.{jump}
use bandmaster.Goroutines.Attempts.{called, waited, HasEnded}
use bandmaster.Registry.{Maestro}
use bandmaster.Boot
use bandmaster.Boot.Attempts as Starts
use bandmaster.Shutdown
use bandmaster.Shutdown.Attempts as Stops

abbrev services : Maestro
services = ("a", 0) ∷ []

abbrev patient : Object
patient = set_retry_conf 3 100 new_service_base

abbrev results : ℕ → Option String
results zero = none
results (suc zero) = some "down"
results (suc (suc n)) = none

abbrev env : Environment
env = record { call = results; done = λ n. false }

abbrev starting : Boot.System
starting = record {
  objects = λ i. patient;
  pcs = λ i. Boot.calling 1 100;
  err_c = make 1;
  cancelled = false;
}

abbrev stopping : Shutdown.System
stopping = record {
  objects = λ i. patient;
  pcs = λ i. Shutdown.calling 1 100;
  err_c = make 2;
  cancelled = false;
}

abbrev boot1 : Boot.System
boot1 = jump starting 0 (Boot.backing_off 1 100)

abbrev boot2 : Boot.System
boot2 = jump boot1 0 (Boot.calling 2 200)

abbrev boot3 : Boot.System
boot3 = jump boot2 0 Boot.succeeding

boot_step1 : Boot.Step services "cancelled" starting boot1
unfolding set_retry_conf retry_conf Boot.after_call Boot.after_next next
boot_step1 = Boot.call 0 1 100 (some "down") refl

boot_step2 : Boot.Step services "cancelled" boot1 boot2
boot_step2 = Boot.timer 0 1 100 refl

boot_step3 : Boot.Step services "cancelled" boot2 boot3
unfolding set_retry_conf retry_conf Boot.after_call Boot.after_next next
boot_step3 = Boot.call 0 2 200 none refl

start-Follows_example :
    HasEnded env 3 100 succeeded (called none ∷ waited ∷ called (some "down") ∷ [])
unfolding set_retry_conf retry_conf Starts.history Starts.event boot_step1 boot_step2 boot_step3
start-Follows_example =
    Starts.start-Follows services "cancelled" env starting boot3 0 refl
      (Boot.next_step (Boot.next_step (Boot.next_step Boot.here boot_step1) boot_step2) boot_step3)
      (refl, (refl, (refl, tt)))

abbrev halt1 : Shutdown.System
halt1 = jump stopping 0 (Shutdown.backing_off 1 100)

abbrev halt2 : Shutdown.System
halt2 = jump halt1 0 (Shutdown.calling 2 200)

abbrev halt3 : Shutdown.System
halt3 = jump halt2 0 Shutdown.succeeding

halt_step1 : Shutdown.Step services "cancelled" stopping halt1
unfolding set_retry_conf retry_conf Shutdown.after_call Shutdown.after_next next
halt_step1 = Shutdown.call 0 1 100 (some "down") refl

halt_step2 : Shutdown.Step services "cancelled" halt1 halt2
halt_step2 = Shutdown.timer 0 1 100 refl

halt_step3 : Shutdown.Step services "cancelled" halt2 halt3
unfolding set_retry_conf retry_conf Shutdown.after_call Shutdown.after_next next
halt_step3 = Shutdown.call 0 2 200 none refl

stop-Follows_example :
    HasEnded env 3 100 succeeded (called none ∷ waited ∷ called (some "down") ∷ [])
unfolding set_retry_conf retry_conf Stops.history Stops.event halt_step1 halt_step2 halt_step3
stop-Follows_example =
    Stops.stop-Follows services "cancelled" env stopping halt3 0 refl
      (Shutdown.next_step
        (Shutdown.next_step (Shutdown.next_step Shutdown.here halt_step1) halt_step2) halt_step3)
      (refl, (refl, (refl, tt)))
