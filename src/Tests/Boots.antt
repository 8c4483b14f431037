-- ===== src/Tests/Boots.antt =====
-- A boot of two services, `a` on `b`, in which both start.
use bandmaster.Base.{◌≢◌, ℕ, zero, suc, ◌≡◌, refl, false, none, [], ◌∷◌, inl, arith}
use bandmaster.Base.Dict.{lookup}
use bandmaster.Channel.{receive, close}
use bandmaster.ServiceBase.{
  Object, new_service_base, start, started_channel, dependencies, retry_conf, allocate, each,
  at_channel,
}
use bandmaster.Registry.{Maestro, Program}
use bandmaster.Retry.{next}
use bandmaster.Boot.{
  failing, System, Reach, here, next_step, waiting, receiving, calling, succeeding, finished, go_on,
  subscribe, dependency_ready, dependencies_ready, call, succeed, after_call, after_next, Step,
}
use bandmaster.Goroutines.{move, jump, set_chan}
use bandmaster.Boot.Knowledge.{IsStarted}
use bandmaster.Boot.Order.{IsFreshBoot, started-IsStarted, calling-IsStarted}
use bandmaster.Boot.Refinement.{Schedule, up_of, boot_refines}
use bandmaster.Boot.StartAll.{launch, launched, start_err_c, store_of, object_or_new}
use bandmaster.Boot.Returns.{IsOrderly, launch-IsFreshBoot}
use bandmaster.Errors.{Err}
use bandmaster.ServiceBase.Invariant.{IsValid, new-IsValid}
use bandmaster.Tests.Data.{pair, named-IsValid, two-IsRegistry}

abbrev pub program : Program
program = pair []

abbrev pub services : Maestro
services = program.services

abbrev pub objects : ℕ → Object
objects = store_of program

abbrev pub boot : System
boot = launch program (start_err_c program)

idle : (i : ℕ) → (objects i).started ≡ false
unfolding new_service_base object_or_new
idle zero = refl
idle (suc zero) = refl
idle (suc (suc i)) = refl

pub orderly : IsOrderly program
orderly i on = let off = idle i in cc

-- Both services can be started.
pub sound : (i : ℕ) → IsValid (store_of program i)
unfolding object_or_new
sound zero = named-IsValid "a" ("b" ∷ [])
sound (suc zero) = named-IsValid "b" []
sound (suc (suc i)) = new-IsValid

boot-IsFresh : IsFreshBoot services "cancelled" boot
boot-IsFresh = launch-IsFreshBoot program "cancelled" (start_err_c program) orderly

abbrev pub s1 : System
s1 = move boot 1 (waiting []) 1 (started_channel (boot.objects 1)).1

abbrev pub s2 : System
s2 = jump s1 1 (calling 1 0)

abbrev s3 : System
s3 = jump s2 1 succeeding

abbrev s4 : System
s4 = move s3 1 finished 1 (start none (s3.objects 1)).1

abbrev s5 : System
s5 = move s4 0 (waiting ("b" ∷ [])) 0 (started_channel (s4.objects 0)).1

abbrev s6 : System
s6 =
    move s5 0 (receiving "b" 1 (started_channel (s5.objects 1)).0 []) 1
      (started_channel (s5.objects 1)).1

pub step1 : Step services "cancelled" boot s1
unfolding launched object_or_new new_service_base dependencies
step1 = go_on 1 [] refl refl refl (λ d. (λ x. x, λ x. x)) tt

pub step2 : Step services "cancelled" s1 s2
unfolding launched object_or_new new_service_base started_channel allocate retry_conf
step2 = dependencies_ready 1 refl

step3 : Step services "cancelled" s2 s3
unfolding launched object_or_new after_call after_next next
step3 = call 1 1 0 none refl

step4 : Step services "cancelled" s3 s4
unfolding launched object_or_new start new_service_base started_channel allocate each at_channel
    close
step4 = succeed 1 none (start none (s3.objects 1)).1 refl refl

step5 : Step services "cancelled" s4 s5
unfolding launched object_or_new new_service_base dependencies
step5 = go_on 0 ("b" ∷ []) refl refl refl (λ d. (λ x. x, λ x. x)) (tt, tt)

step6 : Step services "cancelled" s5 s6
unfolding launched object_or_new lookup
step6 = subscribe 0 1 "b" [] refl refl

abbrev c : ℕ
c = (started_channel (s5.objects 1)).0

abbrev s7 : System
s7 = move s6 0 (waiting []) 1 (set_chan (s6.objects 1) c ((s6.objects 1).chans c))

step7 : Step services "cancelled" s6 s7
unfolding launched object_or_new start new_service_base started_channel allocate each at_channel
    close receive
step7 = dependency_ready 0 1 c "b" [] ((s6.objects 1).chans c) refl refl

abbrev pub s8 : System
s8 = jump s7 0 (calling 1 0)

step8 : Step services "cancelled" s7 s8
unfolding launched object_or_new start new_service_base started_channel allocate each at_channel
    close retry_conf
step8 = dependencies_ready 0 refl

reached_s4 : Reach services "cancelled" boot s4
reached_s4 = next_step (next_step (next_step (next_step here step1) step2) step3) step4

pub reached_s8 : Reach services "cancelled" boot s8
reached_s8 = next_step (next_step (next_step (next_step reached_s4 step5) step6) step7) step8

calling-IsStarted_example : IsStarted services s8.objects "b" × ((s8.objects 0).started ≡ false)
unfolding launched object_or_new start new_service_base started_channel allocate dependencies
calling-IsStarted_example =
    calling-IsStarted services "cancelled" boot s8 0 1 0 "b" two-IsRegistry.addresses boot-IsFresh
      reached_s8 refl (inl refl)

pub calm_s8 : (i : ℕ) (e : Err) → s8.pcs i ≢ failing e
unfolding launched
calm_s8 i e f = ground (arith, f)

abbrev s9 : System
s9 = jump s8 0 succeeding

step9 : Step services "cancelled" s8 s9
unfolding launched object_or_new after_call after_next next
step9 = call 0 1 0 none refl

abbrev pub s10 : System
s10 = move s9 0 finished 0 (start none (s9.objects 0)).1

step10 : Step services "cancelled" s9 s10
unfolding launched object_or_new start new_service_base started_channel allocate each at_channel
    close
step10 = succeed 0 none (start none (s9.objects 0)).1 refl refl

pub reached_s10 : Reach services "cancelled" boot s10
reached_s10 = next_step (next_step reached_s8 step9) step10

started-IsStarted_example : IsStarted services s10.objects "b"
unfolding launched object_or_new start new_service_base started_channel allocate each at_channel
    close dependencies
started-IsStarted_example =
    started-IsStarted services "cancelled" boot s10 0 "b" two-IsRegistry.addresses boot-IsFresh
      reached_s10 refl (inl refl)

-- Both services come up, `b` before `a`.
boot_refines_example : Schedule services (λ i. dependencies (objects i)) (up_of boot) (up_of s10)
boot_refines_example =
    boot_refines services "cancelled" boot s10 two-IsRegistry.addresses boot-IsFresh reached_s10
