-- ===== src/Tests/Shutdowns.antt =====
-- A shutdown of two services, `a` on `b`, that are both up: `b` stops behind `a`.
use bandmaster.Base.{inr, ap, Distinct, arith, ℕ, ◌≡◌, refl, true, false, none, [], ◌∷◌, inl}
use bandmaster.Base.Dict.{member}
use bandmaster.Channel.{receive, close}
use bandmaster.ServiceBase.{
  started_channel, Object, new_service_base, start, stop, stopped_channel, dependencies, retry_conf,
  allocate, each, at_channel,
}
use bandmaster.Retry.{next}
use bandmaster.Goroutines.{move, jump, set_chan}
use bandmaster.Shutdown.{
  stop_launch, stop_launched, System, Step, Reach, here, next_step, scanning, receiving, calling,
  succeeding, finished, go_on, skip, subscribe, parent_stopped, parents_stopped, call, succeed,
  after_call, after_next, needs,
}
use bandmaster.Shutdown.Launch.{stop_launch-AtEntry}
use bandmaster.Shutdown.Order.{calling-IsStopped}
use bandmaster.Shutdown.AfterBoot.{boot_then-IsStopped}
use bandmaster.Boot.StartAll.{launched, object_or_new}
use bandmaster.Tests.Boots.{sound, program, services, s10, orderly, reached_s10}
use bandmaster.Tests.Data.{two-IsRegistry}

abbrev pub objects : ℕ → Object
objects = s10.objects

abbrev pub up : System
up = stop_launch services objects

abbrev s1 : System
s1 = move up 0 (scanning services) 0 (stopped_channel (up.objects 0)).1

abbrev s2 : System
s2 = jump s1 0 (scanning (("b", 1) ∷ []))

abbrev s3 : System
s3 = jump s2 0 (scanning [])

abbrev s4 : System
s4 = jump s3 0 (calling 1 0)

abbrev s5 : System
s5 = jump s4 0 succeeding

abbrev pub s6 : System
s6 = move s5 0 finished 0 (stop none (s5.objects 0)).1

abbrev pub s7 : System
s7 = move s6 1 (scanning services) 1 (stopped_channel (s6.objects 1)).1

abbrev c : ℕ
c = (stopped_channel (s7.objects 0)).0

abbrev pub s8 : System
s8 = move s7 1 (receiving "a" 0 c (("b", 1) ∷ [])) 0 (stopped_channel (s7.objects 0)).1

abbrev s9 : System
s9 = move s8 1 (scanning (("b", 1) ∷ [])) 0 (set_chan (s8.objects 0) c ((s8.objects 0).chans c))

abbrev t10 : System
t10 = jump s9 1 (scanning [])

abbrev pub t11 : System
t11 = jump t10 1 (calling 1 0)

abbrev s12 : System
s12 = jump t11 1 succeeding

abbrev pub s13 : System
s13 = move s12 1 finished 1 (stop none (s12.objects 1)).1

-- The two services are two entries of the map.
apart : Distinct services
apart = ((λ e. let q = ap (λ r. r.1) e in omega (arith, q), tt), (tt, tt))

step1 : Step services "cancelled" up s1
unfolding launched object_or_new stop_launched needs member start stop new_service_base
    started_channel stopped_channel allocate each at_channel close receive dependencies retry_conf
    after_call after_next next
step1 = go_on 0 services refl refl refl (λ d. (λ x. x, λ x. x)) apart

step2 : Step services "cancelled" s1 s2
unfolding launched object_or_new stop_launched needs member start stop new_service_base
    started_channel stopped_channel allocate each at_channel close receive dependencies retry_conf
    after_call after_next next
step2 = skip 0 0 "a" (("b", 1) ∷ []) refl refl

step3 : Step services "cancelled" s2 s3
unfolding launched object_or_new stop_launched needs member start stop new_service_base
    started_channel stopped_channel allocate each at_channel close receive dependencies retry_conf
    after_call after_next next
step3 = skip 0 1 "b" [] refl refl

step4 : Step services "cancelled" s3 s4
unfolding launched object_or_new stop_launched needs member start stop new_service_base
    started_channel stopped_channel allocate each at_channel close receive dependencies retry_conf
    after_call after_next next
step4 = parents_stopped 0 refl

step5 : Step services "cancelled" s4 s5
unfolding launched object_or_new stop_launched needs member start stop new_service_base
    started_channel stopped_channel allocate each at_channel close receive dependencies retry_conf
    after_call after_next next
step5 = call 0 1 0 none refl

step6 : Step services "cancelled" s5 s6
unfolding launched object_or_new stop_launched needs member start stop new_service_base
    started_channel stopped_channel allocate each at_channel close receive dependencies retry_conf
    after_call after_next next
step6 = succeed 0 none (stop none (s5.objects 0)).1 refl refl

step7 : Step services "cancelled" s6 s7
unfolding launched object_or_new stop_launched needs member start stop new_service_base
    started_channel stopped_channel allocate each at_channel close receive dependencies retry_conf
    after_call after_next next
step7 = go_on 1 services refl refl refl (λ d. (λ x. x, λ x. x)) apart

step8 : Step services "cancelled" s7 s8
unfolding launched object_or_new stop_launched needs member start stop new_service_base
    started_channel stopped_channel allocate each at_channel close receive dependencies retry_conf
    after_call after_next next
step8 = subscribe 1 0 "a" (("b", 1) ∷ []) refl refl

step9 : Step services "cancelled" s8 s9
unfolding launched object_or_new stop_launched needs member start stop new_service_base
    started_channel stopped_channel allocate each at_channel close receive dependencies retry_conf
    after_call after_next next
step9 = parent_stopped 1 0 c "a" (("b", 1) ∷ []) ((s8.objects 0).chans c) refl refl

step10 : Step services "cancelled" s9 t10
unfolding launched object_or_new stop_launched needs member start stop new_service_base
    started_channel stopped_channel allocate each at_channel close receive dependencies retry_conf
    after_call after_next next
step10 = skip 1 1 "b" [] refl refl

step11 : Step services "cancelled" t10 t11
unfolding launched object_or_new stop_launched needs member start stop new_service_base
    started_channel stopped_channel allocate each at_channel close receive dependencies retry_conf
    after_call after_next next
step11 = parents_stopped 1 refl

step12 : Step services "cancelled" t11 s12
unfolding launched object_or_new stop_launched needs member start stop new_service_base
    started_channel stopped_channel allocate each at_channel close receive dependencies retry_conf
    after_call after_next next
step12 = call 1 1 0 none refl

step13 : Step services "cancelled" s12 s13
unfolding launched object_or_new stop_launched needs member start stop new_service_base
    started_channel stopped_channel allocate each at_channel close receive dependencies retry_conf
    after_call after_next next
step13 = succeed 1 none (stop none (s12.objects 1)).1 refl refl

reached_s6 : Reach services "cancelled" up s6
reached_s6 =
    next_step
      (next_step (next_step (next_step (next_step (next_step here step1) step2) step3) step4) step5)
      step6

pub reached_s8 : Reach services "cancelled" up s8
reached_s8 = next_step (next_step reached_s6 step7) step8

pub reached_t11 : Reach services "cancelled" up t11
reached_t11 = next_step (next_step (next_step reached_s8 step9) step10) step11

pub reached_s13 : Reach services "cancelled" up s13
reached_s13 = next_step (next_step reached_t11 step12) step13

calling-IsStopped_example : ((t11.objects 0).stopped ≡ true) × ((t11.objects 1).stopped ≡ false)
unfolding launched object_or_new stop_launched needs member start stop new_service_base
    started_channel stopped_channel allocate each at_channel close receive dependencies retry_conf
    after_call after_next next
calling-IsStopped_example =
    calling-IsStopped services "cancelled" up t11 (stop_launch-AtEntry services objects) reached_t11
      1 1 0 0 "a" two-IsRegistry.addresses refl (inl refl) refl

boot_then-IsStopped_example : (s13.objects 0).stopped ≡ true
unfolding launched object_or_new stop_launched needs member start stop new_service_base
    started_channel stopped_channel allocate each at_channel close receive dependencies retry_conf
    after_call after_next next
boot_then-IsStopped_example =
    boot_then-IsStopped program "cancelled" "cancelled" two-IsRegistry orderly sound s10 reached_s10
      s13 reached_s13 1 0 "b" "a" (inr (inl refl)) refl (inl refl) refl
