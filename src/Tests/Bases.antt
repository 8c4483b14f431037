-- ===== src/Tests/Bases.antt =====
-- service.go and errors.go at concrete services.
use bandmaster.Base.{
  ℕ, true, false, none, some, [], ◌≡◌, refl, ◌≢◌, ◌↔◌, In, returned, blocked, panicked,
}
use bandmaster.Channel.{close, HasRoom}
use bandmaster.ServiceBase.{
  new_service_base, start, stop, started_channel, stopped_channel, allocate, each, at_channel,
}
use bandmaster.ServiceBase.Invariant.{IsValid}
use bandmaster.ServiceBase.Flow.{start-IsValid, stop-IsValid, shut}
use bandmaster.ServiceBase.Broadcast.{Changes, start_success}
use bandmaster.ServiceBase.Sends.{start-blocks_iff, start-stop-ne-panicked}
use bandmaster.Tests.Data.{oops, watched, watched-IsValid, running, running-IsValid}

start_success_example :
    ((start none watched).0 ≡ returned none)
    × ((start none watched).1.started ≡ true)
    × ((start none watched).1.stopped ≡ false)
    × ((start none watched).1.started_cs ≡ [])
    × Changes shut watched.started_cs watched (start none watched).1
unfolding started_channel allocate new_service_base
start_success_example = start_success watched watched-IsValid refl

start-blocks_iff_example :
    ((start (some oops) watched).0 ≡ blocked)
    ↔ ((c : ℕ) × In c watched.started_cs × (¬ HasRoom (watched.chans c)))
start-blocks_iff_example = start-blocks_iff oops watched watched-IsValid

start-stop-ne-panicked_example :
    ((start none watched).0 ≢ panicked oops) × ((stop none watched).0 ≢ panicked oops)
start-stop-ne-panicked_example = start-stop-ne-panicked none watched oops watched-IsValid

start-IsValid_example : IsValid (start (some oops) watched).1
unfolding started_channel allocate new_service_base
start-IsValid_example = start-IsValid (some oops) watched watched-IsValid refl

stop-IsValid_example : IsValid (stop (some oops) running).1
unfolding started_channel stopped_channel allocate new_service_base start each at_channel close
stop-IsValid_example = stop-IsValid (some oops) running running-IsValid refl
