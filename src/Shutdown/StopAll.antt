-- ===== src/Shutdown/StopAll.antt =====
-- maestro.go: StopAll as a whole: the goroutines, the wait for them, and the channel `errC`, which is
-- closed at the end.
use bandmaster.Base.{ℕ, ◌≡◌, String, In, returned}
use bandmaster.Base.Dict.{values}
use bandmaster.Channel.{Chan, close}
use bandmaster.ServiceBase.{Object}
use bandmaster.Registry.{Maestro}
use bandmaster.Shutdown.Defs.{finished, System, Reach, stop_launch}

-- `wg.Wait()` returns.
abbrev pub AllFinished : Maestro → System → Type 0
AllFinished m t = (i : ℕ) → In i (values m) → t.pcs i ≡ finished

-- A run of StopAll that returns, with the services before it, those that it leaves, and the channel.
pub data StopAll (m : Maestro) (ctx_err : String) (objects : ℕ → Object)
    : (ℕ → Object) → Chan → Type 0 where
  wound_down :
      (t : System) (d : Chan)
      → Reach m ctx_err (stop_launch m objects) t
      → AllFinished m t
      → close t.err_c ≡ returned d
      → StopAll m ctx_err objects t.objects d
