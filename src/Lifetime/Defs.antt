-- ===== src/Lifetime/Defs.antt =====
-- maestro.go: the calls that a program makes on a Maestro, one behind the other.
use bandmaster.Base.{ℕ, ◌≡◌, String, Bool, List, In, returned}
use bandmaster.Base.Dict.{values}
use bandmaster.Base.Family.{update}
use bandmaster.Channel.{Chan}
use bandmaster.ServiceBase.{Object, started_channel, stopped_channel}
use bandmaster.Registry.{Program, add_service_with_backoff}
use bandmaster.Boot.StartAll.{StartAll, store_of}
use bandmaster.Boot.Later.{later}
use bandmaster.Shutdown.StopAll.{StopAll}

-- From `p`, calls that return lead to the program at the end: AddServiceWithBackoff of a service
-- that is not registered yet, StartAll and StopAll, whatever they came to, and `Started` and
-- `Stopped` of any service.
pub data Uses (fuel : ℕ) (p : Program) : Program → Type 0 where
  unused : Uses fuel p p
  registers :
      (q q' : Program) (name : String) (req : Bool) (max_retries initial_backoff s : ℕ)
      (deps : List String)
      → Uses fuel p q
      → ¬ In s (values q.services)
      → add_service_with_backoff name req max_retries initial_backoff s deps q ≡ (returned tt, q')
      → Uses fuel p q'
  starts :
      (q : Program) (ctx_err : String) (objects : ℕ → Object) (d : Chan)
      → Uses fuel p q
      → StartAll q fuel ctx_err objects d
      → Uses fuel p (later q objects)
  stops :
      (q : Program) (ctx_err : String) (objects : ℕ → Object) (d : Chan)
      → Uses fuel p q
      → StopAll q.services ctx_err (store_of q) objects d
      → Uses fuel p (later q objects)
  asks_started :
      (q : Program) (j : ℕ)
      → Uses fuel p q
      → Uses fuel p (later q (update (store_of q) j (started_channel (store_of q j)).1))
  asks_stopped :
      (q : Program) (j : ℕ)
      → Uses fuel p q
      → Uses fuel p (later q (update (store_of q) j (stopped_channel (store_of q j)).1))
