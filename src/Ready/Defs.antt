-- ===== src/Ready/Defs.antt =====
-- maestro.go: ServiceReady. While it waits, other goroutines call the methods of the service, and
-- the `select` of its loop takes one case or the other.
use bandmaster.Base.{
  ℕ, String, Option, none, some, List, [], ◌∷◌, Outcome, returned, panicked, blocked,
}
use bandmaster.Base.Family.{update}
use bandmaster.Errors.{Err}
use bandmaster.Channel.{Chan, receive}
use bandmaster.ServiceBase.{Object, start, stop, started_channel, stopped_channel}
use bandmaster.Registry.{Maestro}
use bandmaster.Base.Dict.{lookup}
use bandmaster.Goroutines.{set_chan}

-- One thing that happens during the wait.
pub data Turn : Type 0 where
  done : Turn  -- the `select` takes `<-ctx.Done()`
  tries : Turn  -- the `select` takes `<-startedC`, if there is something to receive
  starts : Option Err → Turn  -- others call `start`
  stops : Option Err → Turn  -- others call `stop`
  watches_start : Turn  -- others call `Started`
  watches_stop : Turn  -- others call `Stopped`

pub data Answer : Type 0 where
  nil : Answer
  found : ℕ → Answer
  waits : Answer  -- it has not returned yet

-- The case of `<-startedC`.
unfoldable pub received : ℕ → ℕ → Outcome Err (Option Err × Chan) → Object → Answer × Object
received s c (returned (none, ch)) o = (found s, set_chan o c ch)
received s c (returned (some err, ch)) o = (waits, set_chan o c ch)
received s c (panicked e) o = (waits, o)
received s c blocked o = (waits, o)

-- One turn of the wait of the service at `s`, on the channel at `c`.
unfoldable pub turn : ℕ → ℕ → Turn → Object → Answer × Object
turn s c done o = (nil, o)
turn s c tries o = received s c (receive (o.chans c)) o
turn s c (starts r) o = (waits, (start r o).1)
turn s c (stops r) o = (waits, (stop r o).1)
turn s c watches_start o = (waits, (started_channel o).1)
turn s c watches_stop o = (waits, (stopped_channel o).1)

-- The loop goes on as long as there is no answer.
unfoldable pub unless_answered : Answer × Object → (Object → Answer × Object) → Answer × Object
unless_answered (nil, o) rest = (nil, o)
unless_answered (found s, o) rest = (found s, o)
unless_answered (waits, o) rest = rest o

unfoldable pub wait_ready : ℕ → ℕ → List Turn → Object → Answer × Object
wait_ready s c [] o = (waits, o)
wait_ready s c (t ∷ turns) o = unless_answered (turn s c t o) (wait_ready s c turns)

unfoldable pub service_ready : String → List Turn → Maestro → (ℕ → Object) → Answer × (ℕ → Object)
service_ready name turns m objects = elim (lookup name m) [
  | none ↦ (nil, objects)
  | some s ↦
      let (c, o) = started_channel (objects s) in
      let (answer, o') = wait_ready s c turns o in (answer, update objects s o')
]
