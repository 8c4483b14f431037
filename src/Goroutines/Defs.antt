-- ===== src/Goroutines/Defs.antt =====
-- maestro.go: the state that the goroutines of StartAll share, or those of StopAll. `Pc` says where
-- a goroutine stands, with its local variables.
use bandmaster.Base.{ℕ, Bool}
use bandmaster.Base.Family.{update}
use bandmaster.Channel.{Chan}
use bandmaster.ServiceBase.{Object}

-- `objects` holds the services by their addresses; a goroutine has the address of its service, so
-- that there is one for each. The code has one for each entry of the map.
pub record Goroutines (Pc : Type 0) : Type 0 where
  pub objects : ℕ → Object
  pub pcs : ℕ → Pc
  pub err_c : Chan
  pub cancelled : Bool

-- The channel at an address of a service, after a receive.
abbrev pub set_chan : Object → ℕ → Chan → Object
set_chan o c ch = record o { chans = update o.chans c ch }

module _ {Pc : Type 0} where
  -- The goroutine `i` goes on to `pc`, and the service at `j` becomes `o`.
  abbrev pub move : Goroutines Pc → ℕ → Pc → ℕ → Object → Goroutines Pc
  move s i pc j o = record s { objects = update s.objects j o; pcs = update s.pcs i pc }

  abbrev pub jump : Goroutines Pc → ℕ → Pc → Goroutines Pc
  jump s i pc = record s { pcs = update s.pcs i pc }
