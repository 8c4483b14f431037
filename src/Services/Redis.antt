-- ===== src/Services/Redis.antt =====
-- services/redis/service.go, on the redigo package. `Stop` does nothing.
pub mod Env
use bandmaster.Services.Assertions.{Interface, AssertionPanic, field_of}
use bandmaster.Base.{String, returned, pure, ◌>>=◌, Option, none, some, ◌≡◌, refl, Outcome}
use bandmaster.Services.Calls.{Call, Code, run, deref}

-- What the service uses of redigo; a pool dials with its own options.
pub record Library (W Pool Conn : Type 0) : Type 0 where
  pub dial : Pool → Call W (Option Conn × Option String)
  pub command : Conn → String → Call W (Option String)
  pub close : Conn → Call W (Unit {0})

pub record Service (Pool : Type 0) : Type 0 where
  pub pool : Pool

unfoldable pub new : {Pool : Type 0} → Pool → Service Pool
new p = record { pool = p }

module _ {Pool : Type 0} where
  unfoldable pub client : Interface (Service Pool) → Outcome AssertionPanic (Pool)
  client = field_of (λ s. s.pool)

module _ {W Pool Conn : Type 0} (lib : Library W Pool Conn) where
  -- Behind `Dial`; the deferred `Close` runs behind the PING, whatever its result.
  unfoldable pub dialled : Option Conn × Option String → Code W (Service Pool) (Option String)
  dialled (c, some err) = pure (some err)
  dialled (c, none) =
      deref c >>= λ c. run (lib.command c "PING") >>= λ err. run (lib.close c) >>= λ _. pure err

  unfoldable pub start : Code W (Service Pool) (Option String)
  start st = (run (lib.dial st.0.pool) >>= dialled) st

  unfoldable pub stop : Code W (Service Pool) (Option String)
  stop = pure none

  dialled-closes :
      (r : Option Conn × Option String) (s : Service Pool) (w : W) (c : Conn)
      → r ≡ (some c, none)
      → let (err, w1) = lib.command c "PING" w in
        dialled r (s, w) ≡ (returned err, (s, (lib.close c w1).1))
  unfolding dialled
  dialled-closes r s w c e = rw e refl

  -- A connection that `Start` has dialled is closed when it returns, and its result is that of the
  -- PING.
  pub start-closes :
      (s : Service Pool) (w : W) (c : Conn)
      → (lib.dial s.pool w).0 ≡ (some c, none)
      → let (err, w1) = lib.command c "PING" (lib.dial s.pool w).1 in
        start (s, w) ≡ (returned err, (s, (lib.close c w1).1))
  unfolding start
  start-closes s w c dialled_c =
      dialled-closes (lib.dial s.pool w).0 s (lib.dial s.pool w).1 c dialled_c
