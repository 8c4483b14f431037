-- ===== src/Services/Nats.antt =====
-- services/nats/service.go, on the nats package.
pub mod Env
use bandmaster.Services.Assertions.{of_package, Interface, AssertionPanic, field_of}
use bandmaster.Base.{
  returned, Bool, true, false, String, pure, ◌>>=◌, ◌>>◌, Option, none, some, ◌≡◌, refl, inl, inr,
  Outcome,
}
use bandmaster.Services.Calls.{Call, Code, run, set_service}
use bandmaster.Services.Client.{
  field_of-IsSettled, IsEither, IsSettled, start_client, start_client-IsSettled,
}

-- What the service uses of nats; `is_connected` is the test `c.Status() == nats.CONNECTED`.
pub record Library (W Options Conn : Type 0) : Type 0 where
  pub connect : Options → Call W (Option Conn × Option String)
  pub is_connected : Conn → Call W Bool
  pub close : Conn → Call W (Unit {0})

pub record Service (Options Conn : Type 0) : Type 0 where
  pub opts : Options
  pub c : Option Conn

abbrev pub connection_failure : String
connection_failure = "nats: connection failure"

module _ {Options Conn : Type 0} where
  unfoldable pub new : Options → Service Options Conn
  new opts = record { opts = opts; c = none }

  abbrev pub set_conn : Option Conn → Service Options Conn → Service Options Conn
  set_conn c service = record service { c = c }

module _ {Options Conn : Type 0} where
  unfoldable pub client : Interface (Service Options Conn) → Outcome AssertionPanic (Option Conn)
  client = field_of (λ s. s.c)

  unfoldable pub config_of : Interface (Service Options Conn) → Outcome AssertionPanic (Options)
  config_of = field_of (λ s. s.opts)

module _ {W Options Conn : Type 0} (lib : Library W Options Conn) where
  stop_conn : Option Conn → Code W (Service Options Conn) (Option String)
  stop_conn none = pure none
  stop_conn (some c) = do run (lib.close c); set_service (set_conn none); pure none

  unfoldable pub stop : Code W (Service Options Conn) (Option String)
  unfolding stop_conn
  stop st = stop_conn st.0.c st

  check_result : Bool → Code W (Service Options Conn) (Option String)
  check_result true = pure none
  check_result false = do stop; pure (some connection_failure)

  unfoldable pub start : Code W (Service Options Conn) (Option String)
  unfolding check_result
  start st =
      start_client (λ s. s.c) set_conn (lib.connect st.0.opts)
        (λ c. run (lib.is_connected c) >>= check_result) st

  module _ (either : (opts : Options) → IsEither (lib.connect opts)) where
    settles :
        (r : Bool) (c : Conn) (s : Service Options Conn) (w : W)
        → s.c ≡ some c
        → IsSettled (λ s. s.c) (check_result r (s, w))
    unfolding check_result IsSettled stop stop_conn
    settles true c s w e = inl (refl, (c, e))
    settles false c s w e = rw (e, stop_conn) (inr (connection_failure, refl, refl))

    -- Start returns nil and the service has a connection, or it returns an error and the service has
    -- none, whatever state it was in, if a connection is made exactly when no error is reported.
    pub start-IsSettled_nats :
        (s : Service Options Conn) (w : W) → IsSettled (λ s. s.c) (start (s, w))
    unfolding start
    start-IsSettled_nats s w =
        start_client-IsSettled (λ s. s.c) set_conn (λ c s. refl) (lib.connect s.opts)
          (λ c. run (lib.is_connected c) >>= check_result) (either s.opts)
          (λ c s w e. settles (lib.is_connected c w).0 c s (lib.is_connected c w).1 e) s w

    -- Client returns a connection of a service behind a Start that has returned nil, if one is created
    -- exactly when no error is reported.
    pub client-start_nats :
        (s : Service Options Conn) (w : W)
        → (start (s, w)).0 ≡ returned none
        → (c : Conn) × (client (of_package (start (s, w)).1.0) ≡ returned (some c))
    unfolding client
    client-start_nats s w ok =
        field_of-IsSettled (λ s. s.c) (start (s, w)) (start-IsSettled_nats s w) ok
