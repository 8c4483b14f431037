-- ===== src/Services/Cql.antt =====
-- services/cql/service.go, on the gocql package.
pub mod Env
use bandmaster.Services.Assertions.{of_package, Interface, AssertionPanic, field_of}
use bandmaster.Base.{
  returned, String, pure, ◌>>=◌, ◌>>◌, Option, none, some, ◌≡◌, refl, inl, inr, Outcome,
}
use bandmaster.Services.Calls.{Call, Code, run, set_service}
use bandmaster.Services.Client.{
  field_of-IsSettled, IsEither, IsSettled, start_client, start_client-IsSettled,
}

-- What the service uses of gocql.
pub record Library (W ClusterConfig Session : Type 0) : Type 0 where
  pub create_session : ClusterConfig → Call W (Option Session × Option String)
  pub exec : Session → String → Call W (Option String)
  pub close : Session → Call W (Unit {0})

pub record Service (ClusterConfig Session : Type 0) : Type 0 where
  pub cc : ClusterConfig
  pub s : Option Session

abbrev pub version_query : String
version_query = "SELECT cql_version FROM system.local"

module _ {ClusterConfig Session : Type 0} where
  unfoldable pub new : ClusterConfig → Service ClusterConfig Session
  new config = record { cc = config; s = none }

  abbrev pub set_session :
      Option Session → Service ClusterConfig Session → Service ClusterConfig Session
  set_session s service = record service { s = s }

module _ {ClusterConfig Session : Type 0} where
  unfoldable pub client :
      Interface (Service ClusterConfig Session) → Outcome AssertionPanic (Option Session)
  client = field_of (λ s. s.s)

  unfoldable pub config_of :
      Interface (Service ClusterConfig Session) → Outcome AssertionPanic (ClusterConfig)
  config_of = field_of (λ s. s.cc)

module _ {W ClusterConfig Session : Type 0} (lib : Library W ClusterConfig Session) where
  stop_session : Option Session → Code W (Service ClusterConfig Session) (Option String)
  stop_session none = pure none
  stop_session (some s) = do run (lib.close s); set_service (set_session none); pure none

  unfoldable pub stop : Code W (Service ClusterConfig Session) (Option String)
  unfolding stop_session
  stop st = stop_session st.0.s st

  check_result : Option String → Code W (Service ClusterConfig Session) (Option String)
  check_result none = pure none
  check_result (some err) = do stop; pure (some err)

  unfoldable pub start : Code W (Service ClusterConfig Session) (Option String)
  unfolding check_result
  start st =
      start_client (λ s. s.s) set_session (lib.create_session st.0.cc)
        (λ s. run (lib.exec s version_query) >>= check_result) st

  module _ (either : (config : ClusterConfig) → IsEither (lib.create_session config)) where
    settles :
        (r : Option String) (c : Session) (s : Service ClusterConfig Session) (w : W)
        → s.s ≡ some c
        → IsSettled (λ s. s.s) (check_result r (s, w))
    unfolding check_result IsSettled stop stop_session
    settles none c s w e = inl (refl, (c, e))
    settles (some err) c s w e = rw (e, stop_session) (inr (err, refl, refl))

    -- Start returns nil and the service has a session, or it returns an error and the service has
    -- none, whatever state it was in, if a session is created exactly when no error is reported.
    pub start-IsSettled_cql :
        (s : Service ClusterConfig Session) (w : W) → IsSettled (λ s. s.s) (start (s, w))
    unfolding start
    start-IsSettled_cql s w =
        start_client-IsSettled (λ s. s.s) set_session (λ c s. refl) (lib.create_session s.cc)
          (λ c. run (lib.exec c version_query) >>= check_result) (either s.cc)
          (λ c s w e. settles (lib.exec c version_query w).0 c s (lib.exec c version_query w).1 e) s
          w

    -- Client returns a session of a service behind a Start that has returned nil, if one is created
    -- exactly when no error is reported.
    pub client-start_cql :
        (s : Service ClusterConfig Session) (w : W)
        → (start (s, w)).0 ≡ returned none
        → (c : Session) × (client (of_package (start (s, w)).1.0) ≡ returned (some c))
    unfolding client
    client-start_cql s w ok =
        field_of-IsSettled (λ s. s.s) (start (s, w)) (start-IsSettled_cql s w) ok
