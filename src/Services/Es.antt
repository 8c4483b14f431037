-- ===== src/Services/Es.antt =====
-- services/es1/service.go and env.go, on the elastic package. es2 and es5 have the same code on other
-- versions of it.
use bandmaster.Services.Assertions.{of_package, Interface, AssertionPanic, field_of}
use bandmaster.Services.Environment.{Process}
use bandmaster.Services.Environment
use bandmaster.Base.{
  returned, ◌++◌, ◌∷◌, [], String, pure, ◌>>=◌, ◌>>◌, Option, none, some, ◌≡◌, refl, List, inl, inr,
  Outcome,
}
use bandmaster.Services.Calls.{Call, Code, run, set_service}
use bandmaster.Services.Client.{
  field_of-IsSettled, IsEither, IsSettled, start_client, start_client-IsSettled,
}

-- What the service uses of elastic; the options of the client are functions of the package.
pub record Library (W Opt Client : Type 0) : Type 0 where
  pub set_url : String → Opt
  pub new_client : List Opt → Call W (Option Client × Option String)
  pub ping : Client → String → Call W (Option String)

pub record Config (Opt : Type 0) : Type 0 where
  pub addr : String
  pub opts : List Opt

pub record Env : Type 0 where
  pub addr : String

-- The zero value.
abbrev zero_env : Env
zero_env = record { addr = "" }

-- NewEnv, over `envconfig.Process`.
unfoldable pub new_env : {W : Type 0} → Process W Env → String → Call W (Option Env × Option String)
new_env process prefix = Environment.new_env process zero_env prefix

unfoldable pub config : {Opt : Type 0} → Env → Config Opt
config e = record { addr = e.addr; opts = [] }

pub record Service (Opt Client : Type 0) : Type 0 where
  pub conf : Config Opt
  pub c : Option Client

module _ {Opt Client : Type 0} where
  abbrev pub set_client : Option Client → Service Opt Client → Service Opt Client
  set_client c service = record service { c = c }

module _ {Opt Client : Type 0} where
  unfoldable pub client : Interface (Service Opt Client) → Outcome AssertionPanic (Option Client)
  client = field_of (λ s. s.c)

module _ {W Opt Client : Type 0} (lib : Library W Opt Client) where
  -- The caller's configuration, which the service shares, has its options changed.
  unfoldable pub new : Config Opt → Service Opt Client
  new conf = record {
    conf = record conf { opts = conf.opts ++ lib.set_url conf.addr ∷ [] };
    c = none;
  }

  stop_client : Option Client → Code W (Service Opt Client) (Option String)
  stop_client none = pure none
  stop_client (some c) = do set_service (set_client none); pure none

  unfoldable pub stop : Code W (Service Opt Client) (Option String)
  unfolding stop_client
  stop st = stop_client st.0.c st

  check_result : Option String → Code W (Service Opt Client) (Option String)
  check_result none = pure none
  check_result (some err) = do stop; pure (some err)

  unfoldable pub start : Code W (Service Opt Client) (Option String)
  unfolding check_result
  start st =
      start_client (λ s. s.c) set_client (lib.new_client st.0.conf.opts)
        (λ c. run (lib.ping c st.0.conf.addr) >>= check_result) st

  module _ (either : (opts : List Opt) → IsEither (lib.new_client opts)) where
    settles :
        (r : Option String) (c : Client) (s : Service Opt Client) (w : W)
        → s.c ≡ some c
        → IsSettled (λ s. s.c) (check_result r (s, w))
    unfolding check_result IsSettled stop stop_client
    settles none c s w e = inl (refl, (c, e))
    settles (some err) c s w e = rw (e, stop_client) (inr (err, refl, refl))

    -- Start returns nil and the service has a client, or it returns an error and the service has
    -- none, whatever state it was in, if a client is created exactly when no error is reported.
    pub start-IsSettled_es : (s : Service Opt Client) (w : W) → IsSettled (λ s. s.c) (start (s, w))
    unfolding start
    start-IsSettled_es s w =
        start_client-IsSettled (λ s. s.c) set_client (λ c s. refl) (lib.new_client s.conf.opts)
          (λ c. run (lib.ping c s.conf.addr) >>= check_result) (either s.conf.opts)
          (λ c t w e. settles (lib.ping c s.conf.addr w).0 c t (lib.ping c s.conf.addr w).1 e) s w

    -- Client returns a client of a service behind a Start that has returned nil, if one is created
    -- exactly when no error is reported.
    pub client-start_es :
        (s : Service Opt Client) (w : W)
        → (start (s, w)).0 ≡ returned none
        → (c : Client) × (client (of_package (start (s, w)).1.0) ≡ returned (some c))
    unfolding client
    client-start_es s w ok =
        field_of-IsSettled (λ s. s.c) (start (s, w)) (start-IsSettled_es s w) ok
