-- ===== src/Services/Es2.antt =====
-- services/es2/service.go and env.go: the code of es1 on another version of the elastic package.
use bandmaster.Services.Assertions.{Interface, AssertionPanic, field_of}
use bandmaster.Services.Environment.{Process}
use bandmaster.Services.Environment
use bandmaster.Base.{String, Option, List, [], Outcome}
use bandmaster.Services.Calls.{Call, Code}
use bandmaster.Services.Client.{IsEither, IsSettled}
use bandmaster.Services.Es

-- What the service uses of elastic.
pub record Library (W Opt Client : Type 0) : Type 0 where
  pub set_url : String → Opt
  pub new_client : List Opt → Call W (Option Client × Option String)
  pub ping : Client → String → String → Call W (Option String)

abbrev pub Config : Type 0 → Type 0
Config = Es.Config

abbrev pub Service : Type 0 → Type 0 → Type 0
Service = Es.Service

pub record Env : Type 0 where
  pub addr : String

-- The zero value.
abbrev zero_env : Env
zero_env = record { addr = "" }

-- NewEnv, over `envconfig.Process`.
unfoldable pub new_env : {W : Type 0} → Process W Env → String → Call W (Option Env × Option String)
new_env process prefix = Environment.new_env process zero_env prefix

unfoldable pub config : {Opt : Type 0} → Env → Config Opt
config e = record { addr = e.addr; opts = [] }

module _ {Opt Client : Type 0} where
  unfoldable pub client : Interface (Service Opt Client) → Outcome AssertionPanic (Option Client)
  client = field_of (λ s. s.c)

module _ {W Opt Client : Type 0} (lib : Library W Opt Client) where
  -- The functions of elastic with the arguments that Start gives them.
  abbrev at_start : Es.Library W Opt Client
  at_start = record {
    set_url = lib.set_url;
    new_client = lib.new_client;
    ping = λ c addr. lib.ping c addr "1s";
  }

  unfoldable pub new : Config Opt → Service Opt Client
  new = Es.new (at_start)

  unfoldable pub start : Code W (Service Opt Client) (Option String)
  start = Es.start (at_start)

  unfoldable pub stop : Code W (Service Opt Client) (Option String)
  stop = Es.stop (at_start)

  -- Start returns nil and the service has a client, or it returns an error and the service has
  -- none, whatever state it was in, if a client is created exactly when no error is reported.
  pub start-IsSettled_es2 :
      (either : (opts : List Opt) → IsEither (lib.new_client opts)) (s : Service Opt Client) (w : W)
      → IsSettled (λ s. s.c) (start (s, w))
  unfolding start
  start-IsSettled_es2 either s w = Es.start-IsSettled_es (at_start) either s w
