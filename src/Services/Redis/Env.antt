-- ===== src/Services/Redis/Env.antt =====
-- services/redis/env.go: Env and its Config.
use bandmaster.Services.Environment.{Process}
use bandmaster.Services.Environment
use bandmaster.Base.{ℕ, String, Bool, Option, false}
use bandmaster.Services.Calls.{Call}

-- Integers and durations stand by their bits.
pub record Env : Type 0 where
  pub uri : String
  pub max_conns_idle : ℕ
  pub max_conns_active : ℕ
  pub timeout_idle : ℕ
  pub timeout_read : ℕ
  pub timeout_write : ℕ
  pub wait : Bool

-- The zero value.
abbrev zero_env : Env
zero_env = record {
  uri = "";
  max_conns_idle = 0;
  max_conns_active = 0;
  timeout_idle = 0;
  timeout_read = 0;
  timeout_write = 0;
  wait = false;
}

-- NewEnv, over `envconfig.Process`.
unfoldable pub new_env : {W : Type 0} → Process W Env → String → Call W (Option Env × Option String)
new_env process prefix = Environment.new_env process zero_env prefix

-- What the configuration uses of redigo: `dial_url` with the timeouts for reads and for writes, and
-- `err` of a connection.
pub record Redigo (W Conn : Type 0) : Type 0 where
  pub dial_url : String → ℕ → ℕ → Call W (Option Conn × Option String)
  pub err : Conn → Call W (Option String)

-- The fields of a pool of redigo that the code sets; the time since which a connection was idle is
-- not looked at.
pub record Pool (W Conn : Type 0) : Type 0 where
  pub max_idle : ℕ
  pub max_active : ℕ
  pub idle_timeout : ℕ
  pub wait : Bool
  pub dial : Call W (Option Conn × Option String)
  pub test_on_borrow : Conn → ℕ → Call W (Option String)

unfoldable pub config : {W Conn : Type 0} → Redigo W Conn → Env → Pool W Conn
config redigo e = record {
  max_idle = e.max_conns_idle;
  max_active = e.max_conns_active;
  idle_timeout = e.timeout_idle;
  wait = e.wait;
  dial = redigo.dial_url e.uri e.timeout_read e.timeout_write;
  test_on_borrow = λ c t. redigo.err c;
}
