-- ===== src/Services/Nats/Env.antt =====
-- services/nats/env.go: Env and its Config.
use bandmaster.Services.Calls.{Call}
use bandmaster.Services.Environment.{Process}
use bandmaster.Services.Environment
use bandmaster.Base.{ℕ, String, Bool, List, Option, [], false}

-- Integers and durations stand by their bits.
pub record Env : Type 0 where
  pub addrs : List String
  pub allow_reconnect : Bool
  pub max_reconnect : ℕ
  pub reconnect_wait : ℕ
  pub timeout : ℕ
  pub ping_interval : ℕ
  pub max_pings_out : ℕ
  pub sub_chan_len : ℕ
  pub reconnect_buf_size : ℕ
  pub dialer_timeout : ℕ

-- The zero value.
abbrev zero_env : Env
zero_env = record {
  addrs = [];
  allow_reconnect = false;
  max_reconnect = 0;
  reconnect_wait = 0;
  timeout = 0;
  ping_interval = 0;
  max_pings_out = 0;
  sub_chan_len = 0;
  reconnect_buf_size = 0;
  dialer_timeout = 0;
}

-- NewEnv, over `envconfig.Process`.
unfoldable pub new_env : {W : Type 0} → Process W Env → String → Call W (Option Env × Option String)
new_env process prefix = Environment.new_env process zero_env prefix

-- The options of the package nats that the code sets, and the `others`.
pub record NatsOptions (Dialer Others : Type 0) : Type 0 where
  pub servers : List String
  pub allow_reconnect : Bool
  pub max_reconnect : ℕ
  pub reconnect_wait : ℕ
  pub timeout : ℕ
  pub ping_interval : ℕ
  pub max_pings_out : ℕ
  pub sub_chan_len : ℕ
  pub reconnect_buf_size : ℕ
  pub dialer : Dialer
  pub others : Others

-- `zero_others` is the zero value of the other options, and `net_dialer` a dialer of the package net
-- with its timeout.
unfoldable pub config :
    {Dialer Others : Type 0} → Others → (ℕ → Dialer) → Env → NatsOptions Dialer Others
config zero_others net_dialer e = record {
  servers = e.addrs;
  allow_reconnect = e.allow_reconnect;
  max_reconnect = e.max_reconnect;
  reconnect_wait = e.reconnect_wait;
  timeout = e.timeout;
  ping_interval = e.ping_interval;
  max_pings_out = e.max_pings_out;
  sub_chan_len = e.sub_chan_len;
  reconnect_buf_size = e.reconnect_buf_size;
  dialer = net_dialer e.dialer_timeout;
  others = zero_others;
}
