-- ===== src/Services/Cql/Env.antt =====
-- services/cql/env.go: Env and its Config.
use bandmaster.Services.Calls.{Call}
use bandmaster.Services.Environment.{Process}
use bandmaster.Services.Environment
use bandmaster.Base.{[], Option, none, ℕ, String, List, not, ◌==◌, if◌then◌else◌}

-- Integers and durations stand by their bits; a consistency is a value of gocql.
pub record Env (Consistency : Type 0) : Type 0 where
  pub addrs : List String
  pub protocol_version : ℕ
  pub timeout_connect : ℕ
  pub timeout_limit : ℕ
  pub timeout : ℕ
  pub nb_conns : ℕ
  pub consistency : Consistency
  pub host_filter : String

module _ {Consistency : Type 0} where
  -- The zero value, with `zero` for the consistency.
  abbrev zero_env : Consistency → Env Consistency
  zero_env zero = record {
    addrs = [];
    protocol_version = 0;
    timeout_connect = 0;
    timeout_limit = 0;
    timeout = 0;
    nb_conns = 0;
    consistency = zero;
    host_filter = "";
  }

  -- NewEnv, over `envconfig.Process`.
  unfoldable pub new_env :
      {W : Type 0}
      → Consistency
      → Process W (Env Consistency)
      → String
      → Call W (Option (Env Consistency) × Option String)
  new_env zero process prefix = Environment.new_env process (zero_env zero) prefix

  -- `Decode` of a consistency, over `gocql.ParseConsistency`: the value behind it, and no error.
  unfoldable pub decode : (String → Consistency) → String → Consistency × Option String
  decode parse_consistency c = (parse_consistency c, none)

-- The fields of a cluster configuration of gocql that the code sets, and the `others`.
pub record ClusterConfig (Consistency Filter Others : Type 0) : Type 0 where
  pub proto_version : ℕ
  pub consistency : Consistency
  pub connect_timeout : ℕ
  pub timeout : ℕ
  pub num_conns : ℕ
  pub host_filter : Filter
  pub others : Others

module _ {Consistency Filter Others : Type 0} where
  -- `new_cluster` and `data_centre_filter` are functions of gocql. The first component is what the
  -- code assigns to the package's variable `TimeoutLimit`.
  unfoldable pub config :
      (List String → ClusterConfig Consistency Filter Others)
      → (String → Filter)
      → Env Consistency
      → ℕ × ClusterConfig Consistency Filter Others
  config new_cluster data_centre_filter e = (
    e.timeout_limit,
    record (new_cluster e.addrs) {
      proto_version = e.protocol_version;
      consistency = e.consistency;
      connect_timeout = e.timeout_connect;
      timeout = e.timeout;
      num_conns = e.nb_conns;
      host_filter =
          if not (e.host_filter == "")
          then data_centre_filter e.host_filter
          else (new_cluster e.addrs).host_filter;
    },
  )
