-- ===== src/Services/Kafka/Env.antt =====
-- services/kafka/env.go: Env and its Config.
use bandmaster.Services.Calls.{Call}
use bandmaster.Services.Environment.{Process}
use bandmaster.Services.Environment
use bandmaster.Base.{[], Option, false, ℕ, String, Bool, List}
use bandmaster.Services.Kafka.{Config}

-- Integers of Go stand by their bits; `Version` and `Codec` are sarama's types.
pub record Env (Version Codec : Type 0) : Type 0 where
  pub version : Version
  pub addrs : List String
  pub bufsize : ℕ
  pub prod_notif_success : Bool
  pub prod_notif_error : Bool
  pub prod_compression : Codec
  pub cons_topics : List String
  pub cons_mode : ℕ
  pub cons_group_id : String
  pub cons_notif_rebalance : Bool
  pub cons_notif_error : Bool
  pub cons_offset_initial : ℕ
  pub cons_offset_commit_interval : ℕ
  pub cons_offset_retention : ℕ
  pub cons_retry_backoff : ℕ

module _ {Version Codec : Type 0} where
  -- The zero value, with those of the version and of the codec.
  abbrev zero_env : Version → Codec → Env Version Codec
  zero_env version codec = record {
    version = version;
    addrs = [];
    bufsize = 0;
    prod_notif_success = false;
    prod_notif_error = false;
    prod_compression = codec;
    cons_topics = [];
    cons_mode = 0;
    cons_group_id = "";
    cons_notif_rebalance = false;
    cons_notif_error = false;
    cons_offset_initial = 0;
    cons_offset_commit_interval = 0;
    cons_offset_retention = 0;
    cons_retry_backoff = 0;
  }

  -- NewEnv, over `envconfig.Process`.
  unfoldable pub new_env :
      {W : Type 0}
      → Version
      → Codec
      → Process W (Env Version Codec)
      → String
      → Call W (Option (Env Version Codec) × Option String)
  new_env version codec process prefix = Environment.new_env process (zero_env version codec) prefix

-- The fields of a configuration of sarama-cluster that the code sets, and the `others`.
pub record ClusterConf (Version Codec Others : Type 0) : Type 0 where
  pub group_mode : ℕ
  pub group_return_notifications : Bool
  pub consumer_return_errors : Bool
  pub consumer_offsets_initial : ℕ
  pub consumer_offsets_commit_interval : ℕ
  pub consumer_offsets_retention : ℕ
  pub consumer_retry_backoff : ℕ
  pub producer_return_successes : Bool
  pub producer_return_errors : Bool
  pub producer_compression : Codec
  pub channel_buffer_size : ℕ
  pub version : Version
  pub others : Others

module _ {Version Codec Others : Type 0} where
  -- `new_config` is what `sarama_cluster.NewConfig` returns.
  unfoldable pub config :
      ClusterConf Version Codec Others
      → Env Version Codec
      → Config (ClusterConf Version Codec Others)
  config new_config e = record {
    cluster_conf = record new_config {
      group_mode = e.cons_mode;
      group_return_notifications = e.cons_notif_rebalance;
      consumer_return_errors = e.cons_notif_error;
      consumer_offsets_initial = e.cons_offset_initial;
      consumer_offsets_commit_interval = e.cons_offset_commit_interval;
      consumer_offsets_retention = e.cons_offset_retention;
      consumer_retry_backoff = e.cons_retry_backoff;
      producer_return_successes = e.prod_notif_success;
      producer_return_errors = e.prod_notif_error;
      producer_compression = e.prod_compression;
      channel_buffer_size = e.bufsize;
      version = e.version;
    };
    addrs = e.addrs;
    consumer_topics = e.cons_topics;
    consumer_group_id = e.cons_group_id;
  }
