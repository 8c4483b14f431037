-- ===== src/Tests/Clients.antt =====
-- The services on concrete client libraries; the world counts the calls.
use bandmaster.Base.{
  In, ℕ, ◌+◌, ◌≡◌, refl, ◌↔◌, ◌≢◌, String, Bool, true, none, some, List, [], ◌∷◌, returned, arith,
  All, Distinct, nat_eq, not, ◌&&◌, All-of_in,
}
use bandmaster.Services.Cql
use bandmaster.Services.Nats
use bandmaster.Services.Es
use bandmaster.Services.Redis
use bandmaster.Services.Sql
use bandmaster.Services.Memcached
use bandmaster.Services.Kafka
use bandmaster.Services.Kafka.Lifecycle
use bandmaster.Services.Kafka.Texts

abbrev cql : Cql.Library ℕ String ℕ
cql = record {
  create_session = λ config w. ((some 1, none), w + 1);
  exec = λ s query w. (some "timeout", w + 1);
  close = λ s w. (tt, w + 1);
}

abbrev nats : Nats.Library ℕ String ℕ
nats = record {
  connect = λ opts w. ((none, some "no servers"), w + 1);
  is_connected = λ c w. (true, w);
  close = λ c w. (tt, w + 1);
}

abbrev es : Es.Library ℕ String ℕ
es = record {
  set_url = λ addr. addr;
  new_client = λ opts w. ((some 1, none), w + 1);
  ping = λ c addr w. (none, w + 1);
}

abbrev redis : Redis.Library ℕ String ℕ
redis = record {
  dial = λ pool w. ((some 1, none), w + 1);
  command = λ c text w. (some "NOAUTH", w + 1);
  close = λ c w. (tt, w + 1);
}

abbrev sql : Sql.Library ℕ ℕ
sql = record {
  open_db = λ driver addr w. ((some w, none), w + 1);
  set_conn_max_lifetime = λ db t w. (tt, w);
  set_max_idle_conns = λ db n w. (tt, w);
  set_max_open_conns = λ db n w. (tt, w);
  ping = λ db w. (none, w + 1);
  close = λ db w. (none, w + 1);
}

abbrev sql_service : Sql.Service ℕ
sql_service = record {
  config = record {
    driver = "postgres";
    addr = "local";
    conn_max_lifetime = 600;
    max_idle_conns = 1;
    max_open_conns = 2;
  };
  db = some 3;
}

abbrev memcached : Memcached.Library ℕ ℕ
memcached = record {
  new_client = λ addrs w. ((some 1, none), w + 1);
  set_timeout = λ c t w. (tt, w);
  get = λ c key w. (Memcached.found, w + 1);
  close = λ c w. (none, w + 1);
}

abbrev memcached_service : Memcached.Service ℕ
memcached_service = record { conf = record { addrs = "local" ∷ []; timeout_rw = 2 }; c = none }

-- The key is there: `Start` returns nil and there is no client.
start-replied_example :
    ((Memcached.start memcached (memcached_service, 0)).0 ≡ returned none)
    × ((Memcached.start memcached (memcached_service, 0)).1.0.c ≡ none)
unfolding Memcached.reply_error Memcached.kept Memcached.reply Memcached.at_get
start-replied_example = Memcached.start-replied memcached memcached_service 1 0 refl refl

abbrev kafka : Kafka.Library ℕ String ℕ ℕ
kafka = record {
  validate = λ conf. none;
  new_consumer = λ addrs group topics conf w. ((some 1, none), w + 1);
  new_producer = λ addrs conf w. ((some 2, none), w + 1);
  close_consumer = λ c w. (none, w + 1);
  close_producer = λ p w. (none, w + 1);
}

abbrev kafka_service : Kafka.Service String ℕ ℕ
kafka_service = record {
  running = true;
  conf = record {
    cluster_conf = "default";
    addrs = [];
    consumer_topics = "events" ∷ [];
    consumer_group_id = "readers";
  };
  c = some 1;
  p = some 2;
}

stop-keeps_producer_example : (Kafka.stop kafka (kafka_service, 0)).1.0.p ≡ some 2
stop-keeps_producer_example = Lifecycle.stop-keeps_producer kafka kafka_service 0

abbrev codecs : Texts.Codecs ℕ
codecs = record { uncompressed = 0; snappy = 2; lz4 = 3; gzip = 1 }

nat_eq_iff : (v c : ℕ) → (nat_eq v c ≡ true) ↔ (v ≡ c)
nat_eq_iff v c = (λ e. ground arith, λ e. ground arith)

abbrev absent : ℕ → List ℕ → Bool
absent n [] = true
absent n (m ∷ ms) = not (nat_eq n m) && absent n ms

abbrev distinct : List ℕ → Bool
distinct [] = true
distinct (n ∷ ns) = absent n ns && distinct ns

absent_lem : (n : ℕ) (ns : List ℕ) → absent n ns ≡ true → All (λ m. n ≢ m) ns
absent_lem n [] h = tt
absent_lem n (m ∷ ms) h = (λ e. ground arith, absent_lem n ms (ground arith))

distinct_lem : (ns : List ℕ) → distinct ns ≡ true → Distinct ns
distinct_lem [] h = tt
distinct_lem (n ∷ ns) h = (absent_lem n ns (ground arith), distinct_lem ns (ground arith))

abbrev versions : Texts.Versions ℕ
versions = record {
  v0_8_2_0 = 0;
  v0_8_2_1 = 1;
  v0_8_2_2 = 2;
  v0_9_0_0 = 3;
  v0_9_0_1 = 4;
  v0_10_0_0 = 5;
  v0_10_0_1 = 6;
  v0_10_1_0 = 7;
  v0_10_2_0 = 8;
  v0_11_0_0 = 9;
  v1_0_0_0 = 10;
}

version_round_trip_example :
    ((v old : ℕ)
      → In v (Texts.versions_of versions)
      → Texts.version_decode nat_eq versions (λ t. t) (Texts.version_string nat_eq versions v) old
        ≡ (none, v))
    × ((vv : String) (v old : ℕ)
        → Texts.version_decode nat_eq versions (λ t. t) vv old ≡ (none, v)
        → Texts.version_string nat_eq versions v ≡ vv)
version_round_trip_example =
    Texts.version_round_trip nat_eq nat_eq_iff versions (λ t. t)
      (distinct_lem (Texts.versions_of versions) refl)
      (All-of_in
        (λ v. Texts.version_string nat_eq versions v ≡ Texts.version_string nat_eq versions v)
        (Texts.versions_of versions) (λ v m. refl))
