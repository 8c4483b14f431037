-- ===== src/Services/Sql.antt =====
-- services/sql/service.go and env.go, on the package database/sql.
use bandmaster.Services.Assertions.{Interface, AssertionPanic, field_of}
use bandmaster.Services.Environment.{Process}
use bandmaster.Services.Environment
use bandmaster.Base.{ℕ, String, pure, ◌>>=◌, ◌>>◌, Option, none, some, ◌≡◌, refl, Outcome}
use bandmaster.Services.Calls.{Call, Code, run, deref, set_service}

pub record Env : Type 0 where
  pub driver : String
  pub addr : String
  pub conn_max_lifetime : ℕ
  pub max_idle_conns : ℕ
  pub max_open_conns : ℕ

-- The zero value.
abbrev zero_env : Env
zero_env = record {
  driver = "";
  addr = "";
  conn_max_lifetime = 0;
  max_idle_conns = 0;
  max_open_conns = 0;
}

-- NewEnv, over `envconfig.Process`.
unfoldable pub new_env : {W : Type 0} → Process W Env → String → Call W (Option Env × Option String)
new_env process prefix = Environment.new_env process zero_env prefix

pub record Config : Type 0 where
  pub driver : String
  pub addr : String
  pub conn_max_lifetime : ℕ
  pub max_idle_conns : ℕ
  pub max_open_conns : ℕ

unfoldable pub config : Env → Config
config e = record {
  driver = e.driver;
  addr = e.addr;
  conn_max_lifetime = e.conn_max_lifetime;
  max_idle_conns = e.max_idle_conns;
  max_open_conns = e.max_open_conns;
}

-- What the service uses of database/sql.
pub record Library (W Db : Type 0) : Type 0 where
  pub open_db : String → String → Call W (Option Db × Option String)
  pub set_conn_max_lifetime : Db → ℕ → Call W (Unit {0})
  pub set_max_idle_conns : Db → ℕ → Call W (Unit {0})
  pub set_max_open_conns : Db → ℕ → Call W (Unit {0})
  pub ping : Db → Call W (Option String)
  pub close : Db → Call W (Option String)

pub record Service (Db : Type 0) : Type 0 where
  pub config : Config
  pub db : Option Db

abbrev pub set_db : {Db : Type 0} → Option Db → Service Db → Service Db
set_db db s = record s { db = db }

unfoldable pub new : {Db : Type 0} → Config → Service Db
new conf = record { config = conf; db = none }

module _ {Db : Type 0} where
  unfoldable pub client : Interface (Service Db) → Outcome AssertionPanic (Option Db)
  client = field_of (λ s. s.db)

module _ {W Db : Type 0} (lib : Library W Db) where
  -- Behind `sql.Open`, whose results are assigned.
  unfoldable pub opened : Option Db × Option String → Code W (Service Db) (Option String)
  opened (db, some err) st = pure (some err) st
  opened (db, none) st =
      (deref db >>= λ db. do
        run (lib.set_conn_max_lifetime db st.0.config.conn_max_lifetime)
        run (lib.set_max_idle_conns db st.0.config.max_idle_conns)
        run (lib.set_max_open_conns db st.0.config.max_open_conns)
        run (lib.ping db))
        st

  unfoldable pub start : Code W (Service Db) (Option String)
  start st =
      (run (lib.open_db st.0.config.driver st.0.config.addr) >>= λ r. do
        set_service (set_db r.0)
        opened r)
        st

  -- `Close` on a nil database panics; the database stays in the service.
  unfoldable pub stop : Code W (Service Db) (Option String)
  stop st = (deref st.0.db >>= λ db. run (lib.close db)) st

  opened-keeps :
      (r : Option Db × Option String) (s : Service Db) (w : W) (db : Db)
      → r ≡ (some db, none)
      → (opened r (set_db r.0 s, w)).1.0.db ≡ some db
  unfolding opened
  opened-keeps r s w db e = rw e refl

  -- A service that is started again has the database of the second call of `sql.Open`, whatever it
  -- had before.
  pub start-replaces :
      (s : Service Db) (w : W) (old new_db : Db)
      → s.db ≡ some old
      → (lib.open_db s.config.driver s.config.addr w).0 ≡ (some new_db, none)
      → (start (s, w)).1.0.db ≡ some new_db
  unfolding start
  start-replaces s w old new_db has made =
      opened-keeps (lib.open_db s.config.driver s.config.addr w).0 s
        (lib.open_db s.config.driver s.config.addr w).1 new_db made
