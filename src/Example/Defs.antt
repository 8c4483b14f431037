-- ===== src/Example/Defs.antt =====
-- example/main.go: main, from the registration of the services to the end of StopAll. What it
-- prints is a value; the sleeps and the lines that only tell of progress are left out.
use bandmaster.Base.{
  ℕ, ◌≡◌, String, true, false, Option, none, some, List, [], ◌∷◌, Outcome, returned, panicked,
  blocked, Exec, pure, panic, ◌>>◌, if◌then◌else◌,
}
use bandmaster.Errors.{Err, Error, foreign, plain, with_stack}
use bandmaster.Errors.Text.{nil_dereference, error}
use bandmaster.Channel.{Chan}
use bandmaster.ServiceBase.{Object, name, required, new_service_base}
use bandmaster.Registry.{Program, service, new_maestro, add_service, add_service_with_backoff}
use bandmaster.Boot.StartAll.{StartAll}
use bandmaster.Shutdown.StopAll.{StopAll}

-- The lines of the loop over the errors of StartAll.
pub data Report : Type 0 where
  required_failed : Error → String → Report  -- "couldn't start required service"
  optional_failed : Error → String → Report  -- "couldn't start optional service"

-- The line about the error `e` of a service.
unfoldable pub report_of : Object → Error → Report
report_of o e = if required o then required_failed e (name o) else optional_failed e (name o)

-- `e.Service.Required()` and `e.Service.Name()` panic at a nil service.
unfoldable pub report_error : (ℕ → Object) → Error → Option ℕ → Outcome String (Option Report)
report_error objects e none = panicked nil_dereference
report_error objects e (some s) = returned (some (report_of (objects s) e))

-- The body of the loop: the cause of the error, if it is one of the package.
unfoldable pub report : (ℕ → Object) → Err → Outcome String (Option Report)
report objects (foreign text) = returned none
report objects (plain e) = report_error objects e e.service
report objects (with_stack e) = report_error objects e e.service

-- What a round adds to the lines of the others.
unfoldable pub cons_report : Report → Outcome String (List Report) → Outcome String (List Report)
cons_report r (returned rs) = returned (r ∷ rs)
cons_report r (panicked p) = panicked p
cons_report r blocked = blocked

unfoldable pub add_report :
    Outcome String (Option Report) → Outcome String (List Report) → Outcome String (List Report)
add_report (panicked p) rest = panicked p
add_report blocked rest = blocked
add_report (returned none) rest = rest
add_report (returned (some r)) rest = cons_report r rest

-- `for err := range m.StartAll(ctx)`, over what the closed channel holds.
unfoldable pub report_all : (ℕ → Object) → List Err → Outcome String (List Report)
report_all objects [] = returned []
report_all objects (e ∷ es) = add_report (report objects e) (report_all objects es)

-- `err.Error()`; an error with a stack has the text of the error that it wraps.
unfoldable pub message : (ℕ → Object) → Err → Outcome String String
message objects (foreign text) = returned text
message objects (plain e) = error (λ i. name (objects i)) e
message objects (with_stack e) = error (λ i. name (objects i)) e

unfoldable pub cons_line : String → Outcome String (List String) → Outcome String (List String)
cons_line line (returned lines) = returned (line ∷ lines)
cons_line line (panicked p) = panicked p
cons_line line blocked = blocked

unfoldable pub add_line :
    Outcome String String → Outcome String (List String) → Outcome String (List String)
add_line (returned line) rest = cons_line line rest
add_line (panicked p) rest = panicked p
add_line blocked rest = blocked

-- `for err := range m.StopAll(ctx)`, over what the closed channel holds.
unfoldable pub print_all : (ℕ → Object) → List Err → Outcome String (List String)
print_all objects [] = returned []
print_all objects (e ∷ es) = add_line (message objects e) (print_all objects es)

-- `mc1`, `mc2`, `mc3` and `rd1`.
unfoldable pub in_use : Program → List (Option ℕ)
in_use p = service "mc-1" p ∷ service "mc-2" p ∷ service "mc-3" p ∷ service "rd-1" p ∷ []

-- The environment of memcached and that of redis are nil where NewEnv has failed, which main does not
-- look at; `Config` dereferences them.
unfoldable pub config_of : {Env : Type 0} → Option Env → Exec Err Program (Unit {0})
config_of none = panic (foreign nil_dereference)
config_of (some e) = pure tt

-- 100 milliseconds.
abbrev pub initial_backoff : ℕ
initial_backoff = 100000000

-- The five services stand at the addresses 0 to 4, in the order in which they are made.
unfoldable pub add_services :
    {Memcached Redis : Type 0} → Option Memcached → Option Redis → Exec Err Program (Unit {0})
add_services memcached_env redis_env = do
  config_of memcached_env
  add_service "mc-1" true 0 ("rd-1" ∷ [])
  config_of memcached_env
  add_service "mc-2" false 1 []
  config_of memcached_env
  add_service "mc-3" true 2 ("mc-2" ∷ [])
  config_of redis_env
  add_service "rd-1" true 3 ("mc-3" ∷ [])
  config_of memcached_env
  add_service_with_backoff "mc-x" true 3 initial_backoff 4 ("mc-1" ∷ "mc-2" ∷ "mc-3" ∷ "rd-1" ∷ [])

-- Before main: no service is registered, and those that it makes are new.
abbrev pub before_main : Program
before_main = record { services = new_maestro; objects = λ i. some new_service_base }

-- A run of main that gets to its end. `fuel` bounds the stack of hasCircularDeps.
pub record Main {Memcached Redis : Type 0} (memcached_env : Option Memcached)
    (redis_env : Option Redis) (fuel : ℕ) (start_ctx stop_ctx : String) : Type 0 where
  pub program : Program
  pub registered : add_services memcached_env redis_env before_main ≡ (returned tt, program)
  pub started : ℕ → Object
  pub start_errors : Chan
  pub boot : StartAll program fuel start_ctx started start_errors
  pub reports : List Report
  pub told : report_all started start_errors.buffer ≡ returned reports
  pub stopped : ℕ → Object
  pub stop_errors : Chan
  pub shutdown : StopAll program.services stop_ctx started stopped stop_errors
  pub lines : List String
  pub printed : print_all stopped stop_errors.buffer ≡ returned lines
