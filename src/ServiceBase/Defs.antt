-- ===== src/ServiceBase/Defs.antt =====
-- service.go: ServiceBase and its methods. The lock of a ServiceBase is held throughout each of them,
-- so each is one step; `blocked` is a method that waits for ever with the lock held.
use bandmaster.Base.{
  ℕ, ◌+◌, ◌==◌, String, Bool, true, false, not, Option, none, some, List, [], ◌∷◌, ◌++◌,
  if◌then◌else◌, Outcome, returned, panicked, blocked, Exec, pure, panic, modify, ◌>>◌,
}
use bandmaster.Base.Dict.{member}
use bandmaster.Base.Family.{update}
use bandmaster.Errors.{
  Err, plain, error_of, service_depends_on_itself, service_duplicate_dependency,
}
use bandmaster.Errors.Text.{sprintf}
use bandmaster.Channel.{Chan, make, send, close}

-- A channel in `started_cs` and `stopped_cs` is an address among the channels of the service.
pub record ServiceBase : Type 0 where
  pub name : String
  pub required : Bool
  pub retries : ℕ  -- uint
  pub initial_backoff : ℕ  -- time.Duration, an int64 by its bits
  pub direct_deps : List String
  pub started_cs : List ℕ
  pub started : Bool
  pub started_err : Option Err
  pub stopped_cs : List ℕ
  pub stopped : Bool
  pub stopped_err : Option Err

-- A ServiceBase with the channels that its methods have made: `next` is the next free address.
pub record Object : Type 0 where
  pub base : ServiceBase
  pub open base use *
  pub chans : ℕ → Chan
  pub next : ℕ

abbrev pub channel_capacity : ℕ
channel_capacity = 32

unfoldable pub new_service_base : Object
new_service_base = record {
  base = record {
    name = "";
    required = false;
    retries = 0;
    initial_backoff = 0;
    direct_deps = [];
    started_cs = [];
    started = false;
    started_err = none;
    stopped_cs = [];
    stopped = true;
    stopped_err = none;
  };
  chans = λ _. make channel_capacity;
  next = 0;
}

unfoldable pub set_name : String → Object → Object
set_name name o = record o { base = record o.base { name = name } }

unfoldable pub set_required : Bool → Object → Object
set_required required o = record o { base = record o.base { required = required } }

unfoldable pub set_retry_conf : ℕ → ℕ → Object → Object
set_retry_conf retries initial_backoff o = record o {
  base = record o.base { retries = retries; initial_backoff = initial_backoff };
}

unfoldable pub retry_conf : Object → ℕ × ℕ
retry_conf o = (o.retries, o.initial_backoff)

-- `Name`
abbrev pub name : Object → String
name o = o.name

-- `Required`
abbrev pub required : Object → Bool
required o = o.required

-- `String`
unfoldable pub string : Object → String
string o =
    sprintf ("'" ∷ name o ∷ "' [" ∷ (if required o then "required" else "optional") ∷ "]" ∷ [])

-- The body of the loop in `addDependency`, with its two panics.
unfoldable pub add_one : String → Exec Err Object (Unit {0})
add_one dep o =
    if dep == o.name
    then panic (plain (record (error_of service_depends_on_itself) { service_name = o.name })) o
    else if member dep o.direct_deps
    then panic
        (plain (record (error_of service_duplicate_dependency) {
          service_name = o.name;
          dependency = dep;
        }))
        o
    else pure tt (record o { base = record o.base { direct_deps = o.direct_deps ++ dep ∷ [] } })

unfoldable pub add_dependency : List String → Exec Err Object (Unit {0})
add_dependency [] = pure tt
add_dependency (dep ∷ deps) = add_one dep >> add_dependency deps

-- The copy that `Dependencies` returns has the same keys.
unfoldable pub dependencies : Object → List String
dependencies o = o.direct_deps

-- An operation on the channel at an address.
unfoldable pub at_channel : (Chan → Outcome Err Chan) → ℕ → Exec Err Object (Unit {0})
at_channel f c o = elim (f (o.chans c)) [
  | returned ch ↦ (returned tt, record o { chans = update o.chans c ch })
  | panicked e ↦ (panicked e, o)
  | blocked ↦ (blocked, o)
]

-- `for _, c := range cs { … }` over a list of channels.
unfoldable pub each : (Chan → Outcome Err Chan) → List ℕ → Exec Err Object (Unit {0})
each f [] = pure tt
each f (c ∷ cs) = at_channel f c >> each f cs

-- The assignments to the four flags of state.
abbrev pub set_state : Bool → Option Err → Bool → Option Err → Object → Object
set_state started started_err stopped stopped_err o = record o {
  base = record o.base {
    started = started;
    started_err = started_err;
    stopped = stopped;
    stopped_err = stopped_err;
  };
}

unfoldable pub start : Option Err → Exec Err Object (Option Err)
start (some err) o =
    (do
      modify (set_state false (some err) (not false) none)
      λ o. each (send err) o.started_cs o
      pure (some err))
      o
start none o =
    if o.started
    then pure none o
    else (do
      modify (set_state true none (not true) none)
      λ o. each close o.started_cs o
      modify λ o. record o { base = record o.base { started_cs = [] } }
      pure none)
        o

unfoldable pub stop : Option Err → Exec Err Object (Option Err)
stop (some err) o =
    (do
      modify λ o. record o { base = record o.base { stopped = false; stopped_err = some err } }
      λ o. each (send err) o.stopped_cs o
      pure (some err))
      o
stop none o =
    if o.stopped
    then pure none o
    else (do
      modify (set_state (not true) none true none)
      λ o. each close o.stopped_cs o
      modify λ o. record o { base = record o.base { stopped_cs = [] } }
      pure none)
        o

-- A new channel at the next free address.
unfoldable pub allocate : Chan → Object → Object
allocate ch o = record o { chans = update o.chans o.next ch; next = o.next + 1 }

abbrev pub fresh : Chan
fresh = make channel_capacity

-- `Started`: the new channel is closed at once, or appended to the subscribers. Returns its address.
unfoldable pub started_channel : Object → ℕ × Object
started_channel o = if o.started then (o.next, allocate (record fresh { closed = true }) o) else (
  o.next,
  allocate fresh (record o { base = record o.base { started_cs = o.started_cs ++ o.next ∷ [] } }),
)

-- `Stopped`
unfoldable pub stopped_channel : Object → ℕ × Object
stopped_channel o = if o.stopped then (o.next, allocate (record fresh { closed = true }) o) else (
  o.next,
  allocate fresh (record o { base = record o.base { stopped_cs = o.stopped_cs ++ o.next ∷ [] } }),
)
