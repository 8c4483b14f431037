-- ===== src/Boot/StartAll.antt =====
-- maestro.go: StartAll as a whole: the checks, the goroutines, the wait for them, and the channel
-- `errC`, which is closed at the end whatever happened.
use bandmaster.Base.{
  ℕ, ◌≡◌, String, Bool, true, false, Option, none, some, [], ◌∷◌, length, Exec, ◌>>=◌, returned,
  if◌then◌else◌, nat_eq, In,
}
use bandmaster.Base.Dict.{values}
use bandmaster.Errors.{Err}
use bandmaster.Channel.{Chan, make, close}
use bandmaster.ServiceBase.{Object, new_service_base}
use bandmaster.Registry.{Maestro, Program}
use bandmaster.Deps.{has_missing_deps, has_circular_deps, stop_or}
use bandmaster.Boot.Defs.{Pc, entry, finished, System, Reach}

-- `errC := make(chan error, len(m.services))`
abbrev pub start_err_c : Program → Chan
start_err_c p = make (length p.services)

-- Whether StartAll returns before it starts anything. `fuel` bounds the stack of hasCircularDeps.
unfoldable pub start_checks : Program → ℕ → Exec Err Chan Bool
start_checks p fuel = has_missing_deps p >>= λ missing. stop_or missing (has_circular_deps p fuel)

-- The ServiceBase at each address; an address without one belongs to no goroutine.
unfoldable pub object_or_new : Option Object → Object
object_or_new none = new_service_base
object_or_new (some o) = o

abbrev pub store_of : Program → ℕ → Object
store_of p i = object_or_new (p.objects i)

-- `for _, s := range m.services { go … }`: each service of the map has a goroutine, which is about
-- to begin. In the code each entry has one, which is the same where no service stands under two names,
-- as in a registry that is valid (IsRegistry); the second goroutine of one that does is left out.
unfoldable pub launched : Maestro → ℕ → Pc
launched [] i = finished
launched ((name, s) ∷ rest) i = if nat_eq s i then entry else launched rest i

abbrev pub launch : Program → Chan → System
launch p c = record {
  objects = store_of p;
  pcs = launched p.services;
  err_c = c;
  cancelled = false;
}

-- `wg.Wait()` returns.
abbrev pub AllFinished : Program → System → Type 0
AllFinished p t = (i : ℕ) → In i (values p.services) → t.pcs i ≡ finished

-- A run of StartAll that returns, with the services and the channel that it leaves.
pub data StartAll (p : Program) (fuel : ℕ) (ctx_err : String) : (ℕ → Object) → Chan → Type 0 where
  refused :
      (c d : Chan)
      → start_checks p fuel (start_err_c p) ≡ (returned true, c)
      → close c ≡ returned d
      → StartAll p fuel ctx_err (store_of p) d
  ran :
      (c d : Chan) (t : System)
      → start_checks p fuel (start_err_c p) ≡ (returned false, c)
      → Reach p.services ctx_err (launch p c) t
      → AllFinished p t
      → close t.err_c ≡ returned d
      → StartAll p fuel ctx_err t.objects d
