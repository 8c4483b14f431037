-- ===== src/Shutdown/Defs.antt =====
-- maestro.go: the goroutines of StopAll, each running `stop` on one service, interleaved in any
-- order. A step is a method of a ServiceBase under its lock, or one operation on a channel.
use bandmaster.Base.{
  ◌+◌, length, nat_eq, if◌then◌else◌, ℕ, String, Distinct, Bool, true, false, Option, none, some,
  [], ◌∷◌, ◌≡◌, In, returned, ◌↔◌,
}
use bandmaster.Base.Dict.{member}
use bandmaster.Base.Family.{update}
use bandmaster.Errors.{
  Err, foreign, plain, with_stack, error_of, parent_unavailable, service_stop_failure,
}
use bandmaster.Channel.{Chan, make, receive}
use bandmaster.ServiceBase.{Object, stop, stopped_channel, dependencies, retry_conf}
use bandmaster.Registry.{Maestro}
use bandmaster.Deps.{push}
use bandmaster.Goroutines.{Goroutines, set_chan, move, jump}
use bandmaster.Retry.{Next, next, success, give_up, back_off, increment, double}

-- Where a goroutine stands in `stop`, with its local variables.
pub data Pc : Type 0 where
  entry : Pc  -- before the first `select`
  scanning : (todo : Maestro) → Pc  -- head of the loop over the services
  receiving : (parent : String) (j c : ℕ) (todo : Maestro) → Pc  -- at `<-parentService.Stopped()`
  calling : (attempts ib : ℕ) → Pc  -- before `s.Stop(ctx)`
  backing_off : (attempts ib : ℕ) → Pc  -- at the `select` of the retry loop
  failing : Err → Pc  -- before `return base.stop(err)` with an error
  succeeding : Pc  -- before `return base.stop(err)` with nil
  reporting : Err → Pc  -- before `errC <- err`
  finished : Pc  -- behind `wg.Done()`

-- One goroutine for each service, by its address: no service stands under two names.
abbrev pub System : Type 0
System = Goroutines Pc

abbrev pub stop_failure_of : ℕ → String → Err
stop_failure_of i text =
    plain (record (error_of service_stop_failure) { service = some i; service_err = some text })

abbrev pub unavailable : ℕ → String → Err
unavailable i parent =
    with_stack (record (error_of parent_unavailable) { service = some i; parent = parent })

-- `for _, s := range m.services { go … }`: each service of the map has a goroutine, which is about
-- to begin. In the code each entry has one, which is the same where no service stands under two names,
-- as in a registry that is valid (IsRegistry); the second goroutine of one that does is left out.
unfoldable pub stop_launched : Maestro → ℕ → Pc
stop_launched [] i = finished
stop_launched ((name, s) ∷ rest) i = if nat_eq s i then entry else stop_launched rest i

-- `make(chan error, len(m.services)+1)`, and the goroutines.
abbrev pub stop_launch : Maestro → (ℕ → Object) → System
stop_launch m objects = record {
  objects = objects;
  pcs = stop_launched m;
  err_c = make (length m + 1);
  cancelled = false;
}

-- Behind a call of the service's own Stop.
unfoldable pub after_next : ℕ → ℕ → ℕ → Next → Pc
after_next i attempts ib success = succeeding
after_next i attempts ib (give_up err) = failing (stop_failure_of i err)
after_next i attempts ib back_off = backing_off attempts ib

unfoldable pub after_call : ℕ → ℕ → ℕ → ℕ → Option String → Pc
after_call i max_retries attempts ib result =
    after_next i attempts ib (next max_retries attempts result)

-- The test `pDep == name` for some dependency of the service at `j`.
unfoldable pub needs : (ℕ → Object) → ℕ → ℕ → Bool
needs objects j i = member (objects i).name (dependencies (objects j))

-- The context's error is `ctx_err`. The order in which a goroutine visits the services, the results
-- of the services' own Stop, the choice of a `select` between cases that are ready, the
-- cancellation, and other callers of `Stopped` are left open. A call of `stop` that waits for ever
-- on a full channel takes no step, and what it has done before is left out, as are receives by
-- others.
pub data Step (services : Maestro) (ctx_err : String) (s : System) : System → Type 0 where
  already :
      (i : ℕ)
      → s.pcs i ≡ entry
      → (s.objects i).stopped ≡ true
      → Step services ctx_err s (move s i finished i (stopped_channel (s.objects i)).1)
  abort :
      (i : ℕ)
      → s.pcs i ≡ entry
      → s.cancelled ≡ true
      → Step services ctx_err s
          (move s i (reporting (stop_failure_of i ctx_err)) i (stopped_channel (s.objects i)).1)
  go_on :
      (i : ℕ) (order : Maestro)
      → s.pcs i ≡ entry
      → (s.objects i).stopped ≡ false
      → s.cancelled ≡ false
      → ((e : String × ℕ) → In e order ↔ In e services)
      → Distinct order
      → Step services ctx_err s (move s i (scanning order) i (stopped_channel (s.objects i)).1)
  skip :
      (i j : ℕ) (parent : String) (todo : Maestro)
      → s.pcs i ≡ scanning ((parent, j) ∷ todo)
      → needs s.objects j i ≡ false
      → Step services ctx_err s (jump s i (scanning todo))
  subscribe :
      (i j : ℕ) (parent : String) (todo : Maestro)
      → s.pcs i ≡ scanning ((parent, j) ∷ todo)
      → needs s.objects j i ≡ true
      → Step services ctx_err s (
          move s i
            (receiving parent j (stopped_channel (s.objects j)).0 todo)
            j
            (stopped_channel (s.objects j)).1)
  parent_stopped :
      (i j c : ℕ) (parent : String) (todo : Maestro) (ch : Chan)
      → s.pcs i ≡ receiving parent j c todo
      → receive ((s.objects j).chans c) ≡ returned (none, ch)
      → Step services ctx_err s (move s i (scanning todo) j (set_chan (s.objects j) c ch))
  parent_failed :
      (i j c : ℕ) (parent : String) (todo : Maestro) (e : Err) (ch : Chan)
      → s.pcs i ≡ receiving parent j c todo
      → receive ((s.objects j).chans c) ≡ returned (some e, ch)
      → Step services ctx_err s
          (move s i (failing (unavailable i parent)) j (set_chan (s.objects j) c ch))
  parents_stopped :
      (i : ℕ)
      → s.pcs i ≡ scanning []
      → Step services ctx_err s (jump s i (calling 1 (retry_conf (s.objects i)).1))
  call :
      (i attempts ib : ℕ) (result : Option String)
      → s.pcs i ≡ calling attempts ib
      → Step services ctx_err s
          (jump s i (after_call i (retry_conf (s.objects i)).0 attempts ib result))
  timer :
      (i attempts ib : ℕ)
      → s.pcs i ≡ backing_off attempts ib
      → Step services ctx_err s (jump s i (calling (increment attempts) (double ib)))
  interrupt :
      (i attempts ib : ℕ)
      → s.pcs i ≡ backing_off attempts ib
      → s.cancelled ≡ true
      → Step services ctx_err s (jump s i (reporting (foreign ctx_err)))
  fail :
      (i : ℕ) (e : Err) (r : Option Err) (o : Object)
      → s.pcs i ≡ failing e
      → stop (some e) (s.objects i) ≡ (returned r, o)
      → Step services ctx_err s (move s i (reporting e) i o)
  succeed :
      (i : ℕ) (r : Option Err) (o : Object)
      → s.pcs i ≡ succeeding
      → stop none (s.objects i) ≡ (returned r, o)
      → Step services ctx_err s (move s i finished i o)
  report :
      (i : ℕ) (e : Err) (c : Chan)
      → s.pcs i ≡ reporting e
      → push e s.err_c ≡ (returned tt, c)
      → Step services ctx_err s (record s { pcs = update s.pcs i finished; err_c = c })
  cancel : Step services ctx_err s (record s { cancelled = true })
  outside :
      (j : ℕ)
      → Step services ctx_err s
          (record s { objects = update s.objects j (stopped_channel (s.objects j)).1 })

pub data Reach (services : Maestro) (ctx_err : String) (s : System) : System → Type 0 where
  here : Reach services ctx_err s s
  next_step :
      {t u : System}
      → Reach services ctx_err s t
      → Step services ctx_err t u
      → Reach services ctx_err s u
