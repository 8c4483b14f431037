-- ===== src/Boot/Defs.antt =====
-- maestro.go: the goroutines of StartAll, each running `start` on one service, interleaved in any
-- order. A step is a stretch of code that no other goroutine can divide: a method of a ServiceBase
-- under its lock, or one operation on a channel. The Maestro's lock is held throughout.
use bandmaster.Base.{
  ℕ, String, Distinct, true, false, Option, none, some, List, [], ◌∷◌, ◌≡◌, In, returned, ◌↔◌,
}
use bandmaster.Base.Dict.{lookup}
use bandmaster.Base.Family.{update}
use bandmaster.Errors.{
  Err, foreign, plain, with_stack, error_of, dependency_unavailable, service_start_failure,
}
use bandmaster.Channel.{Chan, receive}
use bandmaster.ServiceBase.{Object, start, started_channel, dependencies, retry_conf}
use bandmaster.Registry.{Maestro}
use bandmaster.Deps.{push}
use bandmaster.Goroutines.{Goroutines, set_chan, move, jump}
use bandmaster.Retry.{Next, next, success, give_up, back_off, increment, double}

-- Where a goroutine stands in `start`, with its local variables.
pub data Pc : Type 0 where
  entry : Pc  -- before the first `select`
  waiting : (todo : List String) → Pc  -- head of the loop over the dependencies
  receiving : (dep : String) (j c : ℕ) (todo : List String) → Pc  -- at `<-d.Started()`
  calling : (attempts ib : ℕ) → Pc  -- before `s.Start(ctx, deps)`
  backing_off : (attempts ib : ℕ) → Pc  -- at the `select` of the retry loop
  failing : Err → Pc  -- before `return base.start(err)`
  succeeding : Pc  -- before `return base.start(nil)`
  reporting : Err → Pc  -- before `errC <- err`
  finished : Pc  -- behind `wg.Done()`
  crashed : Pc  -- a call on a nil service

-- One goroutine for each service, by its address: no service stands under two names.
abbrev pub System : Type 0
System = Goroutines Pc

abbrev pub start_failure_of : ℕ → String → Err
start_failure_of i text =
    plain (record (error_of service_start_failure) { service = some i; service_err = some text })

abbrev pub unavailable : ℕ → String → Err
unavailable i dep =
    with_stack (record (error_of dependency_unavailable) { service = some i; dependency = dep })

-- Behind a call of the service's own Start.
unfoldable pub after_next : ℕ → ℕ → ℕ → Next → Pc
after_next i attempts ib success = succeeding
after_next i attempts ib (give_up err) = failing (start_failure_of i err)
after_next i attempts ib back_off = backing_off attempts ib

unfoldable pub after_call : ℕ → ℕ → ℕ → ℕ → Option String → Pc
after_call i max_retries attempts ib result =
    after_next i attempts ib (next max_retries attempts result)

-- The context's error is `ctx_err`. The order in which a goroutine visits its dependencies, the
-- results of the services' own Start, the choice of a `select` between cases that are ready, the
-- cancellation, and other callers of `Started` are left open. A call of `start` that waits for ever
-- on a full channel takes no step, and what it has done before is left out, as are receives by
-- others.
pub data Step (services : Maestro) (ctx_err : String) (s : System) : System → Type 0 where
  already :
      (i : ℕ)
      → s.pcs i ≡ entry
      → (s.objects i).started ≡ true
      → Step services ctx_err s (move s i finished i (started_channel (s.objects i)).1)
  abort :
      (i : ℕ)
      → s.pcs i ≡ entry
      → s.cancelled ≡ true
      → Step services ctx_err s
          (move s i (reporting (start_failure_of i ctx_err)) i (started_channel (s.objects i)).1)
  go_on :
      (i : ℕ) (order : List String)
      → s.pcs i ≡ entry
      → (s.objects i).started ≡ false
      → s.cancelled ≡ false
      → ((d : String) → In d order ↔ In d (dependencies (s.objects i)))
      → Distinct order
      → Step services ctx_err s (move s i (waiting order) i (started_channel (s.objects i)).1)
  subscribe :
      (i j : ℕ) (d : String) (todo : List String)
      → s.pcs i ≡ waiting (d ∷ todo)
      → lookup d services ≡ some j
      → Step services ctx_err s (
          move s i
            (receiving d j (started_channel (s.objects j)).0 todo)
            j
            (started_channel (s.objects j)).1)
  nil_service :
      (i : ℕ) (d : String) (todo : List String)
      → s.pcs i ≡ waiting (d ∷ todo)
      → lookup d services ≡ none
      → Step services ctx_err s (jump s i crashed)
  dependency_ready :
      (i j c : ℕ) (d : String) (todo : List String) (ch : Chan)
      → s.pcs i ≡ receiving d j c todo
      → receive ((s.objects j).chans c) ≡ returned (none, ch)
      → Step services ctx_err s (move s i (waiting todo) j (set_chan (s.objects j) c ch))
  dependency_failed :
      (i j c : ℕ) (d : String) (todo : List String) (e : Err) (ch : Chan)
      → s.pcs i ≡ receiving d j c todo
      → receive ((s.objects j).chans c) ≡ returned (some e, ch)
      → Step services ctx_err s
          (move s i (failing (unavailable i d)) j (set_chan (s.objects j) c ch))
  dependencies_ready :
      (i : ℕ)
      → s.pcs i ≡ waiting []
      → Step services ctx_err s (jump s i (calling 1 (retry_conf (s.objects i)).1))
  call :
      (i attempts ib : ℕ) (result : Option String)
      → s.pcs i ≡ calling attempts ib
      → Step services ctx_err s
          (jump s i (after_call i (retry_conf (s.objects i)).0 attempts ib result))
  timer :
      (i attempts ib : ℕ)
      → s.pcs i ≡ backing_off attempts ib
      → Step services ctx_err s (jump s i (calling (increment attempts) (double ib)))
  interrupt :
      (i attempts ib : ℕ)
      → s.pcs i ≡ backing_off attempts ib
      → s.cancelled ≡ true
      → Step services ctx_err s (jump s i (reporting (foreign ctx_err)))
  fail :
      (i : ℕ) (e : Err) (r : Option Err) (o : Object)
      → s.pcs i ≡ failing e
      → start (some e) (s.objects i) ≡ (returned r, o)
      → Step services ctx_err s (move s i (reporting e) i o)
  succeed :
      (i : ℕ) (r : Option Err) (o : Object)
      → s.pcs i ≡ succeeding
      → start none (s.objects i) ≡ (returned r, o)
      → Step services ctx_err s (move s i finished i o)
  report :
      (i : ℕ) (e : Err) (c : Chan)
      → s.pcs i ≡ reporting e
      → push e s.err_c ≡ (returned tt, c)
      → Step services ctx_err s (record s { pcs = update s.pcs i finished; err_c = c })
  cancel : Step services ctx_err s (record s { cancelled = true })
  outside :
      (j : ℕ)
      → Step services ctx_err s
          (record s { objects = update s.objects j (started_channel (s.objects j)).1 })

pub data Reach (services : Maestro) (ctx_err : String) (s : System) : System → Type 0 where
  here : Reach services ctx_err s s
  next_step :
      {t u : System}
      → Reach services ctx_err s t
      → Step services ctx_err t u
      → Reach services ctx_err s u
