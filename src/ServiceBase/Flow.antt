-- ===== src/ServiceBase/Flow.antt =====
-- service.go: `start` and `stop` keep the invariant, as the Maestro calls them: a failure is only
-- reported of a service that has not reached the state.
use bandmaster.Base.{
  ℕ, ◌≡◌, refl, sym, true, false, not, Option, none, some, List, [], arith, All, All-map,
  and_then-pure_state, if_ind, Distinct, In, inl, inr, returned, Bool-cases,
}
use bandmaster.Errors.{Err}
use bandmaster.Channel.{Chan, send, close}
use bandmaster.ServiceBase.Defs.{Object, set_state, channel_capacity, each, start, stop}
use bandmaster.ServiceBase.Channels.{each-keeps, base-each, each-returns}
use bandmaster.ServiceBase.Invariant.{Subscribed, IsValid, IsValid-with_chans}

-- Sending keeps the capacity of a channel and whether it is closed.
abbrev IsStill : Chan → Type 0
IsStill ch = (ch.capacity ≡ channel_capacity) × (ch.closed ≡ false)

send-IsStill : (err : Err) (a b : Chan) → IsStill a → send err a ≡ returned b → IsStill b
unfolding send
send-IsStill err a b s e = ground arith

each-send-Subscribed :
    (err : Err) (cs : List ℕ) (o : Object) (c : ℕ)
    → Subscribed o c
    → Subscribed (each (send err) cs o).1 c
each-send-Subscribed err cs o c s =
    let still = each-keeps (send err) IsStill (send-IsStill err) cs o c (s.sized, s.unclosed) in
    record { made = rw ((base-each (send err) cs o).1) s.made; sized = still.0; unclosed = still.1 }

each-send-IsValid :
    (err : Err) (cs : List ℕ) (o : Object) → IsValid o → IsValid (each (send err) cs o).1
each-send-IsValid err cs o v =
    IsValid-with_chans o (each (send err) cs o).1 (sym (base-each (send err) cs o).0)
      (each-send-Subscribed err cs o) v

-- A failed start leaves the service stopped, and every subscriber in place.
start_err-IsValid :
    (err : Err) (o : Object) → IsValid o → o.started ≡ false → IsValid (start (some err) o).1
unfolding start
start_err-IsValid err o v e =
    let o' = set_state false (some err) (not false) none o in
    let r = each (send err) o.started_cs o' in
    rw (and_then-pure_state r.0 (some err) r.1) (
      each-send-IsValid err o.started_cs o' (record {
        exclusive = refl;
        none_started = λ t. cc;
        none_stopped = λ t. v.none_stopped (ground arith);
        open_started = v.open_started;
        open_stopped = v.open_stopped;
        distinct_started = v.distinct_started;
        distinct_stopped = v.distinct_stopped;
      }))

-- A failed stop leaves the service running, and every subscriber in place.
stop_err-IsValid :
    (err : Err) (o : Object) → IsValid o → o.stopped ≡ false → IsValid (stop (some err) o).1
unfolding stop
stop_err-IsValid err o v e =
    let o' = record o { base = record o.base { stopped = false; stopped_err = some err } } in
    let r = each (send err) o.stopped_cs o' in
    rw (and_then-pure_state r.0 (some err) r.1) (
      each-send-IsValid err o.stopped_cs o' (record {
        exclusive = ground arith;
        none_started = v.none_started;
        none_stopped = λ t. cc;
        open_started = v.open_started;
        open_stopped = v.open_stopped;
        distinct_started = v.distinct_started;
        distinct_stopped = v.distinct_stopped;
      }))

pub close-unclosed :
    (ch : Chan) → ch.closed ≡ false → close ch ≡ returned (record ch { closed = true })
unfolding close
close-unclosed ch h = ground arith

abbrev pub shut : Chan → Chan
shut ch = record ch { closed = true }

-- Closing every subscriber's channel returns.
pub each_close-returns :
    (cs : List ℕ) (o : Object)
    → All (Subscribed o) cs
    → Distinct cs
    → ((each close cs o).0 ≡ returned tt)
      × ((c : ℕ) → In c cs → (each close cs o).1.chans c ≡ shut (o.chans c))
      × ((c : ℕ) → ¬ In c cs → (each close cs o).1.chans c ≡ o.chans c)
each_close-returns cs o h d =
    each-returns close shut cs o
      (All-map (Subscribed o) (λ c. close (o.chans c) ≡ returned (shut (o.chans c))) cs
        (λ c s. close-unclosed (o.chans c) s.unclosed) h)
      d

-- What a first successful start does: the flags, then the channels, then the list of subscribers.
unfoldable pub opened : Object → Object
opened o =
    let r = (each close o.started_cs (set_state true none false none o)).1 in
    record r { base = record r.base { started_cs = [] } }

pub start-none-eq :
    (o : Object) → IsValid o → o.started ≡ false → start none o ≡ (returned none, opened o)
unfolding start opened
start-none-eq o v e =
    if_ind (λ r. r ≡ (returned none, opened o)) o.started (λ t. cc)
      λ _.
        rw
          (each_close-returns o.started_cs (set_state true none false none o) v.open_started
            v.distinct_started).0

-- `stop` is the mirror image.
unfoldable pub closed : Object → Object
closed o =
    let r = (each close o.stopped_cs (set_state false none true none o)).1 in
    record r { base = record r.base { stopped_cs = [] } }

pub stop-none-eq :
    (o : Object) → IsValid o → o.stopped ≡ false → stop none o ≡ (returned none, closed o)
unfolding stop closed
stop-none-eq o v e =
    if_ind (λ r. r ≡ (returned none, closed o)) o.stopped (λ t. cc)
      λ _.
        rw
          (each_close-returns o.stopped_cs (set_state false none true none o) v.open_stopped
            v.distinct_stopped).0

opened-IsValid : (o : Object) → IsValid o → o.started ≡ false → IsValid (opened o)
unfolding opened
opened-IsValid o v e =
    let o' = set_state true none false none o in
    let b = (base-each close o.started_cs o').0 in
    let none_left : o.stopped_cs ≡ [] = v.none_stopped (ground arith) in
    rw b (record {
      exclusive = refl;
      none_started = λ t. refl;
      none_stopped = λ t. none_left;
      open_started = tt;
      open_stopped = rw none_left tt;
      distinct_started = tt;
      distinct_stopped = v.distinct_stopped;
    })

closed-IsValid : (o : Object) → IsValid o → o.stopped ≡ false → IsValid (closed o)
unfolding closed
closed-IsValid o v e =
    let o' = set_state false none true none o in
    let b = (base-each close o.stopped_cs o').0 in
    let none_left : o.started_cs ≡ [] = v.none_started (ground arith) in
    rw b (record {
      exclusive = refl;
      none_started = λ t. none_left;
      none_stopped = λ t. refl;
      open_started = rw none_left tt;
      open_stopped = tt;
      distinct_started = v.distinct_started;
      distinct_stopped = tt;
    })

-- The Maestro reports a failure to start only of a service that is not started.
abbrev pub MayStart : Option Err → Object → Type 0
MayStart none o = Unit
MayStart (some err) o = o.started ≡ false

abbrev pub MayStop : Option Err → Object → Type 0
MayStop none o = Unit
MayStop (some err) o = o.stopped ≡ false

pub start-none_again : (o : Object) → o.started ≡ true → start none o ≡ (returned none, o)
unfolding start
start-none_again o e = ground arith

pub stop-none_again : (o : Object) → o.stopped ≡ true → stop none o ≡ (returned none, o)
unfolding stop
stop-none_again o e = ground arith

-- Reporting the end of a start, a failure of a service that is not started or a success, keeps a
-- ServiceBase valid.
pub start-IsValid : (r : Option Err) (o : Object) → IsValid o → MayStart r o → IsValid (start r o).1
start-IsValid (some err) o v may = start_err-IsValid err o v may
start-IsValid none o v may = elim (Bool-cases o.started) [
  | inl e ↦ rw (start-none_again o e) v
  | inr e ↦ rw (start-none-eq o v e) (opened-IsValid o v e)
]

-- Reporting the end of a stop, a failure of a service that is not stopped or a success, keeps a
-- ServiceBase valid.
pub stop-IsValid : (r : Option Err) (o : Object) → IsValid o → MayStop r o → IsValid (stop r o).1
stop-IsValid (some err) o v may = stop_err-IsValid err o v may
stop-IsValid none o v may = elim (Bool-cases o.stopped) [
  | inl e ↦ rw (stop-none_again o e) v
  | inr e ↦ rw (stop-none-eq o v e) (closed-IsValid o v e)
]
