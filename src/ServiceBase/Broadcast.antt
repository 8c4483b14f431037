-- ===== src/ServiceBase/Broadcast.antt =====
-- service.go: what the subscribers of a ServiceBase see when a start or a stop ends.
use bandmaster.Base.{
  ℕ, ◌≡◌, refl, true, false, none, some, List, [], ◌∷◌, ◌++◌, arith, All, All-map₂, if◌then◌else◌,
  Distinct, In, returned, blocked, ap,
}
use bandmaster.Errors.{Err}
use bandmaster.Channel.{Chan, HasRoom, make, send, close, receive}
use bandmaster.ServiceBase.Defs.{
  Object, set_state, channel_capacity, each, start, stop, allocate, started_channel,
}
use bandmaster.ServiceBase.Channels.{base-each, each-returns}
use bandmaster.ServiceBase.Invariant.{Subscribed, IsValid}
use bandmaster.ServiceBase.Flow.{
  shut, opened, closed, start-none-eq, stop-none-eq, each_close-returns,
}

-- The channels `after` are those `before`, changed by `g` at the addresses of `cs` and nowhere else.
pub record ChangesChans (g : Chan → Chan) (cs : List ℕ) (before after : ℕ → Chan) : Type 0 where
  pub listed : (c : ℕ) → In c cs → after c ≡ g (before c)
  pub unlisted : (c : ℕ) → ¬ In c cs → after c ≡ before c

abbrev pub Changes : (Chan → Chan) → List ℕ → Object → Object → Type 0
Changes g cs o o' = ChangesChans g cs o.chans o'.chans

opened-Changes : (o : Object) → IsValid o → Changes shut o.started_cs o (opened o)
unfolding opened
opened-Changes o v =
    let (_, l, u) =
      each_close-returns o.started_cs (set_state true none false none o) v.open_started
        v.distinct_started in
    record { listed = l; unlisted = u }

closed-Changes : (o : Object) → IsValid o → Changes shut o.stopped_cs o (closed o)
unfolding closed
closed-Changes o v =
    let (_, l, u) =
      each_close-returns o.stopped_cs (set_state false none true none o) v.open_stopped
        v.distinct_stopped in
    record { listed = l; unlisted = u }

opened_flags :
    (o : Object)
    → ((opened o).started ≡ true) × ((opened o).stopped ≡ false) × ((opened o).started_cs ≡ [])
unfolding opened
opened_flags o =
    let b = (base-each close o.started_cs (set_state true none false none o)).0 in
    (ap (λ s. s.started) b, ap (λ s. s.stopped) b, refl)

-- The first successful start of a valid ServiceBase returns nil, sets its flags, closes the channel
-- of every subscriber with its unread errors left in it, touches no other channel, and leaves no
-- subscriber.
pub start_success :
    (o : Object)
    → IsValid o
    → o.started ≡ false
    → ((start none o).0 ≡ returned none)
      × ((start none o).1.started ≡ true)
      × ((start none o).1.stopped ≡ false)
      × ((start none o).1.started_cs ≡ [])
      × Changes shut o.started_cs o (start none o).1
start_success o v e =
    let (a, b, c) = opened_flags o in rw (start-none-eq o v e) (refl, a, b, c, opened-Changes o v)

abbrev pub appended : Err → Chan → Chan
appended err ch = record ch { buffer = ch.buffer ++ err ∷ [] }

pub send-returned :
    (err : Err) (ch : Chan)
    → ch.closed ≡ false
    → HasRoom ch
    → send err ch ≡ returned (appended err ch)
unfolding send
send-returned err ch e room = ground arith

pub send-blocked :
    (err : Err) (ch : Chan) → ch.closed ≡ false → ¬ HasRoom ch → send err ch ≡ blocked
unfolding send
send-blocked err ch e full = ground arith

abbrev pub Roomy : Object → ℕ → Type 0
Roomy o c = HasRoom (o.chans c)

pub each-send-returns :
    (err : Err) (cs : List ℕ) (o : Object)
    → All (Subscribed o) cs
    → All (Roomy o) cs
    → Distinct cs
    → ((each (send err) cs o).0 ≡ returned tt)
      × Changes (appended err) cs o (each (send err) cs o).1
each-send-returns err cs o s r d =
    let (e, l, u) =
      each-returns (send err) (appended err) cs o
        (All-map₂ (Subscribed o) (Roomy o)
          (λ c. send err (o.chans c) ≡ returned (appended err (o.chans c))) cs
          (λ c a b. send-returned err (o.chans c) a.unclosed b) s r)
        d in
    (e, record { listed = l; unlisted = u })

-- A failed start of a valid ServiceBase whose subscribers all have room returns the error it was
-- given, appends it to what each subscriber has not yet read, touches no other channel, and keeps
-- the subscribers; the service counts as stopped.
pub start_failure :
    (err : Err) (o : Object)
    → IsValid o
    → All (Roomy o) o.started_cs
    → ((start (some err) o).0 ≡ returned (some err))
      × ((start (some err) o).1.started ≡ false)
      × ((start (some err) o).1.stopped ≡ true)
      × ((start (some err) o).1.started_cs ≡ o.started_cs)
      × Changes (appended err) o.started_cs o (start (some err) o).1
unfolding start
start_failure err o v room =
    let o' = set_state false (some err) true none o in
    let (e, c) = each-send-returns err o.started_cs o' v.open_started room v.distinct_started in
    let b = (base-each (send err) o.started_cs o').0 in
    rw e (refl, ap (λ s. s.started) b, ap (λ s. s.stopped) b, ap (λ s. s.started_cs) b, c)

closed_flags :
    (o : Object)
    → ((closed o).started ≡ false) × ((closed o).stopped ≡ true) × ((closed o).stopped_cs ≡ [])
unfolding closed
closed_flags o =
    let b = (base-each close o.stopped_cs (set_state false none true none o)).0 in
    (ap (λ s. s.started) b, ap (λ s. s.stopped) b, refl)

-- The first successful stop of a valid ServiceBase returns nil, sets its flags, closes the channel
-- of every subscriber to the stop with its unread errors left in it, touches no other channel, and
-- leaves no such subscriber.
pub stop_success :
    (o : Object)
    → IsValid o
    → o.stopped ≡ false
    → ((stop none o).0 ≡ returned none)
      × ((stop none o).1.started ≡ false)
      × ((stop none o).1.stopped ≡ true)
      × ((stop none o).1.stopped_cs ≡ [])
      × Changes shut o.stopped_cs o (stop none o).1
stop_success o v e =
    let (a, b, c) = closed_flags o in rw (stop-none-eq o v e) (refl, a, b, c, closed-Changes o v)

-- A failed stop of a valid ServiceBase whose subscribers all have room returns the error it was
-- given, appends it to what each subscriber has not yet read, touches no other channel, and keeps
-- the subscribers; the service does not count as stopped, and whether it counts as started stays.
pub stop_failure :
    (err : Err) (o : Object)
    → IsValid o
    → All (Roomy o) o.stopped_cs
    → ((stop (some err) o).0 ≡ returned (some err))
      × ((stop (some err) o).1.started ≡ o.started)
      × ((stop (some err) o).1.stopped ≡ false)
      × ((stop (some err) o).1.stopped_cs ≡ o.stopped_cs)
      × Changes (appended err) o.stopped_cs o (stop (some err) o).1
unfolding stop
stop_failure err o v room =
    let o' = record o { base = record o.base { stopped = false; stopped_err = some err } } in
    let (e, c) = each-send-returns err o.stopped_cs o' v.open_stopped room v.distinct_stopped in
    let b = (base-each (send err) o.stopped_cs o').0 in
    rw e (refl, ap (λ s. s.started) b, ap (λ s. s.stopped) b, ap (λ s. s.stopped_cs) b, c)

-- A channel from `Started` yields nil at once if the service is started, and nothing yet if not.
pub receive-started_channel :
    (o : Object)
    → receive ((started_channel o).1.chans (started_channel o).0) ≡ (
        if o.started
        then returned (none, record (make channel_capacity) { closed = true })
        else blocked)
unfolding started_channel allocate receive
receive-started_channel o = ground arith
