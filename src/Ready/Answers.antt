-- ===== src/Ready/Answers.antt =====
-- maestro.go: what the answer of ServiceReady means, and that it comes.
use bandmaster.Base.{
  ℕ, zero, suc, ◌≡◌, refl, sym, ap, ◌∙◌, subst, ◌≢◌, ◌⊎◌, inl, inr, String, Bool, true, false,
  Option, none, some, List, [], ◌∷◌, In, Outcome, returned, panicked, blocked, Bool-cases,
  Option-cases, length,
}
use bandmaster.Base.Dict.{lookup}
use bandmaster.Base.Family.{update_self}
use bandmaster.Errors.{Err}
use bandmaster.Channel.{Chan, receive, receive-none-closed, receive-shut, receive-more}
use bandmaster.ServiceBase.{Object, start, stop, started_channel, stopped_channel}
use bandmaster.ServiceBase.Invariant.{IsValid}
use bandmaster.Ready.Open.{
  IsOpenAt, watch_start-IsOpenAt, watch_stop-IsOpenAt, start_err-IsOpenAt, stop_err-IsOpenAt,
  stop-none-IsOpenAt, receive-IsOpenAt, started_channel-IsOpenAt,
}
use bandmaster.ServiceBase.Broadcast.{start_success}
use bandmaster.Goroutines.{set_chan}
use bandmaster.Registry.{Maestro}
use bandmaster.Ready.Defs.{
  Turn, done, tries, starts, stops, watches_start, watches_stop, Answer, nil, found, waits,
  received, turn, unless_answered, wait_ready, service_ready,
}

true_ne_false : ◌≢◌ {A = Bool} true false
true_ne_false e = cc

nil_ne_found : (k : ℕ) → nil ≢ found k
nil_ne_found k e = cc

Receive-cases :
    (r : Outcome Err (Option Err × Chan))
    → ((ch : Chan) × (r ≡ returned (none, ch)))
      ⊎ ((e : Err) × (ch : Chan) × (r ≡ returned (some e, ch)))
      ⊎ ((s c : ℕ) (o : Object) → received s c r o ≡ (waits, o))
unfolding received
Receive-cases (returned (none, ch)) = inl (ch, refl)
Receive-cases (returned (some e, ch)) = inr (inl (e, ch, refl))
Receive-cases (panicked e) = inr (inr (λ s c o. refl))
Receive-cases blocked = inr (inr (λ s c o. refl))

module _ (s c : ℕ) where
  -- On an open channel a receive is no answer.
  tries-waits :
      (o : Object) → IsOpenAt c o → ((turn s c tries o).0 ≡ waits) × IsOpenAt c (turn s c tries o).1
  unfolding turn received
  tries-waits o h = elim (Receive-cases (receive (o.chans c))) [
    | inl (ch, got) ↦
        let shut = receive-none-closed (o.chans c) ch got in
        let unclosed = h.unclosed in absurd (true_ne_false (sym shut ∙ unclosed))
    | inr (inl (e, ch, got)) ↦ rw got (refl, receive-IsOpenAt c o (some e) ch got h)
    | inr (inr silent) ↦ rw (silent s c o) (refl, h)
  ]

  rest_of :
      (a : Answer × Object) (turns : List Turn)
      → a.0 ≡ waits
      → unless_answered a (wait_ready s c turns) ≡ wait_ready s c turns a.1
  unfolding unless_answered
  rest_of (waits, o) turns e = refl
  rest_of (nil, o) turns e = cc
  rest_of (found k, o) turns e = cc

  -- From an open channel ServiceReady returns a service only behind a successful start.
  wait-found :
      (turns : List Turn) (o : Object) (k : ℕ)
      → IsOpenAt c o
      → (wait_ready s c turns o).0 ≡ found k
      → In (starts none) turns
  unfolding wait_ready turn unless_answered
  wait-found [] o k h e = cc
  wait-found (done ∷ turns) o k h e = cc
  wait-found (tries ∷ turns) o k h e =
      let (quiet, h') = tries-waits o h in
      inr (
        wait-found turns (turn s c tries o).1 k h'
          (ap (λ r. r.0) (sym (rest_of (turn s c tries o) turns quiet)) ∙ e))
  wait-found (starts none ∷ turns) o k h e = inl refl
  wait-found (starts (some x) ∷ turns) o k h e =
      inr (wait-found turns (start (some x) o).1 k (start_err-IsOpenAt x c o h) e)
  wait-found (stops none ∷ turns) o k h e =
      inr (wait-found turns (stop none o).1 k (stop-none-IsOpenAt c o h) e)
  wait-found (stops (some x) ∷ turns) o k h e =
      inr (wait-found turns (stop (some x) o).1 k (stop_err-IsOpenAt x c o h) e)
  wait-found (watches_start ∷ turns) o k h e =
      inr (wait-found turns (started_channel o).1 k (watch_start-IsOpenAt c o h) e)
  wait-found (watches_stop ∷ turns) o k h e =
      inr (wait-found turns (stopped_channel o).1 k (watch_stop-IsOpenAt c o h) e)

  received-found :
      (r : Outcome Err (Option Err × Chan)) (o : Object) (k : ℕ)
      → (received s c r o).0 ≡ found k
      → s ≡ k
  unfolding received
  received-found (returned (none, ch)) o k e = cc
  received-found (returned (some x, ch)) o k e = cc
  received-found (panicked x) o k e = cc
  received-found blocked o k e = cc

  turn-found : (t : Turn) (o : Object) (k : ℕ) → (turn s c t o).0 ≡ found k → s ≡ k
  unfolding turn
  turn-found done o k e = cc
  turn-found tries o k e = received-found (receive (o.chans c)) o k e
  turn-found (starts r) o k e = cc
  turn-found (stops r) o k e = cc
  turn-found watches_start o k e = cc
  turn-found watches_stop o k e = cc

  -- The service that is returned is the one that was waited for.
  wait-same :
      (turns : List Turn) (o : Object) (k : ℕ) → (wait_ready s c turns o).0 ≡ found k → s ≡ k
  unfolding wait_ready unless_answered
  wait-same [] o k e = cc
  wait-same (t ∷ turns) o k e = first (turn s c t o) refl (λ o'. wait-same turns o' k) e
    where
      first :
          (a : Answer × Object)
          → turn s c t o ≡ a
          → ((o' : Object) → (wait_ready s c turns o').0 ≡ found k → s ≡ k)
          → (unless_answered a (wait_ready s c turns)).0 ≡ found k
          → s ≡ k
      first (nil, o') same ih e = cc
      first (found j, o') same ih e = turn-found t o k (ap (λ r. r.0) same ∙ e)
      first (waits, o') same ih e = ih o' e

-- Whatever others do to a valid service meanwhile, and whichever cases the `select` takes: if
-- ServiceReady returns a service, it is the one registered under the name, and either it was started
-- when ServiceReady was called, or a start of it has succeeded since.
pub service_ready-IsStarted :
    (name : String) (turns : List Turn) (m : Maestro) (objects : ℕ → Object) (k : ℕ)
    → ((s : ℕ) → IsValid (objects s))
    → (service_ready name turns m objects).0 ≡ found k
    → (lookup name m ≡ some k) × (((objects k).started ≡ true) ⊎ In (starts none) turns)
unfolding service_ready
service_ready-IsStarted name turns m objects k valid e = elim (Option-cases (lookup name m)) [
  | inl unknown ↦ absurd (nil_ne_found k (rw (unknown, service_ready) at e))
  | inr (s, known) ↦
      let (c, o) = started_channel (objects s) in
      let e' : (wait_ready s c turns o).0 ≡ found k = rw (known, service_ready) at e in
      let same = wait-same s c turns o k e' in
      (
        known ∙ ap some same,
        subst (λ x. ((objects x).started ≡ true) ⊎ In (starts none) turns) same
            (elim (Bool-cases (objects s).started) [
              | inl on ↦ inl on
              | inr off ↦
                  inr (
                    wait-found s c turns o k (started_channel-IsOpenAt (objects s) (valid s) off)
                      e')
            ]),
      )
]

abbrev pub tries_times : ℕ → List Turn
tries_times zero = []
tries_times (suc n) = tries ∷ tries_times n

module _ (s c : ℕ) where
  -- Receiving the last error, and before it the others.
  drained :
      (es : List Err) (o : Object)
      → (o.chans c).buffer ≡ es
      → (o.chans c).closed ≡ true
      → (wait_ready s c (tries_times (suc (length es))) o).0 ≡ found s
  unfolding wait_ready turn received unless_answered
  drained [] o empty shut = rw (receive-shut (o.chans c) empty shut)
  drained (e ∷ es) o more shut =
      let rest : Chan = record (o.chans c) { buffer = es } in
      let got : receive (o.chans c) ≡ returned (some e, rest) =
        receive-more (o.chans c) e es more in
      let same = update_self o.chans c rest in
      rw got
        (drained es (set_chan o c rest) (ap (λ x. x.buffer) same) (ap (λ x. x.closed) same ∙ shut))

  -- Where a start of a valid service succeeds while ServiceReady waits for it, and nothing else
  -- happens to the service, ServiceReady returns the service once it has received what the failed
  -- starts before have left in its channel.
  pub wait_ready-answers :
      (o : Object)
      → IsValid o
      → o.started ≡ false
      → In c o.started_cs
      → (wait_ready s c (starts none ∷ tries_times (suc (length (o.chans c).buffer))) o).0 ≡ found s
  unfolding wait_ready turn unless_answered
  wait_ready-answers o v off m =
      let (_, _, _, _, changes) = start_success o v off in
      let shut = changes.listed c m in
      drained (o.chans c).buffer (start none o).1 (ap (λ x. x.buffer) shut)
        (ap (λ x. x.closed) shut)
