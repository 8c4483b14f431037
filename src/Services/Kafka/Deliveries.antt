-- ===== src/Services/Kafka/Deliveries.antt =====
-- services/kafka/helpers.go: what the callers of the producer hear of their messages.
use bandmaster.Base.{
  ℕ, ◌≡◌, refl, sym, ap, ◌∙◌, subst, ◌≢◌, inl, inr, true, false, Option, none, some, List, [], ◌∷◌,
  ◌++◌, In, All, All-at, All-of_in, Bool-cases, Distinct, Outcome, returned, blocked, Exec, pure,
  and_then, ◌>>◌, if◌then◌else◌, arith,
}
use bandmaster.Base.Family.{update, update_self, update_ne}
use bandmaster.Errors.{Err}
use bandmaster.Channel.{Chan, HasRoom, send, close}
use bandmaster.ServiceBase.{Object}
use bandmaster.ServiceBase.Broadcast.{appended, send-returned, receive-started_channel}
use bandmaster.ServiceBase.Flow.{shut}
use bandmaster.Services.Kafka.Watch.{
  Returns, producer_errors_loop, producer_successes_loop, loop_if, launch_if_started,
  watch_producer_events, done, ended, got, Message, Watched, on_channel, write_log, tell_error,
  tell_success, Delivery, of_errors, of_successes, watch_producer,
}

-- An event of a loop, and not its end.
abbrev pub IsGot : Delivery → Type 0
IsGot (of_errors (got e)) = Unit
IsGot (of_successes (got msg)) = Unit
IsGot _ = ⊥

-- The channel that its message carries.
abbrev pub channel_of : Delivery → Option ℕ
channel_of (of_errors (got e)) = e.msg.metadata
channel_of (of_successes (got msg)) = msg.metadata
channel_of _ = none

abbrev pub with_channel : Option ℕ → List ℕ → List ℕ
with_channel none cs = cs
with_channel (some c) cs = c ∷ cs

abbrev pub channels : List Delivery → List ℕ
channels [] = []
channels (d ∷ ds) = with_channel (channel_of d) (channels ds)

-- What is to become of the channel: it gets the error, or it is closed.
abbrev pub told : Delivery → Chan → Chan
told (of_errors (got e)) ch = appended e.err ch
told (of_successes event) ch = shut ch
told _ ch = ch

abbrev pub IsUnused : (ℕ → Chan) → ℕ → Type 0
IsUnused chans c = ((chans c).closed ≡ false) × HasRoom (chans c)

-- The body of the loop that takes the event.
abbrev body : Delivery → Exec Err Watched (Unit {0})
body (of_errors (got e)) = tell_error e.msg e.err e.msg.metadata
body (of_successes (got msg)) = tell_success msg msg.metadata
body _ = pure tt

-- It returns, and changes the message's channel alone.
record Tells (o : Option ℕ) (g : Chan → Chan) (w : Watched) (r : Outcome Err (Unit {0}) × Watched)
    : Type 0 where
  returns : r.0 ≡ returned tt
  here : (c : ℕ) → o ≡ some c → r.1.chans c ≡ g (w.chans c)
  elsewhere : (c : ℕ) → o ≢ some c → r.1.chans c ≡ w.chans c

some_eq : (a c : ℕ) → ◌≡◌ {A = Option ℕ} (some a) (some c) → a ≡ c
some_eq a c e = cc

on_channel-Tells :
    (c : ℕ) (f : Chan → Outcome Err Chan) (g : Chan → Chan) (w : Watched)
    → f (w.chans c) ≡ returned (g (w.chans c))
    → Tells (some c) g w (on_channel c f w)
unfolding on_channel
on_channel-Tells c f g w e =
    rw (e, on_channel)
      (record {
        returns = refl;
        here = λ d same.
            let q = some_eq c d same in
            subst (λ x. update w.chans c (g (w.chans c)) x ≡ g (w.chans x)) q
              (update_self w.chans c (g (w.chans c)));
        elsewhere =
            λ d other. update_ne w.chans c (g (w.chans c)) d (λ q. other (ap (λ x. some x) q));
      })

write_log-Tells :
    (msg : Message) (err : Option Err) (g : Chan → Chan) (w : Watched)
    → Tells none g w (write_log msg err w)
unfolding write_log
write_log-Tells msg err g w = record { returns = refl; here = λ c e. cc; elsewhere = λ c ne. refl }

tell_error-Tells :
    (msg : Message) (err : Err) (o : Option ℕ) (w : Watched)
    → ((c : ℕ) → o ≡ some c → IsUnused w.chans c)
    → Tells o (appended err) w (tell_error msg err o w)
unfolding tell_error
tell_error-Tells msg err none w h = write_log-Tells msg (some err) (appended err) w
tell_error-Tells msg err (some c) w h =
    on_channel-Tells c (send err) (appended err) w
      (send-returned err (w.chans c) (h c refl).0 (h c refl).1)

close-returned : (ch : Chan) → ch.closed ≡ false → close ch ≡ returned (shut ch)
unfolding close
close-returned ch unclosed = ground arith

tell_success-Tells :
    (msg : Message) (o : Option ℕ) (w : Watched)
    → ((c : ℕ) → o ≡ some c → IsUnused w.chans c)
    → Tells o shut w (tell_success msg o w)
unfolding tell_success
tell_success-Tells msg none w h = write_log-Tells msg none shut w
tell_success-Tells msg (some c) w h =
    on_channel-Tells c close shut w (close-returned (w.chans c) (h c refl).0)

body-Tells :
    (d : Delivery) (w : Watched)
    → IsGot d
    → ((c : ℕ) → channel_of d ≡ some c → IsUnused w.chans c)
    → Tells (channel_of d) (told d) w (body d w)
body-Tells (of_errors (got e)) w g h = tell_error-Tells e.msg e.err e.msg.metadata w h
body-Tells (of_successes (got msg)) w g h = tell_success-Tells msg msg.metadata w h
body-Tells (of_errors done) w g h = absurd g
body-Tells (of_errors ended) w g h = absurd g
body-Tells (of_successes done) w g h = absurd g
body-Tells (of_successes ended) w g h = absurd g

watch-body :
    (d : Delivery) (ds : List Delivery)
    → IsGot d
    → (w : Watched)
    → watch_producer true true (d ∷ ds) w ≡ (body d >> watch_producer true true ds) w
unfolding watch_producer
watch-body (of_errors (got e)) ds g w = refl
watch-body (of_successes (got msg)) ds g w = refl
watch-body (of_errors done) ds g w = absurd g
watch-body (of_errors ended) ds g w = absurd g
watch-body (of_successes done) ds g w = absurd g
watch-body (of_successes ended) ds g w = absurd g

-- The channels of a first event are unlike those of the others.
with_channel-Distinct :
    (o : Option ℕ) (cs : List ℕ)
    → Distinct (with_channel o cs)
    → Distinct cs × ((c : ℕ) → In c cs → o ≢ some c)
with_channel-Distinct none cs d = (d, λ c m e. cc)
with_channel-Distinct (some a) cs d = (d.1, λ c m e. All-at (λ x. a ≢ x) cs d.0 c m (some_eq a c e))

in-with_channel : (o : Option ℕ) (cs : List ℕ) (c : ℕ) → In c cs → In c (with_channel o cs)
in-with_channel none cs c m = m
in-with_channel (some a) cs c m = inr m

here-with_channel : (o : Option ℕ) (cs : List ℕ) (c : ℕ) → o ≡ some c → In c (with_channel o cs)
here-with_channel none cs c e = cc
here-with_channel (some a) cs c e = inl (sym (some_eq a c e))

-- What has become of the channels behind a run of the loops.
pub record IsDelivered (ds : List Delivery) (before : ℕ → Chan)
    (r : Outcome Err (Unit {0}) × Watched) : Type 0 where
  pub returns : r.0 ≡ returned tt
  pub heard :
      (d : Delivery) (c : ℕ) → In d ds → channel_of d ≡ some c → r.1.chans c ≡ told d (before c)
  pub others : (c : ℕ) → ¬ In c (channels ds) → r.1.chans c ≡ before c

in-channels :
    (ds : List Delivery) (d : Delivery) (c : ℕ)
    → In d ds
    → channel_of d ≡ some c
    → In c (channels ds)
in-channels [] d c m e = absurd m
in-channels (x ∷ ds) d c (inl same) e =
    here-with_channel (channel_of x) (channels ds) c (ap channel_of (sym same) ∙ e)
in-channels (x ∷ ds) d c (inr m) e =
    in-with_channel (channel_of x) (channels ds) c (in-channels ds d c m e)

-- As long as neither loop ends, and where the messages carry channels of their own, which are open
-- and have room: in whatever order the loops of WatchProducerEvents take the events, they panic or
-- wait nowhere, the channel of a message that failed gets its error, that of a message that was
-- pushed is closed, and no other channel changes.
pub watch_producer-IsDelivered :
    (ds : List Delivery) (w : Watched)
    → All IsGot ds
    → Distinct (channels ds)
    → All (IsUnused w.chans) (channels ds)
    → IsDelivered ds w.chans (watch_producer true true ds w)
unfolding watch_producer
watch_producer-IsDelivered [] w events distinct unused = record {
  returns = refl;
  heard = λ d c m e. absurd m;
  others = λ c n. refl;
}
watch_producer-IsDelivered (d ∷ ds) w events distinct unused =
    let (apart, ne) = with_channel-Distinct (channel_of d) (channels ds) distinct in
    let tells = body-Tells d w events.0 (λ c e.
      All-at (IsUnused w.chans) (channels (d ∷ ds)) unused c
        (here-with_channel (channel_of d) (channels ds) c e)) in
    let w' : Watched = (body d w).1 in
    let run : watch_producer true true (d ∷ ds) w ≡ watch_producer true true ds w' =
      watch-body d ds events.0 w
      ∙ ap (λ r. and_then r (λ _. watch_producer true true ds) w') tells.returns in
    let later = watch_producer-IsDelivered ds w' events.1 apart (
      All-of_in (IsUnused w'.chans) (channels ds) (λ c m.
        subst (λ ch. (ch.closed ≡ false) × HasRoom ch) (sym (tells.elsewhere c (ne c m)))
          (All-at (IsUnused w.chans) (channels (d ∷ ds)) unused c
            (in-with_channel (channel_of d) (channels ds) c m)))) in
    rw run (record {
      returns = later.returns;
      heard = λ x c m e. elim m [
        | inl same ↦
            let at = ap channel_of (sym same) ∙ e in
            later.others c (λ m'. ne c m' at)
            ∙ tells.here c at
            ∙ ap (λ y. told y (w.chans c)) (sym same)
        | inr m' ↦
            later.heard x c m' e ∙ ap (told x) (tells.elsewhere c (ne c (in-channels ds x c m' e)))
      ];
      others = λ c n.
          later.others c (λ m. n (in-with_channel (channel_of d) (channels ds) c m))
          ∙ tells.elsewhere c (λ e. n (here-with_channel (channel_of d) (channels ds) c e));
    })

-- WatchProducerEvents returns nil at once from a service that is started, with the goroutines that
-- its configuration asks for; from one that is not it waits, whatever its context.
pub watch_producer_events-waits :
    (r : Returns) (o : Object)
    → (watch_producer_events r o).0 ≡ (
        if o.started
        then returned (
          none,
          loop_if r.producer_errors producer_errors_loop
              ++ loop_if r.producer_successes producer_successes_loop,
        )
        else blocked)
unfolding watch_producer_events launch_if_started
watch_producer_events-waits r o =
    rw (receive-started_channel o)
      (elim (Bool-cases o.started) [ inl on ↦ rw on refl | inr off ↦ rw off refl ])
