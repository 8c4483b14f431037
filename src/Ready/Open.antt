-- ===== src/Ready/Open.antt =====
-- service.go: a channel from `Started` that is open, under the methods of the service.
use bandmaster.Base.{
  ℕ, ◌<◌, ◌≡◌, sym, ap, ◌∙◌, subst, inl, inr, true, false, Option, none, some, List, [], ◌∷◌, In,
  All-at, Outcome, returned, panicked, blocked, arith, if_ind, and_then-pure_state, in-append_cases,
  modify, pure, and_then, ◌>>◌,
}
use bandmaster.Base.Family.{update_self, update_ne}
use bandmaster.Errors.{Err}
use bandmaster.Channel.{Chan, send, close, receive, receive-closed}
use bandmaster.ServiceBase.{
  Object, start, stop, started_channel, stopped_channel, allocate, each, set_state,
}
use bandmaster.ServiceBase.Channels.{base-each, each-keeps, each-apart}
use bandmaster.ServiceBase.Invariant.{IsValid, Subscribed}
use bandmaster.Goroutines.{set_chan}

-- The channel at `c` is open, and no subscriber to the stop has it.
pub record IsOpenAt (c : ℕ) (o : Object) : Type 0 where
  pub made : c < o.next
  pub unclosed : (o.chans c).closed ≡ false
  pub apart : ¬ In c o.stopped_cs

pub watch_start-IsOpenAt : (c : ℕ) (o : Object) → IsOpenAt c o → IsOpenAt c (started_channel o).1
unfolding started_channel allocate
watch_start-IsOpenAt c o h =
    let old =
      λ (ch : Chan). update_ne o.chans o.next ch c (λ e. let lt = h.made in omega (arith, e, lt)) in
    if_ind (λ (r : ℕ × Object). IsOpenAt c r.1) o.started
      (λ _. record {
        made = let lt = h.made in omega (arith, lt);
        unclosed = rw (old _) h.unclosed;
        apart = h.apart;
      })
      (λ _. record {
        made = let lt = h.made in omega (arith, lt);
        unclosed = rw (old _) h.unclosed;
        apart = h.apart;
      })

pub watch_stop-IsOpenAt : (c : ℕ) (o : Object) → IsOpenAt c o → IsOpenAt c (stopped_channel o).1
unfolding stopped_channel allocate
watch_stop-IsOpenAt c o h =
    let old =
      λ (ch : Chan). update_ne o.chans o.next ch c (λ e. let lt = h.made in omega (arith, e, lt)) in
    if_ind (λ (r : ℕ × Object). IsOpenAt c r.1) o.stopped
      (λ _. record {
        made = let lt = h.made in omega (arith, lt);
        unclosed = rw (old _) h.unclosed;
        apart = h.apart;
      })
      (λ _. record {
        made = let lt = h.made in omega (arith, lt);
        unclosed = rw (old _) h.unclosed;
        apart = λ m. elim (in-append_cases c o.stopped_cs (o.next ∷ []) m) [
          | inl before ↦ h.apart before
          | inr (inl e) ↦ let lt = h.made in omega (arith, e, lt)
          | inr (inr x) ↦ x
        ];
      })

-- Channels other than the one at `c`, or none that the change closes.
each-IsOpenAt :
    (f : Chan → Outcome Err Chan) (cs : List ℕ) (c : ℕ) (o : Object)
    → ((each f cs o).1.chans c).closed ≡ (o.chans c).closed
    → IsOpenAt c o
    → IsOpenAt c (each f cs o).1
each-IsOpenAt f cs c o same h =
    let (base, next) = base-each f cs o in
    record {
      made = let lt = h.made in omega (arith, lt, next);
      unclosed = same ∙ h.unclosed;
      apart = λ m. h.apart (subst (λ b. In c b.stopped_cs) base m);
    }

send_keeps_unclosed :
    (e : Err) (a b : Chan) → a.closed ≡ false → send e a ≡ returned b → b.closed ≡ false
unfolding send
send_keeps_unclosed e a b s h = ground arith

pub start_err-IsOpenAt :
    (e : Err) (c : ℕ) (o : Object) → IsOpenAt c o → IsOpenAt c (start (some e) o).1
unfolding start
start_err-IsOpenAt e c o h =
    let t : Object = set_state false (some e) true none o in
    rw
      (and_then-pure_state (each (send e) o.started_cs t).0 (some e)
        (each (send e) o.started_cs t).1)
      (each-IsOpenAt (send e) o.started_cs c t
        (each-keeps (send e) (λ a. a.closed ≡ false) (send_keeps_unclosed e) o.started_cs t c
            h.unclosed
          ∙ sym h.unclosed)
        (record { made = h.made; unclosed = h.unclosed; apart = h.apart }))

pub stop_err-IsOpenAt :
    (e : Err) (c : ℕ) (o : Object) → IsOpenAt c o → IsOpenAt c (stop (some e) o).1
unfolding stop
stop_err-IsOpenAt e c o h =
    let t : Object = record o { base = record o.base { stopped = false; stopped_err = some e } } in
    rw
      (and_then-pure_state (each (send e) o.stopped_cs t).0 (some e)
        (each (send e) o.stopped_cs t).1)
      (each-IsOpenAt (send e) o.stopped_cs c t
        (ap (λ x. x.closed) (each-apart (send e) o.stopped_cs t c h.apart))
        (record { made = h.made; unclosed = h.unclosed; apart = h.apart }))

-- The subscribers to the stop are forgotten, if closing their channels returned.
forgotten-IsOpenAt :
    (r : Outcome Err (Unit {0})) (c : ℕ) (t : Object)
    → IsOpenAt c t
    → IsOpenAt c
        (and_then r
          (λ _.
            modify (λ o. record o { base = record o.base { stopped_cs = [] } })
            >> pure {A = Option Err} none)
          t).1
forgotten-IsOpenAt (returned a) c t h = record {
  made = h.made;
  unclosed = h.unclosed;
  apart = λ m. m;
}
forgotten-IsOpenAt (panicked e) c t h = h
forgotten-IsOpenAt blocked c t h = h

pub stop-none-IsOpenAt : (c : ℕ) (o : Object) → IsOpenAt c o → IsOpenAt c (stop none o).1
unfolding stop
stop-none-IsOpenAt c o h =
    if_ind (λ (r : Outcome Err (Option Err) × Object). IsOpenAt c r.1) o.stopped (λ e. h)
      (λ _.
        let t : Object = set_state false none true none o in
        forgotten-IsOpenAt (each close o.stopped_cs t).0 c (each close o.stopped_cs t).1 (
          each-IsOpenAt close o.stopped_cs c t
            (ap (λ x. x.closed) (each-apart close o.stopped_cs t c h.apart))
            (record { made = h.made; unclosed = h.unclosed; apart = h.apart })))

pub receive-IsOpenAt :
    (c : ℕ) (o : Object) (r : Option Err) (ch : Chan)
    → receive (o.chans c) ≡ returned (r, ch)
    → IsOpenAt c o
    → IsOpenAt c (set_chan o c ch)
receive-IsOpenAt c o r ch got h = record {
  made = h.made;
  unclosed =
      ap (λ x. x.closed) (update_self o.chans c ch)
      ∙ receive-closed (o.chans c) ch r got
      ∙ h.unclosed;
  apart = h.apart;
}

-- The channel that `Started` returns for a service that is not started.
pub started_channel-IsOpenAt :
    (o : Object)
    → IsValid o
    → o.started ≡ false
    → IsOpenAt (started_channel o).0 (started_channel o).1
unfolding started_channel allocate
started_channel-IsOpenAt o v off = rw off (record {
  made = omega arith;
  unclosed = ap (λ x. x.closed) (update_self o.chans o.next _);
  apart = λ m.
      let s = All-at (Subscribed o) o.stopped_cs v.open_stopped o.next m in
      let lt = s.made in omega (arith, lt);
})
