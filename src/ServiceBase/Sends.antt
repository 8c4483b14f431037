-- ===== src/ServiceBase/Sends.antt =====
-- service.go: when a failed start waits for ever, and that no start or stop panics.
use bandmaster.Base.{
  ℕ, ◌≡◌, refl, ◌≢◌, ◌↔◌, true, false, Option, none, some, List, [], ◌∷◌, arith, All, All-map,
  All-at, Distinct, In, inl, inr, ◌⊎◌, Outcome, returned, panicked, blocked, Bool-cases, length,
  and_then, pure,
}
use native.Mathlib.Decide.{dec_lt}
use bandmaster.Errors.{Err}
use bandmaster.Channel.{Chan, HasRoom, send}
use bandmaster.ServiceBase.Defs.{Object, set_state, each, start, stop}
use bandmaster.ServiceBase.Channels.{each-ne-panicked, each-eq-blocked}
use bandmaster.ServiceBase.Invariant.{Subscribed, IsValid}
use bandmaster.ServiceBase.Broadcast.{Roomy, send-blocked, each-send-returns}
use bandmaster.ServiceBase.Flow.{start-none-eq, stop-none-eq, start-none_again, stop-none_again}

-- Some subscriber's buffer is full, or all have room.
room_cases :
    (o : Object) (cs : List ℕ) → ((c : ℕ) × In c cs × (¬ HasRoom (o.chans c))) ⊎ All (Roomy o) cs
room_cases o [] = inr tt
room_cases o (c ∷ cs) = elim (dec_lt (length (o.chans c).buffer) (o.chans c).capacity) [
  | no full ↦ inl (c, inl refl, full)
  | yes room ↦ elim (room_cases o cs) [
    | inl (d, m, full) ↦ inl (d, inr m, full)
    | inr rest ↦ inr (room, rest)
  ]
]

send_keeps_unclosed :
    (err : Err) (a b : Chan) → a.closed ≡ false → send err a ≡ returned b → b.closed ≡ false
unfolding send
send_keeps_unclosed err a b s e = ground arith

send_calm : (err : Err) (a : Chan) (x : Err) → a.closed ≡ false → send err a ≢ panicked x
unfolding send
send_calm err a x s = ground arith

module _ (err : Err) (cs : List ℕ) (o : Object) (subscribed : All (Subscribed o) cs) where
  unclosed : All (λ c. (o.chans c).closed ≡ false) cs
  unclosed =
      All-map (Subscribed o) (λ c. (o.chans c).closed ≡ false) cs (λ c s. s.unclosed) subscribed

  each-send-ne-panicked : (x : Err) → (each (send err) cs o).0 ≢ panicked x
  each-send-ne-panicked x =
      each-ne-panicked (send err) (λ ch. ch.closed ≡ false) (send_keeps_unclosed err)
        (send_calm err) cs o x unclosed

  each-send-blocked :
      Distinct cs → (c : ℕ) → In c cs → ¬ HasRoom (o.chans c) → (each (send err) cs o).0 ≡ blocked
  each-send-blocked d c m full =
      each-eq-blocked (send err) (λ ch. ch.closed ≡ false) (send_keeps_unclosed err) (send_calm err)
        cs o c unclosed d m
        (send-blocked err (o.chans c) (All-at (λ y. (o.chans y).closed ≡ false) cs unclosed c m)
          full)

-- A failed start of a valid ServiceBase waits for ever, with the lock held, exactly when some
-- subscriber has left as many errors unread as its channel holds.
pub start-blocks_iff :
    (err : Err) (o : Object)
    → IsValid o
    → ((start (some err) o).0 ≡ blocked) ↔ ((c : ℕ) × In c o.started_cs × (¬ HasRoom (o.chans c)))
unfolding start
start-blocks_iff err o v =
    let o' = set_state false (some err) true none o in
    (
      λ waits. elim (room_cases o o.started_cs) [
        | inl full ↦ full
        | inr room ↦
            let e =
              (each-send-returns err o.started_cs o' v.open_started room v.distinct_started).0 in
            let other : returned (some err) ≡ blocked = rw e at waits in cc
      ],
      λ (c, m, full).
          rw (each-send-blocked err o.started_cs o' v.open_started v.distinct_started c m full)
            refl,
    )

start-none-ne-panicked : (o : Object) (x : Err) → IsValid o → (start none o).0 ≢ panicked x
start-none-ne-panicked o x v = elim (Bool-cases o.started) [
  | inl e ↦ rw (start-none_again o e) (λ q. cc)
  | inr e ↦ rw (start-none-eq o v e) (λ q. cc)
]

stop-none-ne-panicked : (o : Object) (x : Err) → IsValid o → (stop none o).0 ≢ panicked x
stop-none-ne-panicked o x v = elim (Bool-cases o.stopped) [
  | inl e ↦ rw (stop-none_again o e) (λ q. cc)
  | inr e ↦ rw (stop-none-eq o v e) (λ q. cc)
]

and_then-ne-panicked :
    (r : Outcome Err Unit) (y : Option Err) (o : Object) (x : Err)
    → r ≢ panicked x
    → (and_then r (λ _. pure y) o).0 ≢ panicked x
and_then-ne-panicked (returned a) y o x h = λ e. cc
and_then-ne-panicked (panicked z) y o x h = λ e. h (cc)
and_then-ne-panicked blocked y o x h = λ e. cc

-- On a valid ServiceBase no outcome of a start or a stop sends on a closed channel or closes one
-- twice: `start` and `stop` never panic.
pub start-stop-ne-panicked :
    (r : Option Err) (o : Object) (x : Err)
    → IsValid o
    → ((start r o).0 ≢ panicked x) × ((stop r o).0 ≢ panicked x)
unfolding start stop
start-stop-ne-panicked none o x v = (start-none-ne-panicked o x v, stop-none-ne-panicked o x v)
start-stop-ne-panicked (some err) o x v = (
  and_then-ne-panicked _ (some err) _ x (
      each-send-ne-panicked err o.started_cs (set_state false (some err) true none o) v.open_started
        x),
  and_then-ne-panicked _ (some err) _ x (
      each-send-ne-panicked err o.stopped_cs
        (record o { base = record o.base { stopped = false; stopped_err = some err } })
        v.open_stopped x),
)
