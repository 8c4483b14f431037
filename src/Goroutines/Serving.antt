-- ===== src/Goroutines/Serving.antt =====
-- service.go: the channels from `Started` or from `Stopped` that are served: those that belong to a
-- subscriber, or are closed.
use bandmaster.Base.{
  ◌≤◌, ◌∙◌, ap, subst, sym, true, inl, inr, arith, ◌≡◌, ℕ, ◌<◌, refl, ◌⊎◌, false, Option, List, [],
  ◌∷◌, In, returned,
}
use native.Mathlib.Decide.{ℕ_discrete}
use bandmaster.Base.Family.{update, update_ne, update_keeps}
use bandmaster.Errors.{Err}
use bandmaster.ServiceBase.Channels.{base-each, each-keeps}
use bandmaster.ServiceBase.Flow.{shut}
use bandmaster.ServiceBase.Broadcast.{ChangesChans}
use bandmaster.Channel.{Chan, send, receive, receive-closed, receive-capacity}
use bandmaster.ServiceBase.{ServiceBase, Object, channel_capacity, allocate, each}
use bandmaster.ServiceBase.Invariant.{IsValid, Subscribed, IsValid-with_chans}
use bandmaster.Goroutines.{set_chan}

pub among : (c : ℕ) (cs : List ℕ) → In c cs ⊎ (¬ In c cs)
among c [] = inr (λ m. m)
among c (d ∷ cs) = elim (ℕ_discrete c d) [
  | yes e ↦ inl (inl e)
  | no n ↦ elim (among c cs) [
    | inl m ↦ inl (inr m)
    | inr other ↦ inr (λ m. elim m [ inl e ↦ n e | inr m' ↦ other m' ])
  ]
]

send_keeps_shut : (e : Err) (a b : Chan) → a.closed ≡ true → send e a ≡ returned b → b.closed ≡ true
unfolding send
send_keeps_shut e a b shut h = ground arith

-- The subscribers are `started_cs` for StartAll and `stopped_cs` for StopAll.
module _ (listed : ServiceBase → List ℕ) where
  -- The channel at `c` belongs to a subscriber, or is closed.
  pub record Awaited (o : Object) (c : ℕ) : Type 0 where
    pub made : c < o.next
    pub pending : In c (listed o.base) ⊎ ((o.chans c).closed ≡ true)

  -- A change of a service that keeps it valid and its channels served.
  pub record Serves (o o' : Object) : Type 0 where
    pub valid : IsValid o'
    pub awaited : (c : ℕ) → Awaited o c → Awaited o' c

  pub Serves-refl : (o : Object) → IsValid o → Serves o o
  Serves-refl o v = record { valid = v; awaited = λ c a. a }

  pub receive-Serves :
      (o : Object) (c : ℕ) (r : Option Err) (ch : Chan)
      → receive (o.chans c) ≡ returned (r, ch)
      → IsValid o
      → Serves o (set_chan o c ch)
  receive-Serves o c r ch got v = record {
    valid = IsValid-with_chans o (set_chan o c ch) refl (λ d s. subscribed d s) v;
    awaited = λ d a. record {
      made = a.made;
      pending = elim a.pending [
        | inl m ↦ inl m
        | inr shut ↦ inr (
            update_keeps o.chans c ch (λ x. x.closed ≡ true) d
              (λ e.
                receive-closed (o.chans c) ch r got
                ∙ subst (λ y. (o.chans y).closed ≡ true) (sym e) shut)
              shut)
      ];
    };
  }
    where
      subscribed : (d : ℕ) → Subscribed o d → Subscribed (set_chan o c ch) d
      subscribed d s = record {
        made = s.made;
        sized =
            update_keeps o.chans c ch (λ x. x.capacity ≡ channel_capacity) d
              (λ e.
                receive-capacity (o.chans c) ch r got ∙ ap (λ y. (o.chans y).capacity) e ∙ s.sized)
              s.sized;
        unclosed =
            update_keeps o.chans c ch (λ x. x.closed ≡ false) d
              (λ e.
                receive-closed (o.chans c) ch r got ∙ ap (λ y. (o.chans y).closed) e ∙ s.unclosed)
              s.unclosed;
      }

  -- What a step does to all services, of which it writes one.
  abbrev pub AllServe : (ℕ → Object) → (ℕ → Object) → Type 0
  AllServe objects objects' = (k : ℕ) → Serves (objects k) (objects' k)

  pub write-AllServe :
      (objects : ℕ → Object) (j : ℕ) (o : Object)
      → ((k : ℕ) → IsValid (objects k))
      → Serves (objects j) o
      → AllServe objects (update objects j o)
  write-AllServe objects j o valid serves k =
      update_keeps objects j o (Serves (objects k)) k
        (λ e. subst (λ x. Serves (objects x) o) e serves) (Serves-refl (objects k) (valid k))

  -- A new channel, beside a change of the base that keeps the subscribers.
  pub allocate-Awaited :
      (o : Object) (ch : Chan) (b : ServiceBase) (c : ℕ)
      → (In c (listed o.base) → In c (listed b))
      → Awaited o c
      → Awaited (allocate ch (record o { base = b })) c
  unfolding allocate
  allocate-Awaited o ch b c kept a = record {
    made = omega (arith, a.made);
    pending = elim a.pending [
      | inl m ↦ inl (kept m)
      | inr shut ↦ inr (rw (update_ne o.chans o.next ch c (λ e. omega (arith, e, a.made))) shut)
    ];
  }

  -- Closing the channel of every subscriber.
  pub close_all-Serves :
      (o o' : Object)
      → IsValid o'
      → o.next ≤ o'.next
      → ChangesChans shut (listed o.base) o.chans o'.chans
      → Serves o o'
  close_all-Serves o o' v later changes = record {
    valid = v;
    awaited = λ c a. record {
      made = omega (arith, a.made, later);
      pending = inr (elim (among c (listed o.base)) [
        | inl m ↦ ap (λ x. x.closed) (changes.listed c m)
        | inr other ↦ elim a.pending [
          | inl m ↦ absurd (other m)
          | inr before ↦ ap (λ x. x.closed) (changes.unlisted c other) ∙ before
        ]
      ]);
    };
  }

  -- Sending to subscribers, behind a change of the base that keeps them.
  pub send_all-Serves :
      (e : Err) (cs : List ℕ) (o : Object) (b : ServiceBase)
      → listed b ≡ listed o.base
      → let u = (each (send e) cs (record o { base = b })).1 in IsValid u → Serves o u
  send_all-Serves e cs o b same v =
      let t : Object = record o { base = b } in
      let (base, next) = base-each (send e) cs t in
      record {
        valid = v;
        awaited = λ c a. record {
          made = omega (arith, a.made, next);
          pending = elim a.pending [
            | inl m ↦ inl (subst (λ cs. In c cs) (sym (ap listed base ∙ same)) m)
            | inr shut ↦
                inr (each-keeps (send e) (λ x. x.closed ≡ true) (send_keeps_shut e) cs t c shut)
          ];
        };
      }
