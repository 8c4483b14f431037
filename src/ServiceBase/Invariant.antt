-- ===== src/ServiceBase/Invariant.antt =====
-- service.go: what holds of a ServiceBase between two calls of its methods.
use bandmaster.Base.{
  ℕ, ◌<◌, ◌≡◌, refl, ◌≢◌, true, false, not, List, [], ◌∷◌, ◌++◌, arith, All, All-map, All-append,
  subst, Distinct, Distinct-append, if_ind,
}
use bandmaster.Channel.{Chan}
use bandmaster.ServiceBase.Defs.{
  Object, channel_capacity, new_service_base, allocate, fresh, started_channel, stopped_channel,
}

-- A subscriber's channel is one that was made, with room for 32 errors, and is not closed.
pub record IsSubscribed (chans : ℕ → Chan) (next c : ℕ) : Type 0 where
  pub made : c < next
  pub sized : (chans c).capacity ≡ channel_capacity
  pub unclosed : (chans c).closed ≡ false

abbrev pub Subscribed : Object → ℕ → Type 0
Subscribed o = IsSubscribed o.chans o.next

-- The two states exclude one another, and a state that is reached has no subscribers left.
pub record IsValid (o : Object) : Type 0 where
  pub exclusive : o.stopped ≡ not o.started
  pub none_started : o.started ≡ true → o.started_cs ≡ []
  pub none_stopped : o.stopped ≡ true → o.stopped_cs ≡ []
  pub open_started : All (Subscribed o) o.started_cs
  pub open_stopped : All (Subscribed o) o.stopped_cs
  pub distinct_started : Distinct o.started_cs
  pub distinct_stopped : Distinct o.stopped_cs

pub new-IsValid : IsValid new_service_base
unfolding new_service_base
new-IsValid = record {
  exclusive = refl;
  none_started = λ e. refl;
  none_stopped = λ e. refl;
  open_started = tt;
  open_stopped = tt;
  distinct_started = tt;
  distinct_stopped = tt;
}

IsSubscribed-allocate :
    (o : Object) (ch : Chan) (c : ℕ) → Subscribed o c → Subscribed (allocate ch o) c
unfolding allocate
IsSubscribed-allocate o ch c s = ground arith

-- The same flags and subscribers over other channels.
pub IsValid-with_chans :
    (o o' : Object)
    → o.base ≡ o'.base
    → ((c : ℕ) → Subscribed o c → Subscribed o' c)
    → IsValid o
    → IsValid o'
IsValid-with_chans o o' e f v =
    subst (λ b. IsValid (record o' { base = b })) e
      (record {
        exclusive = v.exclusive;
        none_started = v.none_started;
        none_stopped = v.none_stopped;
        open_started = All-map (Subscribed o) (Subscribed o') o.started_cs f v.open_started;
        open_stopped = All-map (Subscribed o) (Subscribed o') o.stopped_cs f v.open_stopped;
        distinct_started = v.distinct_started;
        distinct_stopped = v.distinct_stopped;
      })

allocate-IsValid : (o : Object) (ch : Chan) → IsValid o → IsValid (allocate ch o)
unfolding allocate
allocate-IsValid o ch v = IsValid-with_chans o (allocate ch o) refl (IsSubscribed-allocate o ch) v

-- The new subscriber is unlike those before it.
module _ (o : Object) where
  next-IsSubscribed : Subscribed (allocate fresh o) o.next
  unfolding allocate
  next-IsSubscribed = ground arith

  All-Subscribed_add :
      (cs : List ℕ)
      → All (Subscribed o) cs
      → All (Subscribed (allocate fresh o)) (cs ++ o.next ∷ [])
  All-Subscribed_add cs h =
      All-append (Subscribed (allocate fresh o)) cs (o.next ∷ [])
        (All-map (Subscribed o) (Subscribed (allocate fresh o)) cs (IsSubscribed-allocate o fresh)
          h)
        (next-IsSubscribed, tt)

  Distinct-add : (cs : List ℕ) → All (Subscribed o) cs → Distinct cs → Distinct (cs ++ o.next ∷ [])
  Distinct-add cs h d =
      Distinct-append cs o.next d
        (All-map (Subscribed o) (λ c. c ≢ o.next) cs (λ c s. omega arith) h)

  kept_add : (cs : List ℕ) → All (Subscribed o) cs → All (Subscribed (allocate fresh o)) cs
  kept_add cs h =
      All-map (Subscribed o) (Subscribed (allocate fresh o)) cs (IsSubscribed-allocate o fresh) h

pub started_channel-IsValid : (o : Object) → IsValid o → IsValid (started_channel o).1
unfolding started_channel allocate
started_channel-IsValid o v =
    if_ind (λ (r : ℕ × Object). IsValid r.1) o.started (λ e. allocate-IsValid o _ v)
      λ e. record {
        exclusive = v.exclusive;
        none_started = λ t. cc;
        none_stopped = v.none_stopped;
        open_started = All-Subscribed_add o o.started_cs v.open_started;
        open_stopped = kept_add o o.stopped_cs v.open_stopped;
        distinct_started = Distinct-add o o.started_cs v.open_started v.distinct_started;
        distinct_stopped = v.distinct_stopped;
      }

pub stopped_channel-IsValid : (o : Object) → IsValid o → IsValid (stopped_channel o).1
unfolding stopped_channel allocate
stopped_channel-IsValid o v =
    if_ind (λ (r : ℕ × Object). IsValid r.1) o.stopped (λ e. allocate-IsValid o _ v)
      λ e. record {
        exclusive = v.exclusive;
        none_started = v.none_started;
        none_stopped = λ t. cc;
        open_started = kept_add o o.started_cs v.open_started;
        open_stopped = All-Subscribed_add o o.stopped_cs v.open_stopped;
        distinct_started = v.distinct_started;
        distinct_stopped = Distinct-add o o.stopped_cs v.open_stopped v.distinct_stopped;
      }
