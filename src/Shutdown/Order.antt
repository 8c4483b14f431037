-- ===== src/Shutdown/Order.antt =====
-- maestro.go: the order in which the goroutines of StopAll stop services.
use bandmaster.Base.{
  ℕ, ◌<◌, ◌≡◌, refl, sym, ap, ◌∙◌, subst, ◌↔◌, inl, inr, String, true, false, none, some, [], ◌∷◌,
  In, ◌⊎◌, Distinct,
}
use bandmaster.Base.Dict.{values}
use bandmaster.Base.Family.{update, update_self}
use bandmaster.Channel.{receive-none-closed}
use bandmaster.ServiceBase.{stopped_channel}
use bandmaster.Registry.{Maestro}
use bandmaster.Goroutines.Grows.{receive-Grows, write-Grows, write_flag}
use bandmaster.Shutdown.Defs.{
  Pc, entry, scanning, receiving, calling, backing_off, failing, succeeding, finished, System,
  after_call, needs, Step, already, abort, go_on, skip, subscribe, parent_stopped, parent_failed,
  parents_stopped, call, timer, interrupt, fail, succeed, report, cancel, outside, Reach, here,
  next_step,
}
use bandmaster.Shutdown.Objects.{
  is_stopped, Winding, stopped_channel-Grows, stopped_channel-closed, stop_err-Grows,
  stop-none-Grows,
}
use bandmaster.Shutdown.Knowledge.{
  Ok, Inv, Clear, Clear-winds, quiet-Inv, outside-Inv, jump-Inv, own-Inv, Clear-tail, Ok-after_next,
}

module _ (services : Maestro) (ctx_err : String) (before : ℕ → Type 0) where
  abbrev Keeps : System → Type 0
  Keeps s = Inv services before s.objects s.pcs

  pub at_pc : (s : System) (i : ℕ) (pc : Pc) → Keeps s → s.pcs i ≡ pc → Ok services s.objects i pc
  at_pc s i pc inv e = subst (Ok services s.objects i) e (inv.goroutines i)

  own_order-Ok :
      (s : System) (i : ℕ) (order : Maestro)
      → (s.objects i).stopped ≡ false
      → ((e : String × ℕ) → In e order ↔ In e services)
      → Ok services (update s.objects i (stopped_channel (s.objects i)).1) i (scanning order)
  own_order-Ok s i order busy same =
      let (wind, stopped, _) = stopped_channel-Grows (s.objects i) in
      (
        rw (update_self s.objects i (stopped_channel (s.objects i)).1) (stopped ∙ busy),
        λ parent j m n. inl ((same (parent, j)).1 m),
      )

  subscribed-Ok :
      (s : System) (i j : ℕ) (parent : String) (todo : Maestro)
      → Ok services s.objects i (scanning ((parent, j) ∷ todo))
      → let (c, o) = stopped_channel (s.objects j) in
        Ok services (update s.objects j o) i (receiving parent j c todo)
  subscribed-Ok s i j parent todo h =
      let (wind, stopped, bound) = stopped_channel-Grows (s.objects j) in
      let (c, o) = stopped_channel (s.objects j) in
      let at_j = update_self s.objects j o in
      (
        write_flag is_stopped s.objects j o stopped i ∙ h.0,
        Clear-winds services s.objects _ (write-Grows is_stopped s.objects j o wind) i
            ((parent, j) ∷ todo) h.1,
        subst (λ x. c < x.next) (sym at_j) bound,
        λ closed.
            subst (λ x. x.stopped ≡ true) (sym at_j)
              (stopped
                ∙ stopped_channel-closed (s.objects j)
                    (subst (λ x. (x.chans c).closed ≡ true) at_j closed)),
      )

  Step-Inv : (s t : System) → Step services ctx_err s t → Keeps s → Keeps t
  unfolding after_call
  Step-Inv s t (already i at on) inv =
      let (wind, stopped, _) = stopped_channel-Grows (s.objects i) in
      quiet-Inv services before s.objects i _ wind s.pcs i finished stopped inv tt
  Step-Inv s t (abort i at c) inv =
      let (wind, stopped, _) = stopped_channel-Grows (s.objects i) in
      quiet-Inv services before s.objects i _ wind s.pcs i _ stopped inv tt
  Step-Inv s t (go_on i order at off c same once) inv =
      let (wind, stopped, _) = stopped_channel-Grows (s.objects i) in
      quiet-Inv services before s.objects i _ wind s.pcs i _ stopped inv
        (own_order-Ok s i order off same)
  Step-Inv s t (skip i j parent todo at other) inv =
      let h = at_pc s i (scanning ((parent, j) ∷ todo)) inv at in
      jump-Inv services before s.objects s.pcs i _ inv
        (h.0, Clear-tail services s.objects i j parent todo h.1 (λ n. cc (n, other)))
  Step-Inv s t (subscribe i j parent todo at needed) inv =
      let (wind, stopped, bound) = stopped_channel-Grows (s.objects j) in
      quiet-Inv services before s.objects j _ wind s.pcs i _ stopped inv
        (subscribed-Ok s i j parent todo (at_pc s i (scanning ((parent, j) ∷ todo)) inv at))
  Step-Inv s t (parent_stopped i j c parent todo ch at got) inv =
      let wind = receive-Grows is_stopped (s.objects j) c none ch got in
      let h = at_pc s i (receiving parent j c todo) inv at in
      let on = h.3 (receive-none-closed ((s.objects j).chans c) ch got) in
      quiet-Inv services before s.objects j _ wind s.pcs i _ refl inv (
        write_flag is_stopped s.objects j _ refl i ∙ h.0,
        Clear-winds services s.objects _ (write-Grows is_stopped s.objects j _ wind) i todo
            (Clear-tail services s.objects i j parent todo h.1 (λ _. on)),
      )
  Step-Inv s t (parent_failed i j c parent todo e ch at got) inv =
      let wind = receive-Grows is_stopped (s.objects j) c (some e) ch got in
      let h = at_pc s i (receiving parent j c todo) inv at in
      quiet-Inv services before s.objects j _ wind s.pcs i _ refl inv
        (write_flag is_stopped s.objects j _ refl i ∙ h.0)
  Step-Inv s t (parents_stopped i at) inv =
      jump-Inv services before s.objects s.pcs i _ inv (at_pc s i (scanning []) inv at)
  Step-Inv s t (call i attempts ib result at) inv =
      jump-Inv services before s.objects s.pcs i _ inv
        (Ok-after_next services s.objects i attempts ib _ (at_pc s i (calling attempts ib) inv at))
  Step-Inv s t (timer i attempts ib at) inv =
      jump-Inv services before s.objects s.pcs i _ inv (at_pc s i (backing_off attempts ib) inv at)
  Step-Inv s t (interrupt i attempts ib at c) inv =
      jump-Inv services before s.objects s.pcs i _ inv tt
  Step-Inv s t (fail i e r o at did) inv =
      let busy = at_pc s i (failing e) inv at in
      let (wind, off) =
        subst (λ x. Winding (s.objects i) x × (x.stopped ≡ false)) (ap (λ p. p.1) did)
          (stop_err-Grows e (s.objects i) busy) in
      own-Inv services before s.objects i o wind s.pcs _ inv tt (λ on. cc)
  Step-Inv s t (succeed i r o at did) inv =
      let (wind, on) =
        subst (λ x. Winding (s.objects i) x × (x.stopped ≡ true)) (ap (λ p. p.1) did)
          (stop-none-Grows (s.objects i)) in
      own-Inv services before s.objects i o wind s.pcs _ inv tt
        (λ _. (at_pc s i succeeding inv at).1)
  Step-Inv s t (report i e c at sent) inv =
      jump-Inv services before s.objects s.pcs i finished inv tt
  Step-Inv s t cancel inv = inv
  Step-Inv s t (outside j) inv =
      let (wind, stopped, _) = stopped_channel-Grows (s.objects j) in
      outside-Inv services before s.objects j _ wind s.pcs stopped inv

  pub Reach-Inv : (s t : System) → Reach services ctx_err s t → Keeps s → Keeps t
  Reach-Inv s t here inv = inv
  Reach-Inv s t (next_step {t = u} r step) inv = Step-Inv u t step (Reach-Inv s u r inv)

-- Each goroutine stands at its entry, or there is none.
abbrev pub AtEntry : System → Type 0
AtEntry s = (i : ℕ) → (s.pcs i ≡ entry) ⊎ (s.pcs i ≡ finished)

module _ (services : Maestro) (ctx_err : String) (s t : System) (begins : AtEntry s)
    (r : Reach services ctx_err s t) where
  pub begins-Inv :
      (before : ℕ → Type 0)
      → ((i : ℕ) → (s.objects i).stopped ≡ true → before i ⊎ Clear services s.objects i [])
      → Inv services before t.objects t.pcs
  begins-Inv before served = Reach-Inv services ctx_err before s t r (record {
    goroutines = λ i. elim (begins i) [ inl e ↦ rw e tt | inr e ↦ rw e tt ];
    served = served;
  })

  -- Over a map in which no service stands under two names, of a shutdown that begins with every
  -- goroutine at its entry or absent: in whatever order the goroutines of StopAll take their steps,
  -- while one is about to call its service's own Stop, for the first time or again, every registered
  -- service that depends on it is stopped, and the service is not.
  pub calling-IsStopped :
      (i attempts ib j : ℕ) (parent : String)
      → Distinct (values services)
      → t.pcs i ≡ calling attempts ib
      → In (parent, j) services
      → needs t.objects j i ≡ true
      → ((t.objects j).stopped ≡ true) × ((t.objects i).stopped ≡ false)
  calling-IsStopped i attempts ib j parent once at listed needed =
      let before = λ (k : ℕ). (s.objects k).stopped ≡ true in
      let inv = begins-Inv before (λ k on. inl on) in
      let h = at_pc services ctx_err before t i (calling attempts ib) inv at in
      (elim (h.1 parent j listed needed) [ inl x ↦ absurd x | inr y ↦ y ], h.0)

  -- If no registered service runs whose dependency is stopped when StopAll begins, then none does
  -- in any state that the goroutines can reach: services stop in the reverse of the order in which
  -- they were started.
  pub stopped-IsStopped :
      (i j : ℕ) (parent : String)
      → ((k : ℕ) → (s.objects k).stopped ≡ true → Clear services s.objects k [])
      → (t.objects i).stopped ≡ true
      → In (parent, j) services
      → needs t.objects j i ≡ true
      → (t.objects j).stopped ≡ true
  stopped-IsStopped i j parent orderly on listed needed =
      let inv = begins-Inv (λ _. ⊥) (λ k off. inr (orderly k off)) in
      elim (inv.served i on) [
        | inl x ↦ absurd x
        | inr clear ↦ elim (clear parent j listed needed) [ inl x ↦ absurd x | inr y ↦ y ]
      ]
