-- ===== src/Boot/Order.antt =====
-- maestro.go: the order in which the goroutines of StartAll start services.
use bandmaster.Base.{
  ℕ, ◌<◌, ◌≡◌, refl, sym, ap, ◌∙◌, subst, ◌↔◌, ◌⊎◌, inl, inr, String, true, false, none, some, List,
  [], ◌∷◌, In, Distinct,
}
use bandmaster.Base.Dict.{lookup, values}
use bandmaster.Base.Family.{update, update_self}
use bandmaster.Channel.{receive-none-closed}
use bandmaster.ServiceBase.{started_channel, dependencies}
use bandmaster.Registry.{Maestro}
use bandmaster.Boot.Defs.{
  Pc, entry, waiting, receiving, calling, backing_off, failing, succeeding, finished, crashed,
  System, after_call, Step, already, abort, go_on, subscribe, nil_service, dependency_ready,
  dependency_failed, dependencies_ready, call, timer, interrupt, fail, succeed, report, cancel,
  outside, Reach, here, next_step,
}
use bandmaster.Boot.Objects.{
  is_started, Growing, started_channel-Grows, started_channel-closed, start_err-Grows,
  start-none-Grows,
}
use bandmaster.Goroutines.Grows.{receive-Grows, write-Grows, write_flag}
use bandmaster.Boot.Knowledge.{
  Ok, Inv, IsStarted, Ready, Ready-grows, quiet-Inv, outside-Inv, jump-Inv, own-Inv, Ready-tail,
  Ok-after_next,
}

module _ (services : Maestro) (ctx_err : String) where
  pub at_pc :
      (s : System) (i : ℕ) (pc : Pc)
      → Inv services s.objects s.pcs
      → s.pcs i ≡ pc
      → Ok services s.objects i pc
  at_pc s i pc inv e = subst (Ok services s.objects i) e (inv.goroutines i)

  own_order-Ok :
      (s : System) (i : ℕ) (order : List String)
      → (s.objects i).started ≡ false
      → ((d : String) → In d order ↔ In d (dependencies (s.objects i)))
      → Ok services (update s.objects i (started_channel (s.objects i)).1) i (waiting order)
  unfolding dependencies
  own_order-Ok s i order idle same =
      let (grow, started, _) = started_channel-Grows (s.objects i) in
      (
        rw (update_self s.objects i (started_channel (s.objects i)).1) (started ∙ idle),
        λ d m. inl (
            (same d).1
              (subst (λ ds. In d ds) (write-Grows is_started s.objects i _ grow i).deps m)),
      )

  subscribed-Ok :
      (s : System) (i j : ℕ) (d : String) (todo : List String)
      → lookup d services ≡ some j
      → Ok services s.objects i (waiting (d ∷ todo))
      → let (c, o) = started_channel (s.objects j) in
        Ok services (update s.objects j o) i (receiving d j c todo)
  subscribed-Ok s i j d todo found h =
      let (grow, started, bound) = started_channel-Grows (s.objects j) in
      let (c, o) = started_channel (s.objects j) in
      let at_j = update_self s.objects j o in
      (
        write_flag is_started s.objects j o started i ∙ h.0,
        Ready-grows services s.objects _ (write-Grows is_started s.objects j o grow) i (d ∷ todo)
            h.1,
        found,
        subst (λ x. c < x.next) (sym at_j) bound,
        λ closed.
            subst (λ x. x.started ≡ true) (sym at_j)
              (started
                ∙ started_channel-closed (s.objects j)
                    (subst (λ x. (x.chans c).closed ≡ true) at_j closed)),
      )

  Step-Inv :
      (s t : System)
      → Step services ctx_err s t
      → Inv services s.objects s.pcs
      → Inv services t.objects t.pcs
  unfolding after_call
  Step-Inv s t (already i at on) inv =
      let (grow, started, _) = started_channel-Grows (s.objects i) in
      quiet-Inv services s.objects i _ grow s.pcs i finished started inv tt
  Step-Inv s t (abort i at c) inv =
      let (grow, started, _) = started_channel-Grows (s.objects i) in
      quiet-Inv services s.objects i _ grow s.pcs i _ started inv tt
  Step-Inv s t (go_on i order at off c same once) inv =
      let (grow, started, _) = started_channel-Grows (s.objects i) in
      quiet-Inv services s.objects i _ grow s.pcs i _ started inv (own_order-Ok s i order off same)
  Step-Inv s t (subscribe i j d todo at found) inv =
      let (grow, started, bound) = started_channel-Grows (s.objects j) in
      quiet-Inv services s.objects j _ grow s.pcs i _ started inv
        (subscribed-Ok s i j d todo found (at_pc s i (waiting (d ∷ todo)) inv at))
  Step-Inv s t (nil_service i d todo at found) inv =
      jump-Inv services s.objects s.pcs i crashed inv tt
  Step-Inv s t (dependency_ready i j c d todo ch at got) inv =
      let grow = receive-Grows is_started (s.objects j) c none ch got in
      let h = at_pc s i (receiving d j c todo) inv at in
      let on = h.4 (receive-none-closed ((s.objects j).chans c) ch got) in
      quiet-Inv services s.objects j _ grow s.pcs i _ refl inv (
        write_flag is_started s.objects j _ refl i ∙ h.0,
        Ready-grows services s.objects _ (write-Grows is_started s.objects j _ grow) i todo (
            Ready-tail services s.objects i d todo h.1
              (record { address = j; found = h.2; on = on })),
      )
  Step-Inv s t (dependency_failed i j c d todo e ch at got) inv =
      let grow = receive-Grows is_started (s.objects j) c (some e) ch got in
      let h = at_pc s i (receiving d j c todo) inv at in
      quiet-Inv services s.objects j _ grow s.pcs i _ refl inv
        (write_flag is_started s.objects j _ refl i ∙ h.0)
  Step-Inv s t (dependencies_ready i at) inv =
      jump-Inv services s.objects s.pcs i _ inv (at_pc s i (waiting []) inv at)
  Step-Inv s t (call i attempts ib result at) inv =
      jump-Inv services s.objects s.pcs i _ inv
        (Ok-after_next services s.objects i attempts ib _ (at_pc s i (calling attempts ib) inv at))
  Step-Inv s t (timer i attempts ib at) inv =
      jump-Inv services s.objects s.pcs i _ inv (at_pc s i (backing_off attempts ib) inv at)
  Step-Inv s t (interrupt i attempts ib at c) inv = jump-Inv services s.objects s.pcs i _ inv tt
  Step-Inv s t (fail i e r o at did) inv =
      let idle = at_pc s i (failing e) inv at in
      let (grow, off) =
        subst (λ x. Growing (s.objects i) x × (x.started ≡ false)) (ap (λ p. p.1) did)
          (start_err-Grows e (s.objects i) idle) in
      own-Inv services s.objects s.pcs i _ o grow inv tt (λ on. cc)
  Step-Inv s t (succeed i r o at did) inv =
      let (grow, on) =
        subst (λ x. Growing (s.objects i) x × (x.started ≡ true)) (ap (λ p. p.1) did)
          (start-none-Grows (s.objects i)) in
      own-Inv services s.objects s.pcs i _ o grow inv tt (λ _. (at_pc s i succeeding inv at).1)
  Step-Inv s t (report i e c at sent) inv = jump-Inv services s.objects s.pcs i finished inv tt
  Step-Inv s t cancel inv = inv
  Step-Inv s t (outside j) inv =
      let (grow, started, _) = started_channel-Grows (s.objects j) in
      outside-Inv services s.objects j _ grow s.pcs started inv

  pub Reach-Inv :
      (s t : System)
      → Reach services ctx_err s t
      → Inv services s.objects s.pcs
      → Inv services t.objects t.pcs
  Reach-Inv s t here inv = inv
  Reach-Inv s t (next_step {t = u} r step) inv = Step-Inv u t step (Reach-Inv s u r inv)

  -- A boot that begins: a goroutine stands at its entry, or there is none, and a service that is
  -- started already has its dependencies started.
  pub record IsFreshBoot (s : System) : Type 0 where
    pub entries : (i : ℕ) → (s.pcs i ≡ entry) ⊎ (s.pcs i ≡ finished)
    pub orderly : (i : ℕ) → (s.objects i).started ≡ true → Ready services s.objects i []

  pub fresh-Inv : (s : System) → IsFreshBoot s → Inv services s.objects s.pcs
  fresh-Inv s f = record {
    goroutines = λ i. elim (f.entries i) [ inl e ↦ rw e tt | inr e ↦ rw e tt ];
    served = f.orderly;
  }

  -- Over a map in which no service stands under two names, of a boot that begins with every goroutine
  -- at its entry or absent, and with the dependencies of the services that are started already
  -- started: in whatever order its goroutines take their steps, and whatever the services do, when a
  -- service is started, every one of its dependencies is
  -- registered and started.
  pub started-IsStarted :
      (s t : System) (i : ℕ) (d : String)
      → Distinct (values services)
      → IsFreshBoot s
      → Reach services ctx_err s t
      → (t.objects i).started ≡ true
      → In d (dependencies (t.objects i))
      → IsStarted services t.objects d
  started-IsStarted s t i d once fresh r on m =
      elim ((Reach-Inv s t r (fresh-Inv s fresh)).served i on d m) [ inl x ↦ absurd x | inr y ↦ y ]

  -- Over a map in which no service stands under two names, of a boot that begins with every goroutine
  -- at its entry or absent, and with the dependencies of the services that are started already
  -- started: in whatever order its goroutines take their steps, while one is about to call its service's own Start, for the first time or again, every
  -- dependency of the service is registered and started, and the service is not.
  pub calling-IsStarted :
      (s t : System) (i attempts ib : ℕ) (d : String)
      → Distinct (values services)
      → IsFreshBoot s
      → Reach services ctx_err s t
      → t.pcs i ≡ calling attempts ib
      → In d (dependencies (t.objects i))
      → IsStarted services t.objects d × ((t.objects i).started ≡ false)
  calling-IsStarted s t i attempts ib d once fresh r at m =
      let h = at_pc t i (calling attempts ib) (Reach-Inv s t r (fresh-Inv s fresh)) at in
      (elim (h.1 d m) [ inl x ↦ absurd x | inr y ↦ y ], h.0)
