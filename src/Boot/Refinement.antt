-- ===== src/Boot/Refinement.antt =====
-- maestro.go: StartAll against an abstract boot, which brings services up one by one, each behind its
-- dependencies, and knows nothing of goroutines and channels.
use bandmaster.Base.{
  ℕ, ◌≡◌, refl, sym, ap, ◌∙◌, subst, ◌≢◌, ◌⊎◌, inl, inr, String, Bool, true, false, none, some,
  List, [], In, Distinct,
}
use bandmaster.Base.Dict.{lookup, values}
use bandmaster.Base.Family.{update, update_self, update_ne}
use bandmaster.ServiceBase.{Object, dependencies, started_channel}
use bandmaster.Registry.{Maestro}
use bandmaster.Goroutines.Grows.{Grows-refl, Grows-trans, receive-Grows, write-Grows, write_flag}
use bandmaster.Boot.Defs.{
  System, Step, already, abort, go_on, subscribe, nil_service, dependency_ready, failing,
  succeeding, dependency_failed, dependencies_ready, call, timer, interrupt, fail, succeed, report,
  cancel, outside, Reach, here, next_step,
}
use bandmaster.Boot.Objects.{
  is_started, Growing, started_channel-Grows, start_err-Grows, start-none-Grows,
}
use bandmaster.Boot.Knowledge.{Inv, Idle, Ready}
use bandmaster.Boot.Order.{at_pc, IsFreshBoot, fresh-Inv, Reach-Inv}

-- Which services are up, by their addresses.
abbrev pub Up : Type 0
Up = ℕ → Bool

-- A move of the abstract boot: none at all, or one service comes up whose dependencies are up.
pub data Allowed (services : Maestro) (deps : ℕ → List String) (up : Up) : Up → Type 0 where
  stay : (up' : Up) → ((k : ℕ) → up' k ≡ up k) → Allowed services deps up up'
  bring_up :
      (i : ℕ) (up' : Up)
      → up i ≡ false
      → ((d : String) → In d (deps i) → (j : ℕ) × (lookup d services ≡ some j) × (up j ≡ true))
      → ((k : ℕ) → i ≢ k → up' k ≡ up k)
      → up' i ≡ true
      → Allowed services deps up up'

pub data Schedule (services : Maestro) (deps : ℕ → List String) (up : Up) : Up → Type 0 where
  begin : Schedule services deps up up
  and_then_move :
      {up' up'' : Up}
      → Schedule services deps up up'
      → Allowed services deps up' up''
      → Schedule services deps up up''

-- The abstract state of a boot.
abbrev pub up_of : System → Up
up_of s i = (s.objects i).started

module _ (services : Maestro) (ctx_err : String) where
  -- What a step does to the services.
  pub record Effect (objects objects' : ℕ → Object) : Type 0 where
    pub grows : (j : ℕ) → Growing (objects j) (objects' j)
    pub starts :
        ((k : ℕ) → (objects' k).started ≡ (objects k).started)
        ⊎ ((i : ℕ) × Idle services objects i
            × Ready services objects i []
            × ((k : ℕ) → i ≢ k → (objects' k).started ≡ (objects k).started)
            × ((objects' i).started ≡ true))

  none-Effect : (objects : ℕ → Object) → Effect objects objects
  none-Effect objects = record {
    grows = λ j. Grows-refl is_started (objects j);
    starts = inl (λ k. refl);
  }

  write-Effect :
      (objects : ℕ → Object) (j : ℕ) (o : Object)
      → Growing (objects j) o
      → o.started ≡ (objects j).started
      → Effect objects (update objects j o)
  write-Effect objects j o grow same = record {
    grows = write-Grows is_started objects j o grow;
    starts = inl (write_flag is_started objects j o same);
  }

  watch-Effect :
      (objects : ℕ → Object) (j : ℕ)
      → Effect objects (update objects j (started_channel (objects j)).1)
  watch-Effect objects j =
      let (grow, started, _) = started_channel-Grows (objects j) in
      write-Effect objects j _ grow started

  pub Step-Effect :
      (s t : System)
      → Step services ctx_err s t
      → Inv services s.objects s.pcs
      → Effect s.objects t.objects
  Step-Effect s t (already i at on) inv = watch-Effect s.objects i
  Step-Effect s t (abort i at c) inv = watch-Effect s.objects i
  Step-Effect s t (go_on i order at off c same once) inv = watch-Effect s.objects i
  Step-Effect s t (subscribe i j d todo at found) inv = watch-Effect s.objects j
  Step-Effect s t (nil_service i d todo at found) inv = none-Effect s.objects
  Step-Effect s t (dependency_ready i j c d todo ch at got) inv =
      write-Effect s.objects j _ (receive-Grows is_started (s.objects j) c none ch got) refl
  Step-Effect s t (dependency_failed i j c d todo e ch at got) inv =
      write-Effect s.objects j _ (receive-Grows is_started (s.objects j) c (some e) ch got) refl
  Step-Effect s t (dependencies_ready i at) inv = none-Effect s.objects
  Step-Effect s t (call i attempts ib result at) inv = none-Effect s.objects
  Step-Effect s t (timer i attempts ib at) inv = none-Effect s.objects
  Step-Effect s t (interrupt i attempts ib at c) inv = none-Effect s.objects
  Step-Effect s t (fail i e r o at did) inv =
      let idle = at_pc services ctx_err s i (failing e) inv at in
      let (grow, off) =
        subst (λ x. Growing (s.objects i) x × (x.started ≡ false)) (ap (λ p. p.1) did)
          (start_err-Grows e (s.objects i) idle) in
      write-Effect s.objects i o grow (off ∙ sym idle)
  Step-Effect s t (succeed i r o at did) inv =
      let (grow, on) =
        subst (λ x. Growing (s.objects i) x × (x.started ≡ true)) (ap (λ p. p.1) did)
          (start-none-Grows (s.objects i)) in
      let h = at_pc services ctx_err s i succeeding inv at in
      record {
        grows = write-Grows is_started s.objects i o grow;
        starts = inr (
          i,
          h.0,
          h.1,
          λ k n. ap (λ x. x.started) (update_ne s.objects i o k n),
          ap (λ x. x.started) (update_self s.objects i o) ∙ on,
        );
      }
  Step-Effect s t (report i e c at sent) inv = none-Effect s.objects
  Step-Effect s t cancel inv = none-Effect s.objects
  Step-Effect s t (outside j) inv = watch-Effect s.objects j

  pub Reach-Grows :
      (s t : System)
      → IsFreshBoot services ctx_err s
      → Reach services ctx_err s t
      → (j : ℕ) → Growing (s.objects j) (t.objects j)
  Reach-Grows s t fresh here j = Grows-refl is_started (s.objects j)
  Reach-Grows s t fresh (next_step {t = u} r step) j =
      let inv = Reach-Inv services ctx_err s u r (fresh-Inv services ctx_err s fresh) in
      Grows-trans is_started (s.objects j) (u.objects j) (t.objects j) (Reach-Grows s u fresh r j)
        ((Step-Effect u t step inv).grows j)

  allowed :
      (deps : ℕ → List String) (t u : System)
      → ((j : ℕ) → (t.objects j).direct_deps ≡ deps j)
      → Effect t.objects u.objects
      → Allowed services deps (up_of t) (up_of u)
  unfolding dependencies
  allowed deps t u same effect = elim effect.starts [
    | inl still ↦ stay (up_of u) still
    | inr (i, idle, ready, others, on) ↦
        bring_up i (up_of u) idle
          (λ d m. elim (ready d (subst (λ ds. In d ds) (sym (same i)) m)) [
            | inl x ↦ absurd x
            | inr s ↦ (s.address, s.found, s.on)
          ])
          others on
  ]

  refines :
      (s t : System)
      → IsFreshBoot services ctx_err s
      → Reach services ctx_err s t
      → Schedule services (λ i. dependencies (s.objects i)) (up_of s) (up_of t)
  unfolding dependencies
  refines s t fresh here = begin
  refines s t fresh (next_step {t = u} r step) =
      let inv = Reach-Inv services ctx_err s u r (fresh-Inv services ctx_err s fresh) in
      and_then_move (refines s u fresh r) (
        allowed (λ i. (s.objects i).direct_deps) u t (λ j. (Reach-Grows s u fresh r j).deps)
          (Step-Effect u t step inv))

  -- Over a map in which no service stands under two names, a boot that begins, with every goroutine
  -- at its entry or absent and with the dependencies of the services that are started already started,
  -- refines the abstract one: in whatever order its goroutines take their steps, the set of the
  -- services that are started changes by moves of the abstract boot alone, over the dependencies that
  -- the services had when it began.
  pub boot_refines :
      (s t : System)
      → Distinct (values services)
      → IsFreshBoot services ctx_err s
      → Reach services ctx_err s t
      → Schedule services (λ i. dependencies (s.objects i)) (up_of s) (up_of t)
  boot_refines s t once fresh r = refines s t fresh r
