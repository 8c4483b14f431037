-- ===== src/Boot/Progress.antt =====
-- maestro.go: whether a boot can come to a standstill before every service is started.
use bandmaster.Base.{
  Distinct, All-at, ℕ, zero, suc, ◌≡◌, refl, sym, ap, ◌∙◌, subst, ◌≢◌, ◌⊎◌, inl, inr, String, some,
  List, [], ◌∷◌, In, length, arith,
}
use bandmaster.Base.Dict.{
  values, lookup-in, in-lookup, keys_of_in, lookup-of_keys, values_of_in, in-values,
}
use bandmaster.Errors.{Err}
use bandmaster.ServiceBase.{dependencies}
use bandmaster.ServiceBase.Invariant.{IsValid}
use bandmaster.Registry.{Maestro, Program}
use bandmaster.Registry.Valid.{IsRegistry, IsEntry}
use bandmaster.Deps.Graph.{Edge, IsWalk, registered}
use bandmaster.Deps.Walks.{length-walk}
use bandmaster.Boot.Defs.{waiting, receiving, failing, crashed, System, Reach, here, next_step}
use bandmaster.Boot.Knowledge.{Inv}
use bandmaster.Boot.Order.{at_pc, Reach-Inv, fresh-Inv}
use bandmaster.Boot.Refinement.{Reach-Grows}
use bandmaster.Boot.StartAll.{launch, launched, start_err_c, store_of, object_or_new}
use bandmaster.Boot.Reports.{stage_of}
use bandmaster.Boot.Checks.{IsBootable}
use bandmaster.Boot.Returns.{IsOrderly, launch-IsFreshBoot, launch-Reach-Books, launched_cases}
use bandmaster.Boot.Waits.{Waits, Waiting-of}
use bandmaster.Boot.Waits.Steps.{Reach-Waits}
use bandmaster.Boot.Crashes.{IsLost, Step-crashed}
use bandmaster.Boot.Moves.{GoesOn, IsStuck, IsUp, goroutine_cases}

pub launch-Waits :
    (p : Program) → ((i : ℕ) → IsValid (store_of p i)) → Waits (store_of p) (launched p.services)
launch-Waits p sound = record {
  valid = sound;
  waiting = λ i. elim (launched_cases p.services i) [ inl e ↦ rw e tt | inr (e, m) ↦ rw e tt ];
}

module _ (p : Program) (ctx_err : String) (valid : IsRegistry p) (boots : IsBootable p)
    (orderly : IsOrderly p) (sound : (i : ℕ) → IsValid (store_of p i)) where
  abbrev pub start_of : System
  start_of = launch p (start_err_c p)

  abbrev pub Reached : System → Type 0
  Reached t = Reach p.services ctx_err start_of t

  pub Inv-of : (t : System) → Reached t → Inv p.services t.objects t.pcs
  Inv-of t r =
      Reach-Inv p.services ctx_err start_of t r
        (fresh-Inv p.services ctx_err _ (launch-IsFreshBoot p ctx_err (start_err_c p) orderly))

  pub Waits-of : (t : System) → Reached t → Waits t.objects t.pcs
  Waits-of t r =
      Reach-Waits p.services ctx_err start_of t r
        (fresh-Inv p.services ctx_err _ (launch-IsFreshBoot p ctx_err (start_err_c p) orderly))
        (launch-Waits p sound)

  -- A registered service depends on registered ones.
  pub Edge-of :
      (t : System) (name : String) (i : ℕ) (d : String)
      → Reached t
      → In (name, i) p.services
      → In d (dependencies (t.objects i))
      → Edge p name d
  unfolding dependencies object_or_new
  Edge-of t name i d r listed needs =
      let reg = registered p name valid (keys_of_in name p.services i listed) in
      let found : some reg.address ≡ some i =
        sym reg.found ∙ in-lookup name p.services i valid.names listed in
      let same : reg.address ≡ i = cc in
      let grows =
        Reach-Grows p.services ctx_err start_of t
          (launch-IsFreshBoot p ctx_err (start_err_c p) orderly) r i in
      let stored : store_of p i ≡ reg.object =
        ap (store_of p) (sym same) ∙ ap object_or_new reg.stored in
      record {
        from = reg;
        needs = subst (λ ds. In d ds) (grows.deps ∙ ap (λ o. o.direct_deps) stored) needs;
      }

  -- A service of the map has each dependency once.
  pub dependencies-Distinct :
      (t : System) (i : ℕ)
      → Reached t
      → In i (values p.services)
      → Distinct (dependencies (t.objects i))
  unfolding dependencies object_or_new
  dependencies-Distinct t i r at =
      let (name, listed) = in-values p.services i at in
      let entry = All-at (IsEntry p.objects) p.services valid.entries (name, i) listed in
      let grows =
        Reach-Grows p.services ctx_err start_of t
          (launch-IsFreshBoot p ctx_err (start_err_c p) orderly) r i in
      let stored : store_of p i ≡ entry.object = ap object_or_new entry.stored in
      subst (λ ds. Distinct ds) (sym (grows.deps ∙ ap (λ o. o.direct_deps) stored)) entry.once

  pub never_crashed : (t : System) (k : ℕ) → Reached t → t.pcs k ≢ crashed
  never_crashed t k here e = elim (launched_cases p.services k) [ inl f ↦ cc | inr (f, m) ↦ cc ]
  never_crashed t k (next_step {t = u} r step) e =
      elim (Step-crashed p.services ctx_err u t k step e) [
        | inl before ↦ never_crashed u k r before
        | inr lost ↦ registered_dep u k lost r
      ]
    where
      registered_dep : (u : System) (k : ℕ) → IsLost p.services ctx_err u k → Reached u → ⊥
      registered_dep u k lost r =
          let books = launch-Reach-Books p ctx_err u orderly r in
          let runs = books.running k (λ f. let q = ap stage_of lost.at in cc (f, q)) in
          let (name, listed) = in-values p.services k runs in
          let asks =
            Waiting-of p.services ctx_err u k (waiting (lost.dep ∷ lost.todo)) (Waits-of u r)
              lost.at in
          let known =
            boots.closed name lost.dep
              (Edge-of u name k lost.dep r listed (asks lost.dep (inl refl))) in
          let (j, found) = lookup-of_keys lost.dep p.services known in cc (found, lost.unknown)

  -- `Moves` is what the goroutines that are neither up nor stuck can do.
  module _ (t : System) (r : Reached t) (Moves : Type 0)
      (cases_of : (i : ℕ) → In i (values p.services) → IsUp t i ⊎ Moves ⊎ IsStuck t i) where
    -- A goroutine that is stuck waits for a service that is registered.
    stuck-Edge :
        (name : String) (i : ℕ)
        → In (name, i) p.services
        → (stuck : IsStuck t i) → Edge p name stuck.dep × In (stuck.dep, stuck.address) p.services
    stuck-Edge name i listed stuck =
        let pc = receiving stuck.dep stuck.address stuck.channel stuck.todo in
        let asks = (Waiting-of p.services ctx_err t i pc (Waits-of t r) stuck.at).0 in
        let known = (at_pc p.services ctx_err t i pc (Inv-of t r) stuck.at).2 in
        (
          Edge-of t name i stuck.dep r listed (asks stuck.dep (inl refl)),
          lookup-in stuck.dep p.services stuck.address known,
        )

    -- As long as there is no step, each goroutine that is stuck waits for another.
    stuck-IsWalk :
        (n : ℕ) (name : String) (i : ℕ)
        → In (name, i) p.services
        → IsStuck t i
        → Moves ⊎ ((ws : List String) × (length ws ≡ n) × IsWalk p name ws)
    stuck-IsWalk zero name i listed stuck = inr ([], refl, tt)
    stuck-IsWalk (suc n) name i listed stuck =
        let (edge, listed') = stuck-Edge name i listed stuck in
        elim (cases_of stuck.address (values_of_in stuck.dep p.services stuck.address listed')) [
          | inl up ↦ let on = up.1 in let off = stuck.off in cc
          | inr (inl on) ↦ inl on
          | inr (inr stuck') ↦ elim (stuck-IsWalk n stuck.dep stuck.address listed' stuck') [
            | inl on ↦ inl on
            | inr (ws, size, walk) ↦ inr (stuck.dep ∷ ws, ap suc size, (edge, walk))
          ]
        ]

    unstuck : (name : String) (i : ℕ) → In (name, i) p.services → IsStuck t i → Moves
    unstuck name i listed stuck = elim (stuck-IsWalk (length p.services) name i listed stuck) [
      | inl on ↦ on
      | inr (ws, size, walk) ↦
          let short =
            length-walk p boots.closed boots.no_circle name ws (keys_of_in name p.services i listed)
              walk in
          absurd (omega (arith, size, short))
    ]

    pub all-IsUp :
        (m : Maestro)
        → ((i : ℕ) → In i (values m) → In i (values p.services))
        → ((i : ℕ) → In i (values m) → IsUp t i) ⊎ Moves
    all-IsUp [] sub = inl (λ i m. absurd m)
    all-IsUp ((name, s) ∷ m) sub = elim (cases_of s (sub s (inl refl))) [
      | inl up ↦ elim (all-IsUp m (λ i at. sub i (inr at))) [
        | inl rest ↦
            inl (λ i at. elim at [ inl e ↦ subst (IsUp t) (sym e) up | inr at' ↦ rest i at' ])
        | inr on ↦ inr on
      ]
      | inr (inl on) ↦ inr on
      | inr (inr stuck) ↦
          let (name', listed) = in-values p.services s (sub s (inl refl)) in
          inr (unstuck name' s listed stuck)
    ]

  module _ (t : System) (r : Reached t) (quiet : t.err_c.buffer ≡ [])
      (calm : (i : ℕ) (e : Err) → t.pcs i ≢ failing e) where
    -- Where StartAll boots a registry whose dependencies are registered and without a circle, from
    -- valid services of which those that are started have their dependencies started: in every
    -- state that its goroutines can reach without an error in `errC`, and with no goroutine about
    -- to announce a failure, either every service of the map is started and its goroutine has
    -- ended, or some goroutine can take a step.
    pub boot-GoesOn : ((i : ℕ) → In i (values p.services) → IsUp t i) ⊎ GoesOn p.services ctx_err t
    boot-GoesOn =
        all-IsUp t r (GoesOn p.services ctx_err t)
          (λ i listed.
            goroutine_cases p.services ctx_err t (launch-Reach-Books p ctx_err t orderly r)
              (Waits-of t r) i listed (dependencies-Distinct t i r listed) quiet
              (never_crashed t i r) (calm i))
          p.services (λ i m. m)
