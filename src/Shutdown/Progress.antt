-- ===== src/Shutdown/Progress.antt =====
-- maestro.go: whether a shutdown can come to a standstill before every service is stopped.
use bandmaster.Base.{
  Distinct, All-at, All-of_in, ℕ, ◌+◌, zero, suc, ◌≡◌, refl, sym, ap, ◌∙◌, subst, ◌≢◌, ◌⊎◌, inl,
  inr, String, some, true, List, [], ◌∷◌, In, length, arith,
}
use bandmaster.Base.Dict.{keys, values, in-lookup, keys_of_in, values_of_in, in-values, member_iff}
use bandmaster.Errors.{Err}
use bandmaster.ServiceBase.{Object, dependencies}
use bandmaster.ServiceBase.Invariant.{IsValid}
use bandmaster.Registry.{Maestro, Program}
use bandmaster.Registry.Valid.{IsRegistry, IsEntry}
use bandmaster.Deps.Graph.{Edge, IsWalk, IsCircle, registered}
use bandmaster.Deps.Walks.{length-walk_in}
use bandmaster.Boot.StartAll.{store_of, object_or_new}
use bandmaster.Shutdown.Defs.{
  receiving, failing, needs, System, Reach, here, stop_launch, stop_launched,
}
use bandmaster.Shutdown.Launch.{stop_launched_cases, stop_launch-AtEntry}
use bandmaster.Shutdown.Effects.{begins-Knows, Reach-Winds}
use bandmaster.Shutdown.Returns.{stop_launch-Reach-Books}
use bandmaster.Shutdown.Waits.{Waits, Waiting-of}
use bandmaster.Shutdown.Waits.Steps.{Reach-Waits}
use bandmaster.Shutdown.Moves.{GoesOn, IsStuck, IsDown, goroutine_cases}

pub stop_launch-Waits :
    (m : Maestro) (objects : ℕ → Object)
    → ((i : ℕ) → IsValid (objects i))
    → Waits m objects (stop_launched m)
stop_launch-Waits m objects sound = record {
  valid = sound;
  waiting = λ i. elim (stop_launched_cases m i) [ inl e ↦ rw e tt | inr (e, at) ↦ rw e tt ];
}

-- The services of a map with distinct names are distinct entries.
Distinct-of_keys : (m : Maestro) → Distinct (keys m) → Distinct m
Distinct-of_keys [] once = tt
Distinct-of_keys ((name, s) ∷ m) once = (
  All-of_in (λ y. (name, s) ≢ y) m
      (λ y at e.
        All-at (λ n. name ≢ n) (keys m) once.0 y.0 (keys_of_in y.0 m y.1 at) (ap (λ x. x.0) e)),
  Distinct-of_keys m once.1,
)

pub entries-Distinct : (p : Program) → IsRegistry p → Distinct p.services
entries-Distinct p valid = Distinct-of_keys p.services valid.names

module _ (p : Program) (ctx_err : String) (valid : IsRegistry p)
    (sound : (i : ℕ) → IsValid (store_of p i)) where
  abbrev stop_of : System
  stop_of = stop_launch p.services (store_of p)

  module _ (t : System) (r : Reach p.services ctx_err stop_of t) where
    pub Waits-of : Waits p.services t.objects t.pcs
    Waits-of =
        Reach-Waits p.services ctx_err stop_of t r
          (begins-Knows p.services ctx_err stop_of stop_of
            (stop_launch-AtEntry p.services (store_of p)) here)
          (stop_launch-Waits p.services (store_of p) sound)

    -- What a registered service is called.
    named_at : (name : String) (i : ℕ) → In (name, i) p.services → (t.objects i).name ≡ name
    unfolding object_or_new
    named_at name i listed =
        let entry = All-at (IsEntry p.objects) p.services valid.entries (name, i) listed in
        let winds =
          Reach-Winds p.services ctx_err stop_of t (stop_launch-AtEntry p.services (store_of p)) r
            i in
        let stored : store_of p i ≡ entry.object = ap object_or_new entry.stored in
        winds.named ∙ ap (λ o. o.name) stored ∙ entry.named

    -- A service that has to be stopped first depends on the one that waits for it.
    needs-Edge :
        (name parent : String) (i j : ℕ)
        → In (name, i) p.services
        → In (parent, j) p.services
        → needs t.objects j i ≡ true
        → Edge p parent name
    unfolding needs dependencies object_or_new
    needs-Edge name parent i j listed listed' needed =
        let reg = registered p parent valid (keys_of_in parent p.services j listed') in
        let found : some reg.address ≡ some j =
          sym reg.found ∙ in-lookup parent p.services j valid.names listed' in
        let same : reg.address ≡ j = cc in
        let winds =
          Reach-Winds p.services ctx_err stop_of t (stop_launch-AtEntry p.services (store_of p)) r
            j in
        let stored : store_of p j ≡ reg.object =
          ap (store_of p) (sym same) ∙ ap object_or_new reg.stored in
        let m = (member_iff (t.objects i).name (dependencies (t.objects j))).0 needed in
        record {
          from = reg;
          needs =
              subst (λ ds. In name ds) (winds.deps ∙ ap (λ o. o.direct_deps) stored)
                (subst (λ n. In n (dependencies (t.objects j))) (named_at name i listed) m);
        }

  -- `Moves` is what the goroutines that are neither down nor stuck can do.
  module _ (no_circle : (a : String) → ¬ IsCircle p a) (t : System)
      (r : Reach p.services ctx_err stop_of t) (Moves : Type 0)
      (cases_of : (i : ℕ) → In i (values p.services) → IsDown t i ⊎ Moves ⊎ IsStuck t i) where
    -- A goroutine that is stuck waits for a registered service that depends on its own.
    stuck-Edge :
        (name : String) (i : ℕ)
        → In (name, i) p.services
        → (stuck : IsStuck t i)
        → Edge p stuck.parent name × In (stuck.parent, stuck.address) p.services
    stuck-Edge name i listed stuck =
        let pc = receiving stuck.parent stuck.address stuck.channel stuck.todo in
        let h = Waiting-of p.services t i pc (Waits-of t r) stuck.at in
        let listed' = h.0 (stuck.parent, stuck.address) (inl refl) in
        (needs-Edge t r name stuck.parent i stuck.address listed listed' h.1, listed')

    -- As long as there is no step, each goroutine that is stuck waits for another: the walk along
    -- dependencies to a stuck service gets longer at its front.
    stuck-IsWalk :
        (n : ℕ) (name : String) (i : ℕ) (ws : List String)
        → In (name, i) p.services
        → IsStuck t i
        → IsWalk p name ws
        → ((z : String) → In z (name ∷ ws) → In z (keys p.services))
        → Moves
          ⊎ ((x : String) × (vs : List String) × (length vs ≡ n + length ws)
              × IsWalk p x vs
              × ((z : String) → In z (x ∷ vs) → In z (keys p.services)))
    stuck-IsWalk zero name i ws listed stuck walk known = inr (name, ws, omega arith, walk, known)
    stuck-IsWalk (suc n) name i ws listed stuck walk known =
        let (edge, listed') = stuck-Edge name i listed stuck in
        elim (cases_of stuck.address (values_of_in stuck.parent p.services stuck.address listed')) [
          | inl down ↦ let on = down.1 in let off = stuck.off in cc
          | inr (inl on) ↦ inl on
          | inr (inr stuck') ↦
              elim (stuck-IsWalk n stuck.parent stuck.address (name ∷ ws) listed' stuck'
                (edge, walk)
                (λ z m. elim m [
                  | inl e ↦ rw e (keys_of_in stuck.parent p.services stuck.address listed')
                  | inr m' ↦ known z m'
                ])) [
                  | inl on ↦ inl on
                  | inr (x, vs, size, walk', known') ↦
                      inr (x, vs, omega (arith, size), walk', known')
                ]
        ]

    unstuck : (name : String) (i : ℕ) → In (name, i) p.services → IsStuck t i → Moves
    unstuck name i listed stuck =
        elim (stuck-IsWalk (length p.services) name i [] listed stuck tt (λ z m. elim m [
          | inl e ↦ rw e (keys_of_in name p.services i listed)
          | inr none ↦ absurd none
        ])) [
          | inl on ↦ on
          | inr (x, vs, size, walk, known) ↦
              let short = length-walk_in p no_circle x vs known walk in
              absurd (omega (arith, size, short))
        ]

    pub all-IsDown :
        (m : Maestro)
        → ((i : ℕ) → In i (values m) → In i (values p.services))
        → ((i : ℕ) → In i (values m) → IsDown t i) ⊎ Moves
    all-IsDown [] sub = inl (λ i m. absurd m)
    all-IsDown ((name, s) ∷ m) sub = elim (cases_of s (sub s (inl refl))) [
      | inl down ↦ elim (all-IsDown m (λ i at. sub i (inr at))) [
        | inl rest ↦
            inl (λ i at. elim at [ inl e ↦ subst (IsDown t) (sym e) down | inr at' ↦ rest i at' ])
        | inr on ↦ inr on
      ]
      | inr (inl on) ↦ inr on
      | inr (inr stuck) ↦
          let (name', listed) = in-values p.services s (sub s (inl refl)) in
          inr (unstuck name' s listed stuck)
    ]

  module _ (no_circle : (a : String) → ¬ IsCircle p a) (t : System)
      (r : Reach p.services ctx_err stop_of t) (quiet : t.err_c.buffer ≡ [])
      (calm : (i : ℕ) (e : Err) → t.pcs i ≢ failing e) where
    -- Where StopAll runs over a registry of valid services without a circle of dependencies: in
    -- every state that its goroutines can reach without an error in `errC`, and with no goroutine
    -- about to announce a failure, either every service of the map is stopped and its goroutine has
    -- ended, or some goroutine can take a step.
    pub shutdown-GoesOn :
        ((i : ℕ) → In i (values p.services) → IsDown t i) ⊎ GoesOn p.services ctx_err t
    shutdown-GoesOn =
        all-IsDown no_circle t r (GoesOn p.services ctx_err t)
          (λ i listed.
            goroutine_cases p.services ctx_err t
              (stop_launch-Reach-Books p.services ctx_err (store_of p) t r) (Waits-of t r) i listed
              (entries-Distinct p valid) quiet (calm i))
          p.services (λ i m. m)
