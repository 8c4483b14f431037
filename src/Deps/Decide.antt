-- ===== src/Deps/Decide.antt =====
-- maestro.go: hasCircularDeps decides whether the dependencies of the services hold a circle, and
-- never runs out of stack.
use bandmaster.Base.{
  ℕ, zero, suc, ◌+◌, ◌<◌, ◌≤◌, ◌≡◌, refl, ◌≢◌, ◌∙◌, subst, String, false, List, [], ◌∷◌, ◌++◌, In,
  All-of_in, Distinct, Distinct-append, length, arith, length-append, returned, ◌⊎◌, inl, inr,
  in-append_cases,
}
use mathlib.Core.List.{append_assoc}
use bandmaster.Base.Pigeonhole.{length-le_of_distinct}
use bandmaster.Base.Dict.{
  lookup, keys, keys-of_lookup, length-keys, in_cases, keys_of_in, in-lookup,
}
use bandmaster.Channel.{Chan}
use bandmaster.Registry.{Maestro, Program}
use bandmaster.Registry.Valid.{IsRegistry}
use bandmaster.Deps.Defs.{circular_rec, circular_from, has_circular_deps}
use bandmaster.Deps.Graph.{
  IsRegistered, Edge, IsWalk, IsClosed, IsCircle, IsPath, registered, registered_object,
  IsPath-snoc, IsCircle-of_path, no-IsCircle,
}
use bandmaster.Deps.Trail.{trail}
use bandmaster.Deps.Circular.{IsReady, Found, Clear, call-again, call-new, deeper, any_dep_verdict}

module _ (p : Program) (valid : IsRegistry p) (closed : IsClosed p) where
  -- The names on the way are as many as the services at most, so the stack is never used up.
  below_services :
      (names : List String)
      → Distinct names
      → ((x : String) → In x names → In x (keys p.services))
      → length names ≤ length p.services
  below_services names d sub =
      omega (arith, length-le_of_distinct names (keys p.services) d sub, length-keys p.services)

  snoc_registered :
      (names : List String) (cur : String)
      → ((x : String) → In x names → In x (keys p.services))
      → In cur (keys p.services)
      → (x : String) → In x (names ++ cur ∷ [])
      → In x (keys p.services)
  snoc_registered names cur sub k x i = elim (in-append_cases x names (cur ∷ []) i) [
    | inl l ↦ sub x l
    | inr (inl e) ↦ rw e k
    | inr (inr n) ↦ absurd n
  ]

  snoc_distinct :
      (names : List String) (cur : String)
      → Distinct names
      → ¬ In cur names
      → Distinct (names ++ cur ∷ [])
  snoc_distinct names cur d new =
      Distinct-append names cur d
        (All-of_in (λ x. x ≢ cur) names (λ x i e. new (subst (λ y. In y names) e i)))

  walk_distinct :
      (names : List String) (cur : String) (r : IsRegistered p cur)
      → Distinct (names ++ cur ∷ [])
      → ((d : String)
          → In d r.object.direct_deps
          → (ws : List String) → IsWalk p d ws
          → Distinct ((names ++ cur ∷ []) ++ d ∷ ws))
      → (ws : List String) → IsWalk p cur ws
      → Distinct (names ++ cur ∷ ws)
  walk_distinct names cur r d all [] walk = d
  walk_distinct names cur r d all (w ∷ ws) walk =
      let needs =
        subst (λ o. In w o.direct_deps) (registered_object p cur walk.0.from r) walk.0.needs in
      rw append_assoc at (all w needs ws walk.1)

  module _ (c : Chan) (ready : IsReady c) where
    -- A call finds a circle, or there is none below its service.
    verdict :
        (fuel : ℕ) (names : List String) (cur : String)
        → In cur (keys p.services)
        → IsPath p (names ++ cur ∷ [])
        → Distinct names
        → ((x : String) → In x names → In x (keys p.services))
        → length p.services < length names + fuel
        → Found p c (circular_rec p fuel (lookup cur p.services) (trail 0 names) (length names) c)
          ⊎ Clear p names cur c
              (circular_rec p fuel (lookup cur p.services) (trail 0 names) (length names) c)
    verdict zero names cur k w d sub h = absurd (omega (arith, below_services names d sub))
    verdict (suc fuel) names cur k w d sub h =
        let r = registered p cur valid k in
        elim (in_cases cur names) [
          | inl i ↦ inl (call-again p c ready fuel names cur r w i)
          | inr new ↦
              let d' = snoc_distinct names cur d new in
              let size = length-append names (cur ∷ []) in
              let below = λ (x : String) (i : In x r.object.direct_deps).
                let e : Edge p cur x = record { from = r; needs = i } in
                verdict fuel (names ++ cur ∷ []) x (closed cur x e) (IsPath-snoc p names cur x w e)
                  d' (snoc_registered names cur sub k) (omega (arith, size)) in
              elim (any_dep_verdict p c ready (names ++ cur ∷ [])
                (deeper p c ready fuel names cur r) r.object.direct_deps below) [
                  | inl f ↦ inl (record {
                    body = f.body;
                    last = f.last;
                    path = f.path;
                    again = f.again;
                    reported = call-new p c ready fuel names cur r new ∙ f.reported;
                  })
                  | inr (q, all) ↦ inr (record {
                    quiet = call-new p c ready fuel names cur r new ∙ q;
                    distinct = walk_distinct names cur r d' all;
                  })
                ]
        ]

    -- The loop over the services.
    from_verdict :
        (fuel : ℕ) (m : Maestro)
        → length p.services < fuel
        → ((name : String) (s : ℕ) → In (name, s) m → In (name, s) p.services)
        → Found p c (circular_from p fuel m c)
          ⊎ ((circular_from p fuel m c ≡ (returned false, c))
              × ((name : String) → In name (keys m) → ¬ IsCircle p name))
    unfolding circular_from
    from_verdict fuel [] h sub = inr (refl, λ name i. absurd i)
    from_verdict fuel ((name, s) ∷ m) h sub =
        let here = sub name s (inl refl) in
        let k = keys_of_in name p.services s here in
        let found = in-lookup name p.services s valid.names here in
        elim (rw found at (verdict fuel [] name k tt tt (λ x i. absurd i) (omega arith))) [
          | inl f ↦ inl (record {
            body = f.body;
            last = f.last;
            path = f.path;
            again = f.again;
            reported = rw f.reported;
          })
          | inr q ↦ elim (from_verdict fuel m h (λ n r i. sub n r (inr i))) [
            | inl f ↦ inl (record {
              body = f.body;
              last = f.last;
              path = f.path;
              again = f.again;
              reported = rw q.quiet f.reported;
            })
            | inr (e, clear) ↦ inr (
              rw q.quiet e,
              λ n i. elim i [
                | inl same ↦ rw same (no-IsCircle p name q.distinct)
                | inr i' ↦ clear n i'
              ],
            )
          ]
        ]

pub circle_registered : (p : Program) (a : String) → IsCircle p a → In a (keys p.services)
circle_registered p a c = go c.between c.walk
  where
    here : (b : String) → Edge p a b → In a (keys p.services)
    here b e = keys-of_lookup a p.services e.from.address e.from.found

    go : (ws : List String) → IsWalk p a (ws ++ a ∷ []) → In a (keys p.services)
    go [] w = here a w.0
    go (x ∷ ws) w = here x w.0

-- Over a registry in which every dependency is registered, with room in `errC` for one error and a
-- stack deeper than the number of services, hasCircularDeps ends. Either there is a circle, it
-- returns true, and `errC` gets one error, with a path along dependencies whose last name stands in
-- it before; or there is none, it returns false, and `errC` stays as it was.
pub has_circular_deps-decides :
    (p : Program) (c : Chan) (fuel : ℕ)
    → IsRegistry p
    → IsClosed p
    → IsReady c
    → length p.services < fuel
    → (Found p c (has_circular_deps p fuel c) × ((a : String) × IsCircle p a))
      ⊎ ((has_circular_deps p fuel c ≡ (returned false, c)) × ((a : String) → ¬ IsCircle p a))
unfolding has_circular_deps
has_circular_deps-decides p c fuel valid closed ready deep =
    elim (from_verdict p valid closed c ready fuel p.services deep (λ n s i. i)) [
      | inl f ↦ inl (f, (f.last, IsCircle-of_path p f.body f.last f.path f.again))
      | inr (e, clear) ↦ inr (e, λ a q. clear a (circle_registered p a q) q)
    ]
