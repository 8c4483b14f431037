-- ===== src/Boot/Later.antt =====
-- maestro.go: the registry behind the goroutines of StartAll or of StopAll, which have changed its
-- services.
use bandmaster.Base.{
  ℕ, ◌≡◌, refl, sym, ap, ◌∙◌, subst, String, some, List, [], ◌∷◌, ◌++◌, In, All-map, Distinct,
}
use bandmaster.Base.Dict.{keys_of_in, lookup-in}
use bandmaster.Channel.{Chan}
use bandmaster.ServiceBase.{Object}
use bandmaster.ServiceBase.Invariant.{IsValid}
use bandmaster.Registry.{Program}
use bandmaster.Registry.Valid.{IsRegistry, IsEntry}
use bandmaster.Deps.Graph.{Edge, IsWalk, IsCircle, registered}
use bandmaster.Boot.Defs.{System, Reach}
use bandmaster.Boot.Order.{Reach-Inv, fresh-Inv}
use bandmaster.Boot.Checks.{IsBootable}
use bandmaster.Boot.Refinement.{Reach-Grows}
use bandmaster.Boot.StartAll.{launch, store_of, object_or_new}
use bandmaster.Boot.Returns.{IsOrderly, launch-IsFreshBoot}
use bandmaster.Boot.Progress.{launch-Waits}
use bandmaster.Boot.Waits.Steps.{Reach-Waits}

-- The same registry, with its services as they are later.
abbrev pub later : Program → (ℕ → Object) → Program
later p objects = record { services = p.services; objects = λ i. some (objects i) }

module _ (p : Program) (valid : IsRegistry p) (objects : ℕ → Object)
    (named : (i : ℕ) → (objects i).name ≡ (store_of p i).name)
    (deps : (i : ℕ) → (objects i).direct_deps ≡ (store_of p i).direct_deps) where
  later-IsEntry : (e : String × ℕ) → IsEntry p.objects e → IsEntry (later p objects).objects e
  unfolding object_or_new
  later-IsEntry (name, i) entry =
      let stored : store_of p i ≡ entry.object = ap object_or_new entry.stored in
      let same = deps i ∙ ap (λ o. o.direct_deps) stored in
      record {
        object = objects i;
        stored = refl;
        named = named i ∙ ap (λ o. o.name) stored ∙ entry.named;
        others = subst (λ ds. ¬ In name ds) (sym same) entry.others;
        once = subst (λ ds. Distinct ds) (sym same) entry.once;
      }

  pub later-IsRegistry : IsRegistry (later p objects)
  later-IsRegistry = record {
    entries =
        All-map (IsEntry p.objects) (IsEntry (later p objects).objects) p.services later-IsEntry
          valid.entries;
    names = valid.names;
    addresses = valid.addresses;
  }

  earlier-Edge : (a b : String) → Edge (later p objects) a b → Edge p a b
  unfolding object_or_new
  earlier-Edge a b edge =
      let listed = lookup-in a p.services edge.from.address edge.from.found in
      let reg = registered p a valid (keys_of_in a p.services edge.from.address listed) in
      let found : some reg.address ≡ some edge.from.address = sym reg.found ∙ edge.from.found in
      let same : reg.address ≡ edge.from.address = cc in
      let late : objects edge.from.address ≡ edge.from.object = let q = edge.from.stored in cc in
      let stored : store_of p edge.from.address ≡ reg.object =
        ap (store_of p) (sym same) ∙ ap object_or_new reg.stored in
      record {
        from = reg;
        needs =
            subst (λ ds. In b ds)
              (ap (λ o. o.direct_deps) (sym late)
                ∙ deps edge.from.address
                ∙ ap (λ o. o.direct_deps) stored)
              edge.needs;
      }

  earlier-IsWalk : (a : String) (ws : List String) → IsWalk (later p objects) a ws → IsWalk p a ws
  earlier-IsWalk a [] walk = tt
  earlier-IsWalk a (w ∷ ws) walk = (earlier-Edge a w walk.0, earlier-IsWalk w ws walk.1)

  pub earlier-IsCircle : (a : String) → IsCircle (later p objects) a → IsCircle p a
  earlier-IsCircle a circle = record {
    between = circle.between;
    walk = earlier-IsWalk a (circle.between ++ a ∷ []) circle.walk;
  }

  pub later-IsBootable : IsBootable p → IsBootable (later p objects)
  later-IsBootable boots = record {
    closed = λ a b edge. boots.closed a b (earlier-Edge a b edge);
    no_circle = λ a circle. boots.no_circle a (earlier-IsCircle a circle);
  }

-- Behind the steps of a StartAll over services of which those that are started have their
-- dependencies started.
module _ (p : Program) (ctx_err : String) (c : Chan) (orderly : IsOrderly p) (t : System)
    (r : Reach p.services ctx_err (launch p c) t) where
  pub boot-IsValid : ((i : ℕ) → IsValid (store_of p i)) → (j : ℕ) → IsValid (t.objects j)
  boot-IsValid sound =
      (Reach-Waits p.services ctx_err (launch p c) t r
        (fresh-Inv p.services ctx_err _ (launch-IsFreshBoot p ctx_err c orderly))
        (launch-Waits p sound)).valid

  pub boot-IsOrderly : IsOrderly (later p t.objects)
  unfolding object_or_new
  boot-IsOrderly =
      (Reach-Inv p.services ctx_err (launch p c) t r
        (fresh-Inv p.services ctx_err _ (launch-IsFreshBoot p ctx_err c orderly))).served

  pub boot-IsRegistry : IsRegistry p → IsRegistry (later p t.objects)
  boot-IsRegistry valid =
      let fresh = launch-IsFreshBoot p ctx_err c orderly in
      let grows = Reach-Grows p.services ctx_err (launch p c) t fresh r in
      later-IsRegistry p valid t.objects (λ i. (grows i).named) (λ i. (grows i).deps)
