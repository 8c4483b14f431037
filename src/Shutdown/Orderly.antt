-- ===== src/Shutdown/Orderly.antt =====
-- maestro.go: StopAll over services of which those that are started have their dependencies started.
use bandmaster.Base.{
  ℕ, ◌≡◌, refl, sym, ap, ◌∙◌, subst, inl, inr, String, Bool, true, false, not, some, [], In, All-at,
  Bool-cases,
}
use bandmaster.Base.Dict.{lookup, values, member_iff, in-lookup, in-values, values_of_in}
use bandmaster.ServiceBase.{Object, dependencies}
use bandmaster.ServiceBase.Invariant.{IsValid}
use bandmaster.Registry.{Program}
use bandmaster.Registry.Valid.{IsRegistry, IsEntry}
use bandmaster.Boot.StartAll.{store_of, object_or_new}
use bandmaster.Boot.Returns.{IsOrderly}
use bandmaster.Goroutines.Serving.{among}
use bandmaster.Shutdown.Defs.{stop_launch, System, Reach, needs}
use bandmaster.Shutdown.Knowledge.{Clear}
use bandmaster.Shutdown.Order.{begins-Inv}
use bandmaster.Shutdown.Launch.{stop_launch-AtEntry}

pub not_both : (o : Object) → IsValid o → o.stopped ≡ true → o.started ≡ true → ⊥
not_both o v on on' = let q : true ≡ false = sym on ∙ v.exclusive ∙ ap not on' in cc

started_of : (a b : Bool) → a ≡ not b → a ≡ false → b ≡ true
started_of a true e off = refl
started_of a false e off = let q : true ≡ false = sym e ∙ off in cc

pub runs-started : (o : Object) → IsValid o → o.stopped ≡ false → o.started ≡ true
runs-started o v runs = started_of o.stopped o.started v.exclusive runs

pub started-runs : (o : Object) → IsValid o → o.started ≡ true → o.stopped ≡ false
started-runs o v on = v.exclusive ∙ ap not on

module _ (p : Program) (ctx_err : String) (valid : IsRegistry p) (orderly : IsOrderly p)
    (sound : (i : ℕ) → IsValid (store_of p i)) where
  -- A service is registered under the name that it has.
  found_at :
      (name : String) (k : ℕ)
      → In (name, k) p.services
      → lookup (store_of p k).name p.services ≡ some k
  unfolding object_or_new
  found_at name k listed =
      let entry = All-at (IsEntry p.objects) p.services valid.entries (name, k) listed in
      let stored : store_of p k ≡ entry.object = ap object_or_new entry.stored in
      let named : (store_of p k).name ≡ name = ap (λ o. o.name) stored ∙ entry.named in
      rw named (in-lookup name p.services k valid.names listed)

  -- A service that is stopped has no dependent that is started.
  stopped-Clear :
      (name : String) (k : ℕ)
      → In (name, k) p.services
      → (store_of p k).stopped ≡ true
      → Clear p.services (store_of p) k []
  unfolding needs
  stopped-Clear name k listed off parent j at needed = elim (Bool-cases (store_of p j).stopped) [
    | inl stopped ↦ inr stopped
    | inr runs ↦
        let on = runs-started (store_of p j) (sound j) runs in
        let m = (member_iff (store_of p k).name (dependencies (store_of p j))).0 needed in
        elim (orderly j on (store_of p k).name m) [
          | inl x ↦ absurd x
          | inr dep ↦
              let same : some dep.address ≡ some k = sym dep.found ∙ found_at name k listed in
              let here : dep.address ≡ k = cc in
              absurd (
                not_both (store_of p k) (sound k) off
                  (subst (λ x. (store_of p x).started ≡ true) here dep.on))
        ]
  ]

  module _ (u : System) (q : Reach p.services ctx_err (stop_launch p.services (store_of p)) u) where
    -- In every state of StopAll, a registered service that is stopped has no registered service that
    -- runs and depends on it.
    pub shutdown-IsStopped :
        (i j : ℕ) (name parent : String)
        → In (name, i) p.services
        → (u.objects i).stopped ≡ true
        → In (parent, j) p.services
        → needs u.objects j i ≡ true
        → (u.objects j).stopped ≡ true
    shutdown-IsStopped i j name parent listed off at needed =
        let inv =
          begins-Inv p.services ctx_err (stop_launch p.services (store_of p)) u
            (stop_launch-AtEntry p.services (store_of p)) q (λ k. ¬ In k (values p.services))
            (λ k stopped. elim (among k (values p.services)) [
              | inr other ↦ inl other
              | inl m ↦
                  let (n, in_map) = in-values p.services k m in
                  inr (stopped-Clear n k in_map stopped)
            ]) in
        elim (inv.served i off) [
          | inl other ↦ absurd (other (values_of_in name p.services i listed))
          | inr clear ↦ elim (clear parent j at needed) [ inl x ↦ absurd x | inr y ↦ y ]
        ]
