-- ===== src/Shutdown/Later.antt =====
-- maestro.go: the registry behind the steps of a StopAll.
use bandmaster.Base.{
  ℕ, ◌≡◌, sym, ap, ◌∙◌, subst, inl, inr, String, true, false, In, All-at, Bool-cases,
}
use bandmaster.Base.Dict.{values, member_iff, lookup-in, in-values}
use bandmaster.ServiceBase.{dependencies}
use bandmaster.ServiceBase.Invariant.{IsValid}
use bandmaster.Registry.{Program}
use bandmaster.Registry.Valid.{IsRegistry, IsEntry}
use bandmaster.Boot.StartAll.{store_of, object_or_new}
use bandmaster.Boot.Returns.{IsOrderly}
use bandmaster.Boot.Later.{later, later-IsRegistry}
use bandmaster.Goroutines.Serving.{among}
use bandmaster.Shutdown.Defs.{stop_launch, System, Reach, needs}
use bandmaster.Shutdown.Launch.{stop_launch-AtEntry}
use bandmaster.Shutdown.Effects.{Winds, Reach-Winds}
use bandmaster.Shutdown.Progress.{Waits-of}
use bandmaster.Shutdown.Orderly.{not_both, runs-started, shutdown-IsStopped}

module _ (p : Program) (ctx_err : String) (valid : IsRegistry p)
    (sound : (i : ℕ) → IsValid (store_of p i)) (u : System)
    (q : Reach p.services ctx_err (stop_launch p.services (store_of p)) u) where
  pub shutdown-Winds : Winds (store_of p) u.objects
  shutdown-Winds =
      Reach-Winds p.services ctx_err (stop_launch p.services (store_of p)) u
        (stop_launch-AtEntry p.services (store_of p)) q

  pub shutdown-IsRegistry : IsRegistry (later p u.objects)
  shutdown-IsRegistry =
      later-IsRegistry p valid u.objects (λ i. (shutdown-Winds i).named)
        (λ i. (shutdown-Winds i).deps)

  pub shutdown-IsValid : (i : ℕ) → IsValid (u.objects i)
  shutdown-IsValid = (Waits-of p ctx_err valid sound u q).valid

  -- StopAll starts nothing.
  pub started_before : (i : ℕ) → (u.objects i).started ≡ true → (store_of p i).started ≡ true
  started_before i on = elim (Bool-cases (store_of p i).stopped) [
    | inl off ↦
        absurd (not_both (u.objects i) (shutdown-IsValid i) ((shutdown-Winds i).kept off) on)
    | inr runs ↦ runs-started (store_of p i) (sound i) runs
  ]

  -- The name of a registered service.
  named_at : (name : String) (i : ℕ) → In (name, i) p.services → (u.objects i).name ≡ name
  unfolding object_or_new
  named_at name i listed =
      let entry = All-at (IsEntry p.objects) p.services valid.entries (name, i) listed in
      let stored : store_of p i ≡ entry.object = ap object_or_new entry.stored in
      (shutdown-Winds i).named ∙ ap (λ o. o.name) stored ∙ entry.named

  -- Where no service is started that is not registered, those that are started have their
  -- dependencies started.
  pub shutdown-IsOrderly :
      IsOrderly p
      → ((i : ℕ) → ¬ In i (values p.services) → (store_of p i).started ≡ false)
      → IsOrderly (later p u.objects)
  unfolding object_or_new needs dependencies
  shutdown-IsOrderly orderly unused i on d m =
      let on_before = started_before i on in
      elim (orderly i on_before d (subst (λ ds. In d ds) (shutdown-Winds i).deps m)) [
        | inl x ↦ absurd x
        | inr dep ↦ elim (Bool-cases (u.objects dep.address).stopped) [
          | inr runs ↦ inr (record {
            address = dep.address;
            found = dep.found;
            on = runs-started (u.objects dep.address) (shutdown-IsValid dep.address) runs;
          })
          | inl off ↦ elim (among i (values p.services)) [
            | inr other ↦ absurd (let idle = unused i other in cc)
            | inl at ↦
                let (name, entry) = in-values p.services i at in
                let listed = lookup-in d p.services dep.address dep.found in
                let asked = (member_iff (u.objects dep.address).name (u.objects i).direct_deps).1 (
                  subst (λ x. In x (u.objects i).direct_deps) (sym (named_at d dep.address listed))
                    m) in
                let down =
                  shutdown-IsStopped p ctx_err valid orderly sound u q dep.address i d name listed
                    off entry asked in
                absurd (not_both (u.objects i) (shutdown-IsValid i) down on)
          ]
        ]
      ]
