-- ===== src/Lifetime/Registers.antt =====
-- maestro.go: AddServiceWithBackoff keeps the services of a Maestro in order.
use bandmaster.Base.{
  ℕ, ◌≡◌, refl, sym, ap, ◌∙◌, subst, ◌≢◌, inl, inr, String, Bool, true, false, some, List, [], ◌∷◌,
  ◌++◌, ◌⊎◌, In, eq_false, in-append_left, in-append_right,
}
use native.Mathlib.Decide.{ℕ_discrete}
use bandmaster.Base.Dict.{
  values, lookup-insert, lookup-eq-none, insert-new, values-append, lookup-in, values_of_in,
}
use bandmaster.Base.Family.{update_self, update_ne}
use bandmaster.ServiceBase.{Object, dependencies}
use bandmaster.ServiceBase.Invariant.{IsValid}
use bandmaster.Registry.{Program, add_service_with_backoff}
use bandmaster.Registry.Add.{IsAcceptable, configured, added, add-eq}
use bandmaster.Registry.Valid.{IsRegistry, add-IsRegistry}
use bandmaster.Boot.Knowledge.{IsStarted}
use bandmaster.Boot.StartAll.{store_of, object_or_new}
use bandmaster.Lifetime.Invariant.{IsKept}

module _ (name : String) (req : Bool) (max_retries initial_backoff s : ℕ) (deps : List String)
    (p : Program) (kept : IsKept p) (absent : ¬ In s (values p.services))
    (a : IsAcceptable name req max_retries initial_backoff s deps p) where
  abbrev behind : Program
  behind = added name req max_retries initial_backoff s deps p a.base

  abbrev new : Object
  new = configured name req max_retries initial_backoff s deps a.base

  was : store_of p s ≡ a.base
  unfolding object_or_new
  was = ap object_or_new a.based

  behind-values : values behind.services ≡ values p.services ++ s ∷ []
  behind-values =
      ap values (insert-new name s p.services (lookup-eq-none name p.services a.free))
      ∙ values-append p.services ((name, s) ∷ [])

  -- A property of the new service and of the old ones.
  of_each :
      (P : ℕ → Object → Type 0)
      → P s new
      → ((i : ℕ) → s ≢ i → P i (store_of p i))
      → (i : ℕ) → P i (store_of behind i)
  unfolding object_or_new
  of_each P at_new at_old i = elim (ℕ_discrete s i) [
    | yes same ↦ rw (← same) (rw (update_self p.objects s (some new)) at_new)
    | no other ↦ rw (update_ne p.objects s (some new) i other) (at_old i other)
  ]

  still-IsStarted :
      (d : String)
      → IsStarted p.services (store_of p) d
      → IsStarted behind.services (store_of behind) d
  unfolding object_or_new
  still-IsStarted d h =
      let listed = lookup-in d p.services h.address h.found in
      let other : s ≢ h.address = λ same. absent (
        subst (λ i. In i (values p.services)) (sym same)
          (values_of_in d p.services h.address listed)) in
      let distinct : name ≢ d = λ same. let free = a.free in let found = h.found in cc in
      record {
        address = h.address;
        found = lookup-insert name d s p.services ∙ rw (eq_false name d distinct) h.found;
        on = rw (update_ne p.objects s (some new) h.address other) h.on;
      }

  base_idle : a.base.started ≡ false
  base_idle = subst (λ o. o.started ≡ false) was (kept.idle s absent)

  base-IsValid : IsValid a.base
  base-IsValid = subst IsValid was (kept.sound s)

  base_free : a.base.direct_deps ≡ []
  base_free = subst (λ o. o.direct_deps ≡ []) was (kept.free s absent)

  outside_before : (i : ℕ) → ¬ In i (values behind.services) → ¬ In i (values p.services)
  outside_before i other at =
      other (
        subst (λ is. In i is) (sym behind-values)
          (in-append_left i (values p.services) (s ∷ []) at))

  new_at : In s (values behind.services)
  new_at =
      subst (λ is. In s is) (sym behind-values)
        (in-append_right s (values p.services) (s ∷ []) (inl refl))

  behind-IsKept : IsKept behind
  unfolding dependencies
  behind-IsKept = record {
    registry =
        subst IsRegistry (ap (λ r. r.1) (add-eq name req max_retries initial_backoff s deps p a)) (
          add-IsRegistry name req max_retries initial_backoff s deps p a
            (record {
              absent = absent;
              independent = λ m. subst (λ ds. In name ds) base_free m;
              distinct = rw base_free tt;
            })
            kept.registry);
    sound =
        of_each (λ i o. IsValid o)
          (record {
            exclusive = base-IsValid.exclusive;
            none_started = base-IsValid.none_started;
            none_stopped = base-IsValid.none_stopped;
            open_started = base-IsValid.open_started;
            open_stopped = base-IsValid.open_stopped;
            distinct_started = base-IsValid.distinct_started;
            distinct_stopped = base-IsValid.distinct_stopped;
          })
          (λ i other. kept.sound i);
    orderly =
        of_each
          (λ i o.
            o.started ≡ true
            → (d : String) → In d o.direct_deps
            → In d [] ⊎ IsStarted behind.services (store_of behind) d)
          (λ on. absurd (let off = base_idle in cc))
          (λ i other on d m. elim (kept.orderly i on d m) [
            | inl x ↦ absurd x
            | inr h ↦ inr (still-IsStarted d h)
          ]);
    idle =
        of_each (λ i o. ¬ In i (values behind.services) → o.started ≡ false)
          (λ other. absurd (other new_at)) (λ i n other. kept.idle i (outside_before i other));
    free =
        of_each (λ i o. ¬ In i (values behind.services) → o.direct_deps ≡ [])
          (λ other. absurd (other new_at)) (λ i n other. kept.free i (outside_before i other));
  }

-- A successful AddServiceWithBackoff of a service that is not registered yet.
pub add-IsKept :
    (name : String) (req : Bool) (max_retries initial_backoff s : ℕ) (deps : List String)
    (p : Program)
    → IsKept p
    → ¬ In s (values p.services)
    → IsAcceptable name req max_retries initial_backoff s deps p
    → IsKept (add_service_with_backoff name req max_retries initial_backoff s deps p).1
add-IsKept name req max_retries initial_backoff s deps p kept absent a =
    subst IsKept (sym (ap (λ r. r.1) (add-eq name req max_retries initial_backoff s deps p a)))
      (behind-IsKept name req max_retries initial_backoff s deps p kept absent a)
