-- ===== src/Registry/Valid.antt =====
-- maestro.go: what holds of a registry between two calls of AddService.
use bandmaster.Base.{
  ℕ, ◌≡◌, refl, ◌≢◌, String, Bool, Option, some, List, [], ◌∷◌, ◌++◌, In, Distinct, All, All-append,
  All-map, Distinct-append, All-of_in, subst, sym, ◌∙◌, inl, inr, in-append_cases,
}
use bandmaster.Base.Dict.{keys, values, lookup-eq-none, insert-new, keys-append, values-append}
use bandmaster.Base.Family.{update, update_self, update_ne}
use bandmaster.ServiceBase.{Object}
use bandmaster.Registry.Defs.{Maestro, Program, add_service_with_backoff}
use bandmaster.Registry.Add.{IsAcceptable, configured, added, add-eq}

-- An entry of the map: its service has the name it is registered under, and does not depend on
-- itself, nor twice on another.
pub record IsEntry (objects : ℕ → Option Object) (entry : String × ℕ) : Type 0 where
  pub object : Object
  pub stored : objects entry.1 ≡ some object
  pub named : object.name ≡ entry.0
  pub others : ¬ In entry.0 object.direct_deps
  pub once : Distinct object.direct_deps

-- No name and no service stands twice in the map.
pub record IsRegistry (p : Program) : Type 0 where
  pub entries : All (IsEntry p.objects) p.services
  pub names : Distinct (keys p.services)
  pub addresses : Distinct (values p.services)

-- Writing to an object that is not registered leaves the entries as they are.
entries-update :
    (objects : ℕ → Option Object) (s : ℕ) (o : Option Object) (m : Maestro)
    → ¬ In s (values m)
    → All (IsEntry objects) m
    → All (IsEntry (update objects s o)) m
entries-update objects s o [] n h = tt
entries-update objects s o ((k, r) ∷ m) n h = (
  record {
    object = h.0.object;
    stored = update_ne objects s o r (λ e. n (inl e)) ∙ h.0.stored;
    named = h.0.named;
    others = h.0.others;
    once = h.0.once;
  },
  entries-update objects s o m (λ i. n (inr i)) h.1,
)

Distinct-add :
    {A : Type 0} (xs : List A) (a : A) → Distinct xs → ¬ In a xs → Distinct (xs ++ a ∷ [])
Distinct-add xs a d n =
    Distinct-append xs a d (All-of_in (λ x. x ≢ a) xs (λ x m e. n (subst (λ y. In y xs) e m)))

Distinct-concat :
    {A : Type 0} (xs ys : List A)
    → Distinct xs
    → Distinct ys
    → All (λ y. ¬ In y xs) ys
    → Distinct (xs ++ ys)
Distinct-concat [] ys dx dy h = dy
Distinct-concat (x ∷ xs) ys dx dy h = (
  All-append (λ y. x ≢ y) xs ys dx.0
      (All-map (λ y. ¬ In y (x ∷ xs)) (λ y. x ≢ y) ys (λ y n e. n (inl (sym e))) h),
  Distinct-concat xs ys dx.1 dy
      (All-map (λ y. ¬ In y (x ∷ xs)) (λ y. ¬ In y xs) ys (λ y n m. n (inr m)) h),
)

module _ (name : String) (req : Bool) (max_retries initial_backoff s : ℕ) (deps : List String)
    (p : Program) where
  -- The service is not registered yet, and what it depends on already is in order.
  pub record IsFresh (base : Object) : Type 0 where
    pub absent : ¬ In s (values p.services)
    pub independent : ¬ In name base.direct_deps
    pub distinct : Distinct base.direct_deps

  new-IsEntry :
      (a : IsAcceptable name req max_retries initial_backoff s deps p)
      → IsFresh a.base
      → IsEntry (added name req max_retries initial_backoff s deps p a.base).objects (name, s)
  new-IsEntry a f = record {
    object = configured name req max_retries initial_backoff s deps a.base;
    stored = update_self p.objects s _;
    named = refl;
    others = λ m. elim (in-append_cases name a.base.direct_deps deps m) [
      | inl l ↦ f.independent l
      | inr r ↦ a.others r
    ];
    once = Distinct-concat a.base.direct_deps deps f.distinct a.once a.unknown;
  }

  -- AddServiceWithBackoff of a service that is not registered yet keeps the registry valid.
  pub add-IsRegistry :
      (a : IsAcceptable name req max_retries initial_backoff s deps p)
      → IsFresh a.base
      → IsRegistry p
      → IsRegistry (add_service_with_backoff name req max_retries initial_backoff s deps p).1
  add-IsRegistry a f v =
      let absent = lookup-eq-none name p.services a.free in
      rw (add-eq name req max_retries initial_backoff s deps p a) (
        rw (insert-new name s p.services absent) (record {
          entries =
              All-append (IsEntry (update p.objects s _)) p.services ((name, s) ∷ [])
                (entries-update p.objects s _ p.services f.absent v.entries) (new-IsEntry a f, tt);
          names =
              rw (keys-append p.services ((name, s) ∷ []))
                (Distinct-add (keys p.services) name v.names absent);
          addresses =
              rw (values-append p.services ((name, s) ∷ []))
                (Distinct-add (values p.services) s v.addresses f.absent);
        }))
