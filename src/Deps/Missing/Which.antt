-- ===== src/Deps/Missing/Which.antt =====
-- maestro.go: which errors hasMissingDeps pushes.
use bandmaster.Base.{
  ℕ, ◌≡◌, refl, ◌↔◌, ap, sym, ◌∙◌, subst, String, false, Option, none, some, List, [], ◌∷◌, In, inl,
  inr, ◌⊎◌, Bool, ◌+◌, ◌≤◌, length, Outcome, returned, in-append_cases, in-append_left,
  in-append_right, Option-cases,
}
use bandmaster.Base.Dict.{
  lookup, keys, keys-of_lookup, lookup-eq-none, in-lookup, in_cases, lookup-in, keys_of_in,
}
use bandmaster.Errors.{Err}
use bandmaster.ServiceBase.{Object}
use bandmaster.Registry.{Maestro, Program}
use bandmaster.Registry.Valid.{IsRegistry}
use bandmaster.Channel.{Chan}
use bandmaster.Deps.Defs.{missing_error, has_missing_deps}
use bandmaster.Deps.Graph.{Edge, IsClosed, registered}
use bandmaster.Deps.Missing.{
  error_for, errors_of, deps_of, missing_errors, is_some_missing, has_missing_deps-pushes,
}

-- Which errors these are.
pub record IsMissing (p : Program) (m : Maestro) (e : Err) : Type 0 where
  pub name : String
  pub address : ℕ
  pub object : Object
  pub dep : String
  pub listed : In (name, address) m
  pub stored : p.objects address ≡ some object
  pub needs : In dep object.direct_deps
  pub absent : ¬ In dep (keys p.services)
  pub is : e ≡ missing_error address dep

errors_of-in :
    (m : Maestro) (s : ℕ) (deps : List String) (e : Err)
    → In e (errors_of m s deps)
    → (d : String) × In d deps × (¬ In d (keys m)) × (e ≡ missing_error s d)
unfolding errors_of error_for
errors_of-in m s [] e i = absurd i
errors_of-in m s (d ∷ deps) e i =
    elim (in-append_cases e (error_for s d (lookup d m)) (errors_of m s deps) i) [
      | inl l ↦ let (new, is) = in_error_for s d (lookup d m) refl l in (d, inl refl, new, is)
      | inr r ↦ let (x, j, new, is) = errors_of-in m s deps e r in (x, inr j, new, is)
    ]
  where
    in_error_for :
        (t : ℕ) (x : String) (r : Option ℕ)
        → lookup x m ≡ r
        → In e (error_for t x r)
        → (¬ In x (keys m)) × (e ≡ missing_error t x)
    in_error_for t x none q (inl is) = (lookup-eq-none x m q, is)
    in_error_for t x none q (inr n) = absurd n
    in_error_for t x (some y) q l = absurd l

in-errors_of :
    (m : Maestro) (s : ℕ) (deps : List String) (d : String)
    → In d deps
    → ¬ In d (keys m)
    → In (missing_error s d) (errors_of m s deps)
unfolding errors_of error_for
in-errors_of m s [] d i new = absurd i
in-errors_of m s (x ∷ deps) d i new = elim i [
  | inr j ↦
      in-append_right (missing_error s d) (error_for s x (lookup x m)) _
        (in-errors_of m s deps d j new)
  | inl e ↦ elim (Option-cases (lookup x m)) [
    | inl q ↦ rw q (inl (ap (missing_error s) e))
    | inr (r, q) ↦ absurd (new (rw e (keys-of_lookup x m r q)))
  ]
]

missing_errors-in :
    (p : Program) (m : Maestro) (e : Err) → In e (missing_errors p m) → IsMissing p m e
unfolding missing_errors deps_of errors_of
missing_errors-in p [] e i = absurd i
missing_errors-in p ((name, s) ∷ m) e i =
    elim (in-append_cases e (errors_of p.services s (deps_of (p.objects s))) (missing_errors p m)
      i) [
        | inl l ↦ here (p.objects s) refl l
        | inr r ↦
            let h = missing_errors-in p m e r in
            record {
              name = h.name;
              address = h.address;
              object = h.object;
              dep = h.dep;
              listed = inr h.listed;
              stored = h.stored;
              needs = h.needs;
              absent = h.absent;
              is = h.is;
            }
      ]
  where
    here :
        (r : Option Object)
        → p.objects s ≡ r
        → In e (errors_of p.services s (deps_of r))
        → IsMissing p ((name, s) ∷ m) e
    here none q l = absurd l
    here (some o) q l =
        let (d, needs, new, is) = errors_of-in p.services s o.direct_deps e l in
        record {
          name = name;
          address = s;
          object = o;
          dep = d;
          listed = inl refl;
          stored = q;
          needs = needs;
          absent = new;
          is = is;
        }

in-missing_errors :
    (p : Program) (m : Maestro) (name d : String) (s : ℕ) (o : Object)
    → In (name, s) m
    → p.objects s ≡ some o
    → In d o.direct_deps
    → ¬ In d (keys p.services)
    → In (missing_error s d) (missing_errors p m)
unfolding missing_errors deps_of
in-missing_errors p [] name d s o i st n a = absurd i
in-missing_errors p ((k, r) ∷ m) name d s o (inl e) st n a =
    let same : s ≡ r = ap (λ x. x.1) e in
    in-append_left (missing_error s d) (errors_of p.services r (deps_of (p.objects r))) _
      (rw (← same, st) (in-errors_of p.services s o.direct_deps d n a))
in-missing_errors p ((k, r) ∷ m) name d s o (inr i) st n a =
    in-append_right (missing_error s d) (errors_of p.services r (deps_of (p.objects r))) _
      (in-missing_errors p m name d s o i st n a)

-- The errors that hasMissingDeps pushes are those of the registered services and their unregistered
-- dependencies, and no others.
pub in-missing_errors_iff :
    (p : Program) (e : Err) → In e (missing_errors p p.services) ↔ IsMissing p p.services e
in-missing_errors_iff p e = (
  missing_errors-in p p.services e,
  λ h. rw h.is (
      in-missing_errors p p.services h.name h.dep h.address h.object h.listed h.stored h.needs
        h.absent),
)

none_missing : (es : List Err) → is_some_missing es ≡ false → (e : Err) → ¬ In e es
unfolding is_some_missing
none_missing [] h e i = i
none_missing (x ∷ es) h e i = cc

missing-Edge :
    (p : Program) → IsRegistry p → (e : Err) (q : IsMissing p p.services e) → Edge p q.name q.dep
missing-Edge p v e q =
    let r = registered p q.name v (keys_of_in q.name p.services q.address q.listed) in
    let found : some r.address ≡ some q.address =
      sym r.found ∙ in-lookup q.name p.services q.address v.names q.listed in
    let same : r.address ≡ q.address = cc in
    let stored : some r.object ≡ some q.object = sym r.stored ∙ ap p.objects same ∙ q.stored in
    let object : r.object ≡ q.object = cc in
    record { from = r; needs = subst (λ o. In q.dep o.direct_deps) (sym object) q.needs }

-- hasMissingDeps finds nothing missing exactly if every dependency of a registered service is
-- registered.
pub is_some_missing_iff :
    (p : Program)
    → IsRegistry p
    → (is_some_missing (missing_errors p p.services) ≡ false) ↔ IsClosed p
unfolding is_some_missing
is_some_missing_iff p v = (
  λ h a b e. elim (in_cases b (keys p.services)) [
    | inl i ↦ i
    | inr new ↦ absurd (
        none_missing (missing_errors p p.services) h _ (
          in-missing_errors p p.services a b e.from.address e.from.object
            (lookup-in a p.services e.from.address e.from.found) e.from.stored e.needs new))
  ],
  λ closed. go closed (missing_errors p p.services) (λ e i. missing_errors-in p p.services e i),
)
  where
    go :
        IsClosed p
        → (es : List Err) → ((e : Err) → In e es → IsMissing p p.services e)
        → is_some_missing es ≡ false
    go closed [] h = refl
    go closed (x ∷ es) h =
        let q = h x (inl refl) in absurd (q.absent (closed q.name q.dep (missing-Edge p v x q)))

returned_iff : (a b : Bool) → (◌≡◌ {A = Outcome Err Bool} (returned a) (returned b)) ↔ (a ≡ b)
returned_iff a b = (λ e. cc, λ e. cc)

module _ (p : Program) (c : Chan) (valid : IsRegistry p) (unclosed : c.closed ≡ false)
    (room : length c.buffer + length (missing_errors p p.services) ≤ c.capacity) where
  -- Over a registry and an open `errC` with room for all the errors, hasMissingDeps returns false
  -- exactly if every dependency of a registered service is registered.
  pub has_missing_deps-decides : ((has_missing_deps p c).0 ≡ returned false) ↔ IsClosed p
  has_missing_deps-decides =
      let (there, back) = is_some_missing_iff p valid in
      rw (has_missing_deps-pushes p c valid unclosed room)
        (λ e. there ((returned_iff _ false).0 e), λ h. ap returned (back h))

  -- Over a registry and an open `errC` with room for all the errors, what stands in `errC` behind
  -- hasMissingDeps is what stood in it before, and an error for each registered service and each
  -- dependency of it that is not registered, and nothing else.
  pub in-has_missing_deps_iff :
      (e : Err) → In e (has_missing_deps p c).1.buffer ↔ (In e c.buffer ⊎ IsMissing p p.services e)
  in-has_missing_deps_iff e =
      let (there, back) = in-missing_errors_iff p e in
      rw (has_missing_deps-pushes p c valid unclosed room) (
        λ i. elim (in-append_cases e c.buffer (missing_errors p p.services) i) [
          | inl l ↦ inl l
          | inr r ↦ inr (there r)
        ],
        λ i. elim i [
          | inl l ↦ in-append_left e c.buffer (missing_errors p p.services) l
          | inr r ↦ in-append_right e c.buffer (missing_errors p p.services) (back r)
        ],
      )
