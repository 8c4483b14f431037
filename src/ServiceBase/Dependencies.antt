-- ===== src/ServiceBase/Dependencies.antt =====
-- service.go: which dependencies `addDependency` accepts.
use bandmaster.Base.{
  ◌≡◌, refl, if_ind, sym, ap, ◌∙◌, ◌⊎◌, ◌≢◌, ◌↔◌, String, false, List, [], ◌∷◌, ◌++◌, arith, All,
  All-map, All-map₂, In, Distinct, in-append_cases, in-append_right, in-append_left, Outcome,
  returned, panicked, blocked, inl, inr, ◌==◌, eq_iff, Bool-cases, eq_false,
}
use mathlib.Core.List.{append-nil, append_assoc}
use bandmaster.Base.Dict.{member, member_iff}
use bandmaster.Errors.{Err}
use bandmaster.ServiceBase.Defs.{Object, add_one, add_dependency}

-- The names are new, given once, and not the service's own.
pub record IsAddable (o : Object) (deps : List String) : Type 0 where
  pub others : ¬ In o.name deps
  pub once : Distinct deps
  pub unknown : All (λ d. ¬ In d o.direct_deps) deps

abbrev pub with_deps : Object → List String → Object
with_deps o deps = record o { base = record o.base { direct_deps = deps } }

not_member : (k : String) (js : List String) → ¬ In k js → member k js ≡ false
not_member k js h = elim (Bool-cases (member k js)) [
  | inl e ↦ absurd (h ((member_iff k js).0 e))
  | inr e ↦ e
]

add_one-eq :
    (d : String) (o : Object)
    → d ≢ o.name
    → ¬ In d o.direct_deps
    → add_one d o ≡ (returned tt, with_deps o (o.direct_deps ++ d ∷ []))
unfolding add_one
add_one-eq d o other new = rw (eq_false d o.name other, not_member d o.direct_deps new)

add_one_returns :
    (d : String) (o : Object)
    → (add_one d o).0 ≡ returned tt
    → (d ≢ o.name) × (¬ In d o.direct_deps)
unfolding add_one
add_one_returns d o h = (
  λ e. ground (arith, eq_iff d o.name),
  λ m. ground (arith, eq_iff d o.name, member_iff d o.direct_deps),
)

not_in_snoc : (x d : String) (js : List String) → ¬ In x js → d ≢ x → ¬ In x (js ++ d ∷ [])
not_in_snoc x d js h ne m = elim (in-append_cases x js (d ∷ []) m) [
  | inl l ↦ h l
  | inr (inl e) ↦ ne (sym e)
  | inr (inr n) ↦ n
]

-- After the first of the names the others are still addable.
IsAddable-tail :
    (d : String) (deps : List String) (o : Object)
    → IsAddable o (d ∷ deps)
    → IsAddable (with_deps o (o.direct_deps ++ d ∷ [])) deps
IsAddable-tail d deps o a = record {
  others = λ m. a.others (inr m);
  once = a.once.1;
  unknown =
      All-map₂ (λ y. d ≢ y) (λ y. ¬ In y o.direct_deps) (λ y. ¬ In y (o.direct_deps ++ d ∷ [])) deps
        (λ y ne h. not_in_snoc y d o.direct_deps h ne) a.once.0 a.unknown.1;
}

-- `addDependency` accepts such names, and appends them to the ones it had.
pub add_dependency-eq :
    (deps : List String) (o : Object)
    → IsAddable o deps
    → add_dependency deps o ≡ (returned tt, with_deps o (o.direct_deps ++ deps))
unfolding add_dependency
add_dependency-eq [] o a = rw append-nil
add_dependency-eq (d ∷ deps) o a = rw (add_one-eq d o (λ e. a.others (inl (sym e))) a.unknown.0) (
    add_dependency-eq deps _ (IsAddable-tail d deps o a)
    ∙ ap (λ l. (returned tt, with_deps o l)) (append_assoc o.direct_deps (d ∷ []) deps))

add_one-cases :
    (d : String) (o : Object)
    → (add_one d o ≡ (returned tt, with_deps o (o.direct_deps ++ d ∷ [])))
      ⊎ ((x : Err) × (add_one d o ≡ (panicked x, o)))
unfolding add_one
add_one-cases d o =
    if_ind P (d == o.name) (λ _. inr (_, refl))
      (λ _. if_ind P (member d o.direct_deps) (λ _. inr (_, refl)) (λ _. inl refl))
  where
    P : Outcome Err (Unit {0}) × Object → Type 0
    P r =
        (r ≡ (returned tt, with_deps o (o.direct_deps ++ d ∷ [])))
        ⊎ ((x : Err) × (r ≡ (panicked x, o)))

IsAddable-cons :
    (d : String) (deps : List String) (o : Object)
    → d ≢ o.name
    → ¬ In d o.direct_deps
    → IsAddable (with_deps o (o.direct_deps ++ d ∷ [])) deps
    → IsAddable o (d ∷ deps)
IsAddable-cons d deps o other new a = record {
  others = λ m. elim m [ inl e ↦ other (sym e) | inr m' ↦ a.others m' ];
  once = (
    All-map (λ y. ¬ In y (o.direct_deps ++ d ∷ [])) (λ y. d ≢ y) deps
        (λ y h e. h (in-append_right y o.direct_deps (d ∷ []) (inl (sym e)))) a.unknown,
    a.once,
  );
  unknown = (
    new,
    All-map (λ y. ¬ In y (o.direct_deps ++ d ∷ [])) (λ y. ¬ In y o.direct_deps) deps
        (λ y h m. h (in-append_left y o.direct_deps (d ∷ []) m)) a.unknown,
  );
}

add_dependency_returns :
    (deps : List String) (o : Object) → (add_dependency deps o).0 ≡ returned tt → IsAddable o deps
unfolding add_dependency
add_dependency_returns [] o h = record { others = λ m. m; once = tt; unknown = tt }
add_dependency_returns (d ∷ deps) o h = elim (add_one-cases d o) [
  | inl e ↦
      let (other, new) = add_one_returns d o (ap (λ r. r.0) e) in
      IsAddable-cons d deps o other new (add_dependency_returns deps _ (rw e at h))
  | inr (x, e) ↦ let other : panicked x ≡ returned tt = rw e at h in cc
]

-- `addDependency` returns, and does not panic, exactly for names that are all new, given once and
-- not the service's own.
pub add_dependency-returns_iff :
    (deps : List String) (o : Object) → ((add_dependency deps o).0 ≡ returned tt) ↔ IsAddable o deps
add_dependency-returns_iff deps o =
    (add_dependency_returns deps o, λ a. ap (λ r. r.0) (add_dependency-eq deps o a))

-- It never blocks.
add_dependency-ne-blocked : (deps : List String) (o : Object) → (add_dependency deps o).0 ≢ blocked
unfolding add_dependency
add_dependency-ne-blocked [] o = λ e. cc
add_dependency-ne-blocked (d ∷ deps) o = elim (add_one-cases d o) [
  | inl e ↦ rw e (add_dependency-ne-blocked deps _)
  | inr (x, e) ↦ rw e (λ q. cc)
]
