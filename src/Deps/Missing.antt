-- ===== src/Deps/Missing.antt =====
-- maestro.go: hasMissingDeps reports each dependency that is not registered.
pub mod Which
use bandmaster.Base.{
  ℕ, zero, suc, ◌+◌, ◌<◌, ◌≤◌, ◌≡◌, refl, ◌≢◌, ◌↔◌, ap, sym, ◌∙◌, subst, String, Bool, true, false,
  Option, none, some, List, [], ◌∷◌, ◌++◌, In, All, All-map, length, arith, length-append, Outcome,
  returned, blocked, ◌⊎◌, inl, inr, map, not, in-append_cases, in-append_left, in-append_right,
  Exec, pure, and_then, ◌>>=◌, ◌>>◌, Option-cases, Bool-cases, if◌then◌else◌, ◌||◌, if_ind,
}
use native.Mathlib.Decide.{dec_le}
use mathlib.Core.List.{append-nil, append_assoc}
use bandmaster.Base.Dict.{
  lookup, keys, keys-of_lookup, lookup-of_keys, lookup-eq-none, member, member_iff, in-lookup,
}
use bandmaster.Errors.{Err}
use bandmaster.Channel.{Chan, send}
use bandmaster.ServiceBase.{Object, dependencies}
use bandmaster.Registry.{Maestro, Program, service_base}
use bandmaster.Registry.Valid.{IsEntry, IsRegistry}
use bandmaster.Deps.Defs.{
  push, missing_error, check_dep, check_deps, check_service, check_services, has_missing_deps,
}
use bandmaster.Deps.Graph.{Edge, IsRegistered, IsClosed}

-- The error for the dependency `d` of `s`, if no service is registered under it.
unfoldable pub error_for : ℕ → String → Option ℕ → List Err
error_for s d none = missing_error s d ∷ []
error_for s d (some _) = []

unfoldable pub errors_of : Maestro → ℕ → List String → List Err
errors_of m s [] = []
errors_of m s (d ∷ deps) = error_for s d (lookup d m) ++ errors_of m s deps

unfoldable pub deps_of : Option Object → List String
deps_of none = []
deps_of (some o) = o.direct_deps

-- An error for each service and each of its dependencies that is not registered.
unfoldable pub missing_errors : Program → Maestro → List Err
missing_errors p [] = []
missing_errors p ((name, s) ∷ m) =
    errors_of p.services s (deps_of (p.objects s)) ++ missing_errors p m

unfoldable pub is_some_missing : List Err → Bool
is_some_missing [] = false
is_some_missing (e ∷ es) = true

abbrev pub with_errors : Chan → List Err → Chan
with_errors c es = record c { buffer = c.buffer ++ es }

-- What a piece of the loop does that pushes `es`, where `errC` has room for them, and where not.
record Pushes (es : List Err) (m : Bool → Exec Err Chan Bool) : Type 0 where
  fits :
      (failure : Bool) (c : Chan)
      → c.closed ≡ false
      → length c.buffer + length es ≤ c.capacity
      → m failure c ≡ (returned (failure || is_some_missing es), with_errors c es)
  overflows :
      (failure : Bool) (c : Chan)
      → c.closed ≡ false
      → length c.buffer ≤ c.capacity
      → c.capacity < length c.buffer + length es
      → (m failure c).0 ≡ blocked

no_errors : (c : Chan) → with_errors c [] ≡ c
no_errors c = ap (λ b. record c { buffer = b }) (append-nil c.buffer)

pure-Pushes : Pushes [] pure
unfolding is_some_missing
pure-Pushes = record {
  fits = λ failure c o h.
      let same : (failure || false) ≡ failure = ground arith in rw (same, no_errors c);
  overflows = λ failure c o h f. absurd (omega arith);
}

push-Pushes : (e : Err) → Pushes (e ∷ []) (λ _. push e >> pure true)
unfolding push send is_some_missing
push-Pushes e = record {
  fits = λ failure c o h. ground arith;
  overflows = λ failure c o h f. ground arith;
}

some_missing-append :
    (b : Bool) (es es' : List Err)
    → ((b || is_some_missing es) || is_some_missing es') ≡ (b || is_some_missing (es ++ es'))
unfolding is_some_missing
some_missing-append true es es' = refl
some_missing-append false [] es' = refl
some_missing-append false (e ∷ es) es' = refl

module _ (es es' : List Err) (m k : Bool → Exec Err Chan Bool) (hm : Pushes es m)
    (hk : Pushes es' k) where
  seq_fits :
      (failure : Bool) (c : Chan)
      → c.closed ≡ false
      → length c.buffer + length (es ++ es') ≤ c.capacity
      → (m failure >>= k) c
        ≡ (returned (failure || is_some_missing (es ++ es')), with_errors c (es ++ es'))
  seq_fits failure c o h =
      let size = length-append es es' in
      let size' = length-append c.buffer es in
      rw (hm.fits failure c o (omega (arith, size))) (
        hk.fits (failure || is_some_missing es) (with_errors c es) o (omega (arith, size, size'))
        ∙ rw (some_missing-append failure es es', append_assoc))

  seq_overflows :
      (failure : Bool) (c : Chan)
      → c.closed ≡ false
      → length c.buffer ≤ c.capacity
      → c.capacity < length c.buffer + length (es ++ es')
      → ((m failure >>= k) c).0 ≡ blocked
  seq_overflows failure c o h f =
      let size = length-append es es' in
      let size' = length-append c.buffer es in
      elim (dec_le (length c.buffer + length es) c.capacity) [
        | yes fit ↦ rw (hm.fits failure c o fit) (
            hk.overflows (failure || is_some_missing es) (with_errors c es) o (omega (arith, size'))
              (omega (arith, size, size')))
        | no full ↦ blocked_first (m failure c) (hm.overflows failure c o h (omega arith))
      ]
    where
      blocked_first :
          (r : Outcome Err Bool × Chan) → r.0 ≡ blocked → (and_then r.0 k r.1).0 ≡ blocked
      blocked_first r e = rw e

  seq-Pushes : Pushes (es ++ es') (λ failure. m failure >>= k)
  seq-Pushes = record { fits = seq_fits; overflows = seq_overflows }

module _ (p : Program) where
  check_dep-Pushes :
      (s : ℕ) (d : String) (r : Option ℕ) → Pushes (error_for s d r) (check_dep p s d r)
  unfolding check_dep error_for
  check_dep-Pushes s d (some r) = pure-Pushes
  check_dep-Pushes s d none = push-Pushes (missing_error s d)

  check_deps-Pushes :
      (s : ℕ) (deps : List String) → Pushes (errors_of p.services s deps) (check_deps p s deps)
  unfolding check_deps errors_of
  check_deps-Pushes s [] = pure-Pushes
  check_deps-Pushes s (d ∷ deps) =
      seq-Pushes _ _ _ _ (check_dep-Pushes s d (lookup d p.services)) (check_deps-Pushes s deps)

  -- Every service of the map embeds a ServiceBase.
  abbrev pub AllBased : Maestro → Type 0
  AllBased m = All (λ e. (o : Object) × (p.objects e.1 ≡ some o)) m

  check_services-Pushes :
      (m : Maestro) → AllBased m → Pushes (missing_errors p m) (check_services p m)
  unfolding check_services missing_errors service_base check_service deps_of dependencies
  check_services-Pushes [] based = pure-Pushes
  check_services-Pushes ((name, s) ∷ m) based =
      seq-Pushes _ _ _ _ (rw based.0.1 (check_deps-Pushes s based.0.0.direct_deps))
        (check_services-Pushes m based.1)

  IsRegistry-based : IsRegistry p → AllBased p.services
  IsRegistry-based v =
      All-map (IsEntry p.objects) (λ e. (o : Object) × (p.objects e.1 ≡ some o)) p.services
        (λ e h. (h.object, h.stored)) v.entries

  -- Over a registry and an open `errC` with room for them, hasMissingDeps pushes an error for each
  -- service and each of its dependencies that is not registered, in the order of the loops, and
  -- returns whether there was one.
  pub has_missing_deps-pushes :
      (c : Chan)
      → IsRegistry p
      → c.closed ≡ false
      → length c.buffer + length (missing_errors p p.services) ≤ c.capacity
      → has_missing_deps p c ≡ (
        returned (is_some_missing (missing_errors p p.services)),
        with_errors c (missing_errors p p.services),
      )
  unfolding has_missing_deps
  has_missing_deps-pushes c v o h =
      (check_services-Pushes p.services (IsRegistry-based v)).fits false c o h

  -- Over a registry and an open `errC` with room for fewer errors than there are unregistered
  -- dependencies, each counted for each service, hasMissingDeps waits for ever on a send.
  pub has_missing_deps-blocks :
      (c : Chan)
      → IsRegistry p
      → c.closed ≡ false
      → length c.buffer ≤ c.capacity
      → c.capacity < length c.buffer + length (missing_errors p p.services)
      → (has_missing_deps p c).0 ≡ blocked
  unfolding has_missing_deps
  has_missing_deps-blocks c v o h f =
      (check_services-Pushes p.services (IsRegistry-based v)).overflows false c o h f
