-- ===== src/Boot/Checks.antt =====
-- maestro.go: what the checks of StartAll decide.
use bandmaster.Base.{
  ℕ, ◌<◌, ◌≤◌, ◌≡◌, refl, ◌≢◌, ◌⊎◌, inl, inr, subst, ◌∙◌, true, false, List, [], ◌∷◌, length, arith,
  returned, and_then, Bool-cases, String, In, ◌++◌,
}
use native.Mathlib.Decide.{dec_lt}
use bandmaster.Base.Dict.{keys}
use bandmaster.Channel.{Chan}
use bandmaster.Errors.{Err}
use bandmaster.Registry.{Program}
use bandmaster.Registry.Valid.{IsRegistry}
use bandmaster.Deps.{has_circular_deps, circular_from, stop_or}
use bandmaster.Deps.Graph.{IsClosed, IsCircle}
use bandmaster.Deps.Missing.{missing_errors, is_some_missing, with_errors, has_missing_deps-pushes}
use bandmaster.Deps.Missing.Which.{is_some_missing_iff}
use bandmaster.Deps.Decide.{has_circular_deps-decides, circle_registered}
use bandmaster.Deps.Circular.{Found}
use bandmaster.Boot.StartAll.{start_err_c, start_checks}

-- Every dependency is registered, and there is no circle among them.
pub record IsBootable (p : Program) : Type 0 where
  pub closed : IsClosed p
  pub no_circle : (a : String) → ¬ IsCircle p a

-- StartAll returns, with an error in `errC`, which is open still.
pub record IsRefused (p : Program) (fuel : ℕ) : Type 0 where
  pub err_c : Chan
  pub checked : start_checks p fuel (start_err_c p) ≡ (returned true, err_c)
  pub told : err_c.buffer ≢ []
  pub unclosed : err_c.closed ≡ false

some-ne-empty : (es : List Err) → is_some_missing es ≡ true → es ≢ []
unfolding is_some_missing
some-ne-empty [] h = cc
some-ne-empty (e ∷ es) h = λ q. cc

none-empty : (es : List Err) → is_some_missing es ≡ false → es ≡ []
unfolding is_some_missing
none-empty [] h = refl
none-empty (e ∷ es) h = cc

empty_of_length : {A : Type 0} (xs : List A) → ¬ 0 < length xs → xs ≡ []
empty_of_length [] h = refl
empty_of_length (x ∷ xs) h = absurd (h (omega arith))

append-ne-empty : {A : Type 0} (xs : List A) (x : A) → xs ++ x ∷ [] ≢ []
append-ne-empty [] x = λ e. cc
append-ne-empty (y ∷ xs) x = λ e. cc

module _ (p : Program) (fuel : ℕ) (valid : IsRegistry p)
    (room : length (missing_errors p p.services) ≤ length p.services)
    (deep : length p.services < fuel) where
  after_missing : start_checks p fuel (start_err_c p) ≡ (
      let es = missing_errors p p.services in
      and_then
        (returned (is_some_missing es))
        (λ missing. stop_or missing (has_circular_deps p fuel))
        (with_errors (start_err_c p) es))
  unfolding start_checks
  after_missing = rw (has_missing_deps-pushes p (start_err_c p) valid refl (omega (arith, room)))

  missing-IsRefused : is_some_missing (missing_errors p p.services) ≡ true → IsRefused p fuel
  missing-IsRefused some = record {
    err_c = with_errors (start_err_c p) (missing_errors p p.services);
    checked = rw (after_missing, some);
    told = some-ne-empty (missing_errors p p.services) some;
    unclosed = refl;
  }

  after_none_missing :
      is_some_missing (missing_errors p p.services) ≡ false
      → start_checks p fuel (start_err_c p) ≡ has_circular_deps p fuel (start_err_c p)
  after_none_missing none = rw (after_missing, none, none-empty (missing_errors p p.services) none)

  Found-IsRefused :
      is_some_missing (missing_errors p p.services) ≡ false
      → Found p (start_err_c p) (has_circular_deps p fuel (start_err_c p))
      → IsRefused p fuel
  Found-IsRefused none f = record {
    err_c = _;
    checked = after_none_missing none ∙ f.reported;
    told = append-ne-empty [] _;
    unclosed = refl;
  }

  no_services :
      p.services ≡ []
      → (has_circular_deps p fuel (start_err_c p) ≡ (returned false, start_err_c p))
        × ((a : String) → ¬ IsCircle p a)
  unfolding has_circular_deps circular_from
  no_services e = (
    rw e refl,
    λ a q.
        let at : In a (keys p.services) = circle_registered p a q in
        absurd (subst (λ m. In a (keys m)) e at),
  )

  circular_verdict :
      is_some_missing (missing_errors p p.services) ≡ false
      → IsClosed p
      → (IsRefused p fuel × ¬ IsBootable p)
        ⊎ ((start_checks p fuel (start_err_c p) ≡ (returned false, start_err_c p)) × IsBootable p)
  circular_verdict none closed = elim (dec_lt 0 (length p.services)) [
    | yes some ↦
        elim (has_circular_deps-decides p (start_err_c p) fuel valid closed (refl, some) deep) [
          | inl (f, (a, q)) ↦ inl (Found-IsRefused none f, λ b. b.no_circle a q)
          | inr (e, clear) ↦
              inr (after_none_missing none ∙ e, record { closed = closed; no_circle = clear })
        ]
    | no empty ↦
        let (e, clear) = no_services (empty_of_length p.services empty) in
        inr (after_none_missing none ∙ e, record { closed = closed; no_circle = clear })
  ]

  -- Over a registry with no more missing dependencies than services, and with a stack deeper than
  -- the number of services, the checks of StartAll end. Either some dependency is not registered or
  -- there is a circle, and StartAll returns with an error in `errC` before it starts anything; or
  -- neither is the case, and it goes on with `errC` empty.
  pub start_checks-decides :
      (IsRefused p fuel × ¬ IsBootable p)
      ⊎ ((start_checks p fuel (start_err_c p) ≡ (returned false, start_err_c p)) × IsBootable p)
  start_checks-decides =
      let (there, back) = is_some_missing_iff p valid in
      elim (Bool-cases (is_some_missing (missing_errors p p.services))) [
        | inl some ↦ inl (missing-IsRefused some, λ b. let none = back b.closed in cc)
        | inr none ↦ circular_verdict none (there none)
      ]

-- A registry that boots has no missing dependency to report.
pub length-missing_errors :
    (p : Program)
    → IsRegistry p
    → IsBootable p
    → length (missing_errors p p.services) ≤ length p.services
length-missing_errors p valid boots =
    let none = (is_some_missing_iff p valid).1 boots.closed in
    rw (none-empty (missing_errors p p.services) none) (omega arith)
