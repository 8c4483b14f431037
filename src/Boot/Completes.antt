-- ===== src/Boot/Completes.antt =====
-- maestro.go: a boot that runs to its end.
use bandmaster.Base.{
  ◌⊎◌, ℕ, zero, suc, ◌+◌, ◌^◌, ◌<◌, ◌≤◌, ◌≡◌, refl, sym, subst, inl, inr, String, true, [], In,
  arith, length,
}
use bandmaster.Base.Dict.{values, in-values}
use bandmaster.Channel.{Chan}
use bandmaster.ServiceBase.{Object}
use bandmaster.ServiceBase.Invariant.{IsValid}
use bandmaster.ServiceBase.Flow.{close-unclosed}
use bandmaster.Registry.{Program}
use bandmaster.Registry.Valid.{IsRegistry}
use bandmaster.Boot.Defs.{System, Reach, here, next_step}
use bandmaster.Boot.StartAll.{StartAll, ran, launch, start_err_c, store_of}
use bandmaster.Boot.Checks.{IsBootable, length-missing_errors, start_checks-decides}
use bandmaster.Boot.Refinement.{Reach-Grows}
use bandmaster.Boot.Returns.{IsOrderly, launch-IsFreshBoot, launch-Reach-Books, launched_cases}
use bandmaster.Boot.Moves.{IsUp}
use bandmaster.Boot.Progress.{Inv-of, Waits-of, Edge-of, dependencies-Distinct, all-IsUp}
use bandmaster.Boot.Ends.{left, Step-left}
use bandmaster.Boot.Smooth.{IsSmooth, SmoothStep, smooth_cases}

module _ (p : Program) (ctx_err : String) (valid : IsRegistry p) (boots : IsBootable p)
    (orderly : IsOrderly p) (sound : (i : ℕ) → IsValid (store_of p i))
    (small : (i : ℕ) → (store_of p i).retries < 2 ^ 64) where
  abbrev begin : System
  begin = launch p (start_err_c p)

  -- Every service is started, and nothing went wrong.
  record IsComplete (u : System) : Type 0 where
    reached : Reach p.services ctx_err begin u
    well : IsSmooth u
    up : (i : ℕ) → In i (values p.services) → IsUp u i

  step-left :
      (t : System) (r : Reach p.services ctx_err begin t) (s : SmoothStep p.services ctx_err t)
      → 1 + left p.services ctx_err s.behind ≤ left p.services ctx_err t
  step-left t r s =
      let fresh = launch-IsFreshBoot p ctx_err (start_err_c p) orderly in
      let less =
        Step-left p.services ctx_err t s.behind s.step
          (Inv-of p ctx_err valid boots orderly sound t r)
          (launch-Reach-Books p ctx_err t orderly r)
          (Waits-of p ctx_err valid boots orderly sound t r)
          (λ k.
            subst (λ n. n < 2 ^ 64) (sym (Reach-Grows p.services ctx_err begin t fresh r k).retry)
              (small k)) in
      subst (λ n. n + left p.services ctx_err s.behind ≤ left p.services ctx_err t) s.counts less

  -- A state in which all is well is complete, or there is a step that leaves all well.
  ends_or_steps :
      (t : System)
      → Reach p.services ctx_err begin t
      → IsSmooth t
      → IsComplete t ⊎ SmoothStep p.services ctx_err t
  ends_or_steps t r well =
      elim (all-IsUp p ctx_err valid boots orderly sound t r (SmoothStep p.services ctx_err t)
        (λ i listed.
          let (name, entry) = in-values p.services i listed in
          smooth_cases p.services ctx_err t well i
            (Waits-of p ctx_err valid boots orderly sound t r)
            (launch-Reach-Books p ctx_err t orderly r) listed
            (dependencies-Distinct p ctx_err valid boots orderly sound t i r listed)
            (λ d asked.
              boots.closed name d
                (Edge-of p ctx_err valid boots orderly sound t name i d r entry asked)))
        p.services (λ i m. m)) [
          | inl up ↦ inl (record { reached = r; well = well; up = up })
          | inr s ↦ inr s
        ]

  run_on :
      (n : ℕ) (t : System)
      → Reach p.services ctx_err begin t
      → IsSmooth t
      → left p.services ctx_err t ≤ n
      → (u : System) × IsComplete u
  run_on zero t r well bound = elim (ends_or_steps t r well) [
    | inl done ↦ (t, done)
    | inr s ↦ let less = step-left t r s in absurd (omega (arith, less, bound))
  ]
  run_on (suc n) t r well bound = elim (ends_or_steps t r well) [
    | inl done ↦ (t, done)
    | inr s ↦
        let less = step-left t r s in
        run_on n s.behind (next_step r s.step) s.well (omega (arith, less, bound))
  ]

  begin-IsSmooth : IsSmooth begin
  begin-IsSmooth = record {
    uncancelled = refl;
    quiet = refl;
    smooth = λ i. elim (launched_cases p.services i) [ inl e ↦ rw e tt | inr (e, at) ↦ rw e tt ];
  }

  run_to_end : (u : System) × IsComplete u
  run_to_end = run_on (left p.services ctx_err begin) begin here begin-IsSmooth (omega arith)

module _ (p : Program) (fuel : ℕ) (ctx_err : String) (valid : IsRegistry p)
    (deep : length p.services < fuel) (boots : IsBootable p) (orderly : IsOrderly p)
    (sound : (i : ℕ) → IsValid (store_of p i))
    (small : (i : ℕ) → (store_of p i).retries < 2 ^ 64) where
  -- Over a registry whose dependencies are registered and without a circle, of valid services of
  -- which those that are started have their dependencies started, and whose numbers of retries fit
  -- in 64 bits, with a stack deeper than the number of services: StartAll can return with every
  -- service of the map started and no error in `errC`, which is closed.
  pub StartAll-can_return :
      (objects : ℕ → Object) × (d : Chan) × StartAll p fuel ctx_err objects d
      × ((i : ℕ) → In i (values p.services) → (objects i).started ≡ true)
      × (d.buffer ≡ [])
      × (d.closed ≡ true)
  StartAll-can_return =
      elim (start_checks-decides p fuel valid (length-missing_errors p valid boots) deep) [
        | inl (refusal, not) ↦ absurd (not boots)
        | inr (went_on, _) ↦
            let (u, done) = run_to_end p ctx_err valid boots orderly sound small in
            let books = launch-Reach-Books p ctx_err u orderly done.reached in
            (
              u.objects,
              record u.err_c { closed = true },
              ran (start_err_c p) _ u went_on done.reached (λ i m. (done.up i m).0)
                  (close-unclosed u.err_c books.unclosed),
              λ i m. (done.up i m).1,
              done.well.quiet,
              refl,
            )
      ]
