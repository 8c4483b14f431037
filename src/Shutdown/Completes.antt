-- ===== src/Shutdown/Completes.antt =====
-- maestro.go: a shutdown that runs to its end.
use bandmaster.Base.{
  true, ◌⊎◌, ℕ, zero, suc, ◌+◌, ◌^◌, ◌<◌, ◌≤◌, ◌≡◌, refl, sym, subst, inl, inr, String, true, [],
  In, arith,
}
use bandmaster.Base.Dict.{values}
use bandmaster.Channel.{Chan}
use bandmaster.ServiceBase.{Object}
use bandmaster.ServiceBase.Invariant.{IsValid}
use bandmaster.ServiceBase.Flow.{close-unclosed}
use bandmaster.Registry.{Program}
use bandmaster.Registry.Valid.{IsRegistry}
use bandmaster.Deps.Graph.{IsCircle}
use bandmaster.Boot.StartAll.{store_of}
use bandmaster.Shutdown.Defs.{System, Reach, here, next_step, stop_launch}
use bandmaster.Shutdown.Launch.{stop_launched_cases, stop_launch-AtEntry}
use bandmaster.Shutdown.Effects.{begins-Knows, Reach-Winds}
use bandmaster.Shutdown.StopAll.{StopAll, wound_down}
use bandmaster.Shutdown.Returns.{stop_launch-Reach-Books}
use bandmaster.Shutdown.Moves.{IsDown}
use bandmaster.Shutdown.Progress.{Waits-of, entries-Distinct, all-IsDown}
use bandmaster.Shutdown.Ends.{left, Step-left}
use bandmaster.Shutdown.Smooth.{IsSmooth, SmoothStep, smooth_cases}

module _ (p : Program) (ctx_err : String) (valid : IsRegistry p)
    (sound : (i : ℕ) → IsValid (store_of p i)) (no_circle : (a : String) → ¬ IsCircle p a)
    (small : (i : ℕ) → (store_of p i).retries < 2 ^ 64) where
  abbrev begin : System
  begin = stop_launch p.services (store_of p)

  -- Every service is stopped, and nothing went wrong.
  record IsComplete (u : System) : Type 0 where
    reached : Reach p.services ctx_err begin u
    well : IsSmooth u
    down : (i : ℕ) → In i (values p.services) → IsDown u i

  step-left :
      (t : System) (r : Reach p.services ctx_err begin t) (s : SmoothStep p.services ctx_err t)
      → 1 + left p.services ctx_err s.behind ≤ left p.services ctx_err t
  step-left t r s =
      let begins = stop_launch-AtEntry p.services (store_of p) in
      let less =
        Step-left p.services ctx_err t s.behind s.step
          (begins-Knows p.services ctx_err begin t begins r)
          (stop_launch-Reach-Books p.services ctx_err (store_of p) t r)
          (Waits-of p ctx_err valid sound t r)
          (λ k.
            subst (λ n. n < 2 ^ 64) (sym (Reach-Winds p.services ctx_err begin t begins r k).retry)
              (small k)) in
      subst (λ n. n + left p.services ctx_err s.behind ≤ left p.services ctx_err t) s.counts less

  -- A state in which all is well is complete, or there is a step that leaves all well.
  ends_or_steps :
      (t : System)
      → Reach p.services ctx_err begin t
      → IsSmooth t
      → IsComplete t ⊎ SmoothStep p.services ctx_err t
  ends_or_steps t r well =
      elim (all-IsDown p ctx_err valid sound no_circle t r (SmoothStep p.services ctx_err t)
        (λ i listed.
          smooth_cases p.services ctx_err t well i (Waits-of p ctx_err valid sound t r)
            (stop_launch-Reach-Books p.services ctx_err (store_of p) t r) listed
            (entries-Distinct p valid))
        p.services (λ i m. m)) [
          | inl down ↦ inl (record { reached = r; well = well; down = down })
          | inr s ↦ inr s
        ]

  run_on :
      (n : ℕ) (t : System)
      → Reach p.services ctx_err begin t
      → IsSmooth t
      → left p.services ctx_err t ≤ n
      → (u : System) × IsComplete u
  run_on zero t r well bound = elim (ends_or_steps t r well) [
    | inl done ↦ (t, done)
    | inr s ↦ let less = step-left t r s in absurd (omega (arith, less, bound))
  ]
  run_on (suc n) t r well bound = elim (ends_or_steps t r well) [
    | inl done ↦ (t, done)
    | inr s ↦
        let less = step-left t r s in
        run_on n s.behind (next_step r s.step) s.well (omega (arith, less, bound))
  ]

  begin-IsSmooth : IsSmooth begin
  begin-IsSmooth = record {
    uncancelled = refl;
    quiet = refl;
    smooth =
        λ i. elim (stop_launched_cases p.services i) [ inl e ↦ rw e tt | inr (e, at) ↦ rw e tt ];
  }

  -- Over a registry of valid services without a circle of dependencies, whose numbers of retries fit
  -- in 64 bits, StopAll can return with every service of the map stopped and no error in `errC`,
  -- which is closed.
  pub StopAll-can_return :
      (objects : ℕ → Object) × (d : Chan) × StopAll p.services ctx_err (store_of p) objects d
      × ((i : ℕ) → In i (values p.services) → (objects i).stopped ≡ true)
      × (d.buffer ≡ [])
      × (d.closed ≡ true)
  StopAll-can_return =
      let (u, done) =
        run_on (left p.services ctx_err begin) begin here begin-IsSmooth (omega arith) in
      let books = stop_launch-Reach-Books p.services ctx_err (store_of p) u done.reached in
      (
        u.objects,
        record u.err_c { closed = true },
        wound_down u _ done.reached (λ i m. (done.down i m).0)
            (close-unclosed u.err_c books.unclosed),
        λ i m. (done.down i m).1,
        done.well.quiet,
        refl,
      )
