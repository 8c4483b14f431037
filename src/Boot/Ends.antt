-- ===== src/Boot/Ends.antt =====
-- maestro.go: how long the goroutines of StartAll can go on.
use bandmaster.Base.{
  ap, ℕ, ◌+◌, ◌*◌, ◌^◌, ◌<◌, ◌≤◌, ◌≡◌, sym, ◌∙◌, subst, ◌≢◌, inl, inr, String, [], ◌∷◌, length,
  arith,
}
use bandmaster.Base.Pigeonhole.{length-le_of_distinct}
use bandmaster.Base.Dict.{values}
use bandmaster.Base.Family.{update}
use bandmaster.Errors.{foreign}
use bandmaster.ServiceBase.{Object, dependencies, retry_conf, started_channel}
use bandmaster.ServiceBase.Invariant.{IsValid}
use bandmaster.Registry.{Maestro, Program}
use bandmaster.Retry.{increment, double}
use bandmaster.Boot.Defs.{
  Pc, entry, waiting, receiving, calling, backing_off, failing, succeeding, reporting, finished,
  crashed, start_failure_of, unavailable, System, after_call, Step, already, abort, go_on,
  subscribe, nil_service, dependency_ready, dependency_failed, dependencies_ready, call, timer,
  interrupt, fail, succeed, report, cancel, outside, Reach, here, next_step,
}
use bandmaster.Goroutines.Ledger.{done}
use bandmaster.Boot.Knowledge.{Inv}
use bandmaster.Boot.Order.{Reach-Inv, fresh-Inv}
use bandmaster.Boot.Refinement.{Step-Effect, Reach-Grows}
use bandmaster.Boot.StartAll.{launch, launched, start_err_c, store_of}
use bandmaster.Boot.Reports.{stage_of, Books, Reach-Books}
use bandmaster.Boot.Returns.{IsOrderly, launch-IsFreshBoot, launch-Reach-Books, launched_cases}
use bandmaster.Boot.Waits.{Waits, Waiting-of}
use bandmaster.Boot.Waits.Steps.{Reach-Waits}
use bandmaster.Boot.Progress.{launch-Waits}
use bandmaster.Boot.Ranks.{rank, rank-after_call, rank-increment}
use bandmaster.Goroutines.Ranks
use bandmaster.Goroutines.Ranks.{sum, sum_mono}

-- How many dependencies a service has.
abbrev pub direct : Object → ℕ
direct o = length o.direct_deps

module _ (services : Maestro) (ctx_err : String) where
  -- A step of a goroutine counts; the cancellation and a call from outside do not.
  abbrev pub counted : {s t : System} → Step services ctx_err s t → ℕ
  counted cancel = 0
  counted (outside j) = 0
  counted _ = 1

  -- The steps that the goroutines have taken.
  abbrev pub steps_of : {s t : System} → Reach services ctx_err s t → ℕ
  steps_of here = 0
  steps_of (next_step r step) = counted step + steps_of r

  abbrev pub left : System → ℕ
  left s = Ranks.steps_left rank direct (values services) s.objects s.pcs

  module _ (s t : System) (step : Step services ctx_err s t) (inv : Inv services s.objects s.pcs)
      (books : Books services ctx_err s) where
    lower :
        (i : ℕ) (old pc : Pc)
        → s.pcs i ≡ old
        → stage_of old ≢ done
        → rank (s.objects i).retries (length (s.objects i).direct_deps) pc
          < rank (s.objects i).retries (length (s.objects i).direct_deps) old
        → Ranks.steps_left rank direct (values services) t.objects (update s.pcs i pc) < left s
    lower i old pc at runs less =
        let effect = Step-Effect services ctx_err s t step inv in
        Ranks.steps_left-less rank direct s.objects t.objects
          (λ k. ap (λ ds. length ds) (effect.grows k).deps) (λ k. (effect.grows k).retry)
          (values services) s.pcs i pc (books.running i (λ e. runs (sym (ap stage_of at) ∙ e)))
          (subst
            (λ x.
              rank (s.objects i).retries (length (s.objects i).direct_deps) pc
              < rank (s.objects i).retries (length (s.objects i).direct_deps) x)
            (sym at) less)

  pub Step-left :
      (s t : System) (step : Step services ctx_err s t)
      → Inv services s.objects s.pcs
      → Books services ctx_err s
      → Waits s.objects s.pcs
      → ((k : ℕ) → (s.objects k).retries < 2 ^ 64)
      → counted step + left t ≤ left s
  unfolding rank retry_conf dependencies
  Step-left s t (already i at on) inv books w small =
      let h = lower s t (already i at on) inv books i entry finished at (λ e. cc) (omega arith) in
      omega (arith, h)
  Step-left s t (abort i at c) inv books w small =
      let h =
        lower s t (abort i at c) inv books i entry (reporting (start_failure_of i ctx_err)) at
          (λ e. cc) (omega arith) in
      omega (arith, h)
  Step-left s t (go_on i order at off c same once) inv books w small =
      let bound =
        length-le_of_distinct order (dependencies (s.objects i)) once (λ x m. (same x).0 m) in
      let h =
        lower s t (go_on i order at off c same once) inv books i entry (waiting order) at (λ e. cc)
          (omega (arith, bound)) in
      omega (arith, h)
  Step-left s t (subscribe i j d todo at found) inv books w small =
      let h =
        lower s t (subscribe i j d todo at found) inv books i (waiting (d ∷ todo))
          (receiving d j (started_channel (s.objects j)).0 todo) at (λ e. cc) (omega arith) in
      omega (arith, h)
  Step-left s t (nil_service i d todo at found) inv books w small =
      let h =
        lower s t (nil_service i d todo at found) inv books i (waiting (d ∷ todo)) crashed at
          (λ e. cc) (omega arith) in
      omega (arith, h)
  Step-left s t (dependency_ready i j c d todo ch at got) inv books w small =
      let h =
        lower s t (dependency_ready i j c d todo ch at got) inv books i (receiving d j c todo)
          (waiting todo) at (λ e. cc) (omega arith) in
      omega (arith, h)
  Step-left s t (dependency_failed i j c d todo e ch at got) inv books w small =
      let h =
        lower s t (dependency_failed i j c d todo e ch at got) inv books i (receiving d j c todo)
          (failing (unavailable i d)) at (λ q. cc) (omega arith) in
      omega (arith, h)
  Step-left s t (dependencies_ready i at) inv books w small =
      let h =
        lower s t (dependencies_ready i at) inv books i (waiting [])
          (calling 1 (retry_conf (s.objects i)).1) at (λ e. cc) (omega arith) in
      omega (arith, h)
  Step-left s t (call i attempts ib result at) inv books w small =
      let h =
        lower s t (call i attempts ib result at) inv books i (calling attempts ib)
          (after_call i (retry_conf (s.objects i)).0 attempts ib result) at (λ e. cc)
          (rank-after_call (s.objects i).retries (length (s.objects i).direct_deps) i attempts ib
            result) in
      omega (arith, h)
  Step-left s t (timer i attempts ib at) inv books w small =
      let h =
        lower s t (timer i attempts ib at) inv books i (backing_off attempts ib)
          (calling (increment attempts) (double ib)) at (λ e. cc)
          (rank-increment (s.objects i).retries (length (s.objects i).direct_deps) attempts ib
            (double ib) (Waiting-of services ctx_err s i (backing_off attempts ib) w at)
            (small i)) in
      omega (arith, h)
  Step-left s t (interrupt i attempts ib at c) inv books w small =
      let h =
        lower s t (interrupt i attempts ib at c) inv books i (backing_off attempts ib)
          (reporting (foreign ctx_err)) at (λ e. cc) (omega arith) in
      omega (arith, h)
  Step-left s t (fail i e r o at did) inv books w small =
      let h =
        lower s t (fail i e r o at did) inv books i (failing e) (reporting e) at (λ q. cc)
          (omega arith) in
      omega (arith, h)
  Step-left s t (succeed i r o at did) inv books w small =
      let h =
        lower s t (succeed i r o at did) inv books i succeeding finished at (λ e. cc)
          (omega arith) in
      omega (arith, h)
  Step-left s t (report i e c at sent) inv books w small =
      let h =
        lower s t (report i e c at sent) inv books i (reporting e) finished at (λ q. cc)
          (omega arith) in
      omega (arith, h)
  Step-left s t cancel inv books w small = omega arith
  Step-left s t (outside j) inv books w small =
      let effect = Step-Effect services ctx_err s t (outside j) inv in
      let h =
        Ranks.steps_left-same rank direct s.objects t.objects
          (λ k. ap (λ ds. length ds) (effect.grows k).deps) (λ k. (effect.grows k).retry)
          (values services) s.pcs in
      omega (arith, h)

  -- From a state on, the goroutines take no more steps than they have left in it.
  pub Reach-left :
      (s t : System) (r : Reach services ctx_err s t)
      → Inv services s.objects s.pcs
      → Books services ctx_err s
      → Waits s.objects s.pcs
      → ((u : System) → Reach services ctx_err s u → (k : ℕ) → (u.objects k).retries < 2 ^ 64)
      → steps_of r + left t ≤ left s
  Reach-left s t here inv books w small = omega arith
  Reach-left s t (next_step {t = u} r step) inv books w small =
      let before = Reach-left s u r inv books w small in
      let last =
        Step-left u t step (Reach-Inv services ctx_err s u r inv)
          (Reach-Books services ctx_err s u r inv books) (Reach-Waits services ctx_err s u r inv w)
          (small u r) in
      omega (arith, before, last)

-- The steps of a goroutine at most, by the retries and the dependencies of its service.
abbrev pub most_steps : Object → ℕ
most_steps o = 5 + 2 * o.retries + 2 * length (dependencies o)

module _ (p : Program) (ctx_err : String) (orderly : IsOrderly p)
    (sound : (i : ℕ) → IsValid (store_of p i))
    (small : (i : ℕ) → (store_of p i).retries < 2 ^ 64) where
  launched-left :
      Ranks.steps_left rank direct (values p.services) (store_of p) (launched p.services)
      ≤ sum (λ i. most_steps (store_of p i)) (values p.services)
  unfolding rank dependencies
  launched-left =
      sum_mono (λ i. most_steps (store_of p i)) _ (values p.services)
        (λ k. elim (launched_cases p.services k) [
          | inl e ↦ rw e (omega arith)
          | inr (e, m) ↦ rw e (omega arith)
        ])

  -- Where StartAll boots valid services, of which those that are started have their dependencies
  -- started, and whose numbers of retries fit in 64 bits: whatever the order of the steps, the
  -- results of the services' own Start and the cancellation, its goroutines together take no more
  -- steps than five and twice the retries and the dependencies for each service of the map.
  pub steps_of-bounded :
      (t : System) (r : Reach p.services ctx_err (launch p (start_err_c p)) t)
      → steps_of p.services ctx_err r ≤ sum (λ i. most_steps (store_of p i)) (values p.services)
  steps_of-bounded t r =
      let fresh = launch-IsFreshBoot p ctx_err (start_err_c p) orderly in
      let inv = fresh-Inv p.services ctx_err _ fresh in
      let all =
        Reach-left p.services ctx_err (launch p (start_err_c p)) t r inv
          (launch-Reach-Books p ctx_err (launch p (start_err_c p)) orderly here)
          (launch-Waits p sound)
          (λ u q k.
            subst (λ n. n < 2 ^ 64) (sym (Reach-Grows p.services ctx_err _ u fresh q k).retry)
              (small k)) in
      omega (arith, all, launched-left)
