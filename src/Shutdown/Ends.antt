-- ===== src/Shutdown/Ends.antt =====
-- maestro.go: how long the goroutines of StopAll can go on.
use bandmaster.Base.{
  ℕ, ◌+◌, ◌*◌, ◌^◌, ◌<◌, ◌≤◌, ◌≡◌, refl, sym, ap, ◌∙◌, subst, ◌≢◌, inl, inr, String, [], ◌∷◌,
  length, arith,
}
use bandmaster.Base.Pigeonhole.{length-le_of_distinct}
use bandmaster.Base.Dict.{values}
use bandmaster.Base.Family.{update}
use bandmaster.Errors.{foreign}
use bandmaster.ServiceBase.{Object, retry_conf, stopped_channel}
use bandmaster.ServiceBase.Invariant.{IsValid}
use bandmaster.Registry.{Maestro}
use bandmaster.Retry.{increment, double}
use bandmaster.Goroutines.Ranks
use bandmaster.Goroutines.Ranks.{sum, sum_mono}
use bandmaster.Goroutines.Ledger.{done}
use bandmaster.Shutdown.Defs.{
  Pc, entry, scanning, receiving, calling, backing_off, failing, succeeding, reporting, finished,
  stop_failure_of, unavailable, System, after_call, Step, already, abort, go_on, skip, subscribe,
  parent_stopped, parent_failed, parents_stopped, call, timer, interrupt, fail, succeed, report,
  cancel, outside, Reach, here, next_step, stop_launch,
}
use bandmaster.Shutdown.Order.{Reach-Inv}
use bandmaster.Shutdown.Launch.{stop_launched_cases, stop_launch-AtEntry}
use bandmaster.Shutdown.Effects.{Knows, begins-Knows, Step-Winds, Reach-Winds}
use bandmaster.Shutdown.Reports.{stage_of, Books, Reach-Books}
use bandmaster.Shutdown.Returns.{stop_launch-Reach-Books}
use bandmaster.Shutdown.Waits.{Waits, Waiting-of}
use bandmaster.Shutdown.Waits.Steps.{Reach-Waits}
use bandmaster.Shutdown.Progress.{stop_launch-Waits}
use bandmaster.Shutdown.Ranks.{rank, rank-after_call, rank-increment}

module _ (services : Maestro) (ctx_err : String) where
  -- A step of a goroutine counts; the cancellation and a call from outside do not.
  abbrev pub counted : {s t : System} → Step services ctx_err s t → ℕ
  counted cancel = 0
  counted (outside j) = 0
  counted _ = 1

  -- The steps that the goroutines have taken.
  abbrev pub steps_taken : {s t : System} → Reach services ctx_err s t → ℕ
  steps_taken here = 0
  steps_taken (next_step r step) = counted step + steps_taken r

  -- Every goroutine visits the whole map.
  abbrev pub visited : Object → ℕ
  visited o = length services

  abbrev pub left : System → ℕ
  left s = Ranks.steps_left rank visited (values services) s.objects s.pcs

  module _ (s t : System) (step : Step services ctx_err s t) (inv : Knows services s)
      (books : Books services ctx_err s) where
    -- The goroutine `i` goes on from `old` to `pc`.
    lower :
        (i : ℕ) (old pc : Pc)
        → s.pcs i ≡ old
        → stage_of old ≢ done
        → rank (s.objects i).retries (length services) pc
          < rank (s.objects i).retries (length services) old
        → 1 + Ranks.steps_left rank visited (values services) t.objects (update s.pcs i pc) ≤ left s
    lower i old pc at runs less =
        let winds = Step-Winds services ctx_err s t step inv in
        let lt =
          Ranks.steps_left-less rank visited s.objects t.objects (λ k. refl) (λ k. (winds k).retry)
            (values services) s.pcs i pc (books.running i (λ e. runs (sym (ap stage_of at) ∙ e)))
            (subst
              (λ x.
                rank (s.objects i).retries (length services) pc
                < rank (s.objects i).retries (length services) x)
              (sym at) less) in
        omega (arith, lt)

  pub Step-left :
      (s t : System) (step : Step services ctx_err s t)
      → Knows services s
      → Books services ctx_err s
      → Waits services s.objects s.pcs
      → ((k : ℕ) → (s.objects k).retries < 2 ^ 64)
      → counted step + left t ≤ left s
  unfolding rank retry_conf
  Step-left s t (already i at on) inv books w small =
      lower s t (already i at on) inv books i entry finished at (λ e. cc) (omega arith)
  Step-left s t (abort i at c) inv books w small =
      lower s t (abort i at c) inv books i entry (reporting (stop_failure_of i ctx_err)) at
        (λ e. cc) (omega arith)
  Step-left s t (go_on i order at off c same once) inv books w small =
      let bound = length-le_of_distinct order services once (λ x m. (same x).0 m) in
      lower s t (go_on i order at off c same once) inv books i entry (scanning order) at (λ e. cc)
        (omega (arith, bound))
  Step-left s t (skip i j parent todo at other) inv books w small =
      lower s t (skip i j parent todo at other) inv books i (scanning ((parent, j) ∷ todo))
        (scanning todo) at (λ e. cc) (omega arith)
  Step-left s t (subscribe i j parent todo at needed) inv books w small =
      lower s t (subscribe i j parent todo at needed) inv books i (scanning ((parent, j) ∷ todo))
        (receiving parent j (stopped_channel (s.objects j)).0 todo) at (λ e. cc) (omega arith)
  Step-left s t (parent_stopped i j c parent todo ch at got) inv books w small =
      lower s t (parent_stopped i j c parent todo ch at got) inv books i (receiving parent j c todo)
        (scanning todo) at (λ e. cc) (omega arith)
  Step-left s t (parent_failed i j c parent todo e ch at got) inv books w small =
      lower s t (parent_failed i j c parent todo e ch at got) inv books i
        (receiving parent j c todo) (failing (unavailable i parent)) at (λ q. cc) (omega arith)
  Step-left s t (parents_stopped i at) inv books w small =
      lower s t (parents_stopped i at) inv books i (scanning [])
        (calling 1 (retry_conf (s.objects i)).1) at (λ e. cc) (omega arith)
  Step-left s t (call i attempts ib result at) inv books w small =
      lower s t (call i attempts ib result at) inv books i (calling attempts ib)
        (after_call i (retry_conf (s.objects i)).0 attempts ib result) at (λ e. cc)
        (rank-after_call (s.objects i).retries (length services) i attempts ib result)
  Step-left s t (timer i attempts ib at) inv books w small =
      lower s t (timer i attempts ib at) inv books i (backing_off attempts ib)
        (calling (increment attempts) (double ib)) at (λ e. cc)
        (rank-increment (s.objects i).retries (length services) attempts ib (double ib)
          (Waiting-of services s i (backing_off attempts ib) w at) (small i))
  Step-left s t (interrupt i attempts ib at c) inv books w small =
      lower s t (interrupt i attempts ib at c) inv books i (backing_off attempts ib)
        (reporting (foreign ctx_err)) at (λ e. cc) (omega arith)
  Step-left s t (fail i e r o at did) inv books w small =
      lower s t (fail i e r o at did) inv books i (failing e) (reporting e) at (λ q. cc)
        (omega arith)
  Step-left s t (succeed i r o at did) inv books w small =
      lower s t (succeed i r o at did) inv books i succeeding finished at (λ e. cc) (omega arith)
  Step-left s t (report i e c at sent) inv books w small =
      lower s t (report i e c at sent) inv books i (reporting e) finished at (λ q. cc) (omega arith)
  Step-left s t cancel inv books w small = omega arith
  Step-left s t (outside j) inv books w small =
      let winds = Step-Winds services ctx_err s t (outside j) inv in
      let h =
        Ranks.steps_left-same rank visited s.objects t.objects (λ k. refl) (λ k. (winds k).retry)
          (values services) s.pcs in
      omega (arith, h)

  -- From a state on, the goroutines take no more steps than they have left in it.
  Reach-left :
      (s t : System) (r : Reach services ctx_err s t)
      → Knows services s
      → Books services ctx_err s
      → Waits services s.objects s.pcs
      → ((u : System) → Reach services ctx_err s u → (k : ℕ) → (u.objects k).retries < 2 ^ 64)
      → steps_taken r + left t ≤ left s
  Reach-left s t here inv books w small = omega arith
  Reach-left s t (next_step {t = u} r step) inv books w small =
      let before = Reach-left s u r inv books w small in
      let last =
        Step-left u t step (Reach-Inv services ctx_err (λ _. Unit) s u r inv)
          (Reach-Books services ctx_err s u r inv books) (Reach-Waits services ctx_err s u r inv w)
          (small u r) in
      omega (arith, before, last)

-- The steps of a goroutine at most, by the retries of its service and the number of services.
abbrev pub most_stop_steps : Maestro → Object → ℕ
most_stop_steps m o = 5 + 2 * o.retries + 2 * length m

module _ (m : Maestro) (ctx_err : String) (objects : ℕ → Object)
    (sound : (i : ℕ) → IsValid (objects i)) (small : (i : ℕ) → (objects i).retries < 2 ^ 64) where
  launched-left :
      left m ctx_err (stop_launch m objects) ≤ sum (λ i. most_stop_steps m (objects i)) (values m)
  unfolding rank
  launched-left =
      sum_mono (λ i. most_stop_steps m (objects i)) _ (values m)
        (λ k. elim (stop_launched_cases m k) [
          | inl e ↦ rw e (omega arith)
          | inr (e, at) ↦ rw e (omega arith)
        ])

  -- Where StopAll runs over valid services whose numbers of retries fit in 64 bits: whatever the
  -- order of the steps, the results of the services' own Stop and the cancellation, its goroutines
  -- together take no more steps than, for each service of the map, five, twice its retries and
  -- twice the number of services.
  pub steps_taken-bounded :
      (t : System) (r : Reach m ctx_err (stop_launch m objects) t)
      → steps_taken m ctx_err r ≤ sum (λ i. most_stop_steps m (objects i)) (values m)
  steps_taken-bounded t r =
      let start = stop_launch m objects in
      let begins = stop_launch-AtEntry m objects in
      let all =
        Reach-left m ctx_err start t r (begins-Knows m ctx_err start start begins here)
          (stop_launch-Reach-Books m ctx_err objects start here) (stop_launch-Waits m objects sound)
          (λ u q k.
            subst (λ n. n < 2 ^ 64) (sym (Reach-Winds m ctx_err start u begins q k).retry)
              (small k)) in
      omega (arith, all, launched-left)
