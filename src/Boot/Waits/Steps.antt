-- ===== src/Boot/Waits/Steps.antt =====
-- maestro.go: the steps of StartAll's goroutines, and those that wait.
use bandmaster.Base.{ℕ, sym, subst, inr, String, List, ◌∷◌, In}
use bandmaster.Base.Family.{update, update_self}
use bandmaster.ServiceBase.{started_channel, dependencies}
use bandmaster.Registry.{Maestro}
use bandmaster.Boot.Defs.{
  Pc, waiting, receiving, System, after_call, Step, already, abort, go_on, subscribe, nil_service,
  dependency_ready, dependency_failed, dependencies_ready, call, timer, interrupt, fail, succeed,
  report, cancel, outside, Reach, here, next_step,
}
use bandmaster.Boot.Knowledge.{Inv}
use bandmaster.Boot.Order.{Reach-Inv}
use bandmaster.Boot.Refinement.{Step-Effect}
use bandmaster.Boot.Serving.{Awaited, started_channel-Awaited}
use bandmaster.Boot.Waits.{
  Waits, Waiting, Step-AllServe, still-Waits, turn-Waits, Waiting-of, Waiting-after_call,
}

module _ (services : Maestro) (ctx_err : String) where
  module _ (s t : System) (step : Step services ctx_err s t) (inv : Inv services s.objects s.pcs)
      (w : Waits s.objects s.pcs) where
    turned : (i : ℕ) (pc : Pc) → Waiting t.objects i pc → Waits t.objects (update s.pcs i pc)
    turned i pc h =
        turn-Waits s.objects t.objects (Step-AllServe services ctx_err s t step inv w.valid)
          (λ k. ((Step-Effect services ctx_err s t step inv).grows k).deps)
          (λ k. ((Step-Effect services ctx_err s t step inv).grows k).retry) s.pcs w i pc h

    stayed : Waits t.objects s.pcs
    stayed =
        still-Waits s.objects t.objects (Step-AllServe services ctx_err s t step inv w.valid)
          (λ k. ((Step-Effect services ctx_err s t step inv).grows k).deps)
          (λ k. ((Step-Effect services ctx_err s t step inv).grows k).retry) s.pcs w

    -- The service of `i` keeps its dependencies.
    kept_deps :
        (i : ℕ) (todo : List String)
        → ((x : String) → In x todo → In x (dependencies (s.objects i)))
        → (x : String) → In x todo
        → In x (dependencies (t.objects i))
    unfolding dependencies
    kept_deps i todo h x m =
        subst (λ ds. In x ds) (sym ((Step-Effect services ctx_err s t step inv).grows i).deps)
          (h x m)

  pub Step-Waits :
      (s t : System)
      → Step services ctx_err s t
      → Inv services s.objects s.pcs
      → Waits s.objects s.pcs
      → Waits t.objects t.pcs
  unfolding after_call
  Step-Waits s t (already i at on) inv w = turned s t (already i at on) inv w i _ tt
  Step-Waits s t (abort i at c) inv w = turned s t (abort i at c) inv w i _ tt
  Step-Waits s t (go_on i order at off c same once) inv w =
      turned s t (go_on i order at off c same once) inv w i (waiting order)
        (kept_deps s t (go_on i order at off c same once) inv w i order (λ x m. (same x).0 m))
  Step-Waits s t (subscribe i j d todo at found) inv w =
      turned s t (subscribe i j d todo at found) inv w i _ (
        kept_deps s t (subscribe i j d todo at found) inv w i (d ∷ todo)
            (Waiting-of services ctx_err s i (waiting (d ∷ todo)) w at),
        subst (λ o. Awaited o (started_channel (s.objects j)).0)
            (sym (update_self s.objects j (started_channel (s.objects j)).1))
            (started_channel-Awaited (s.objects j)),
      )
  Step-Waits s t (nil_service i d todo at found) inv w =
      turned s t (nil_service i d todo at found) inv w i _ tt
  Step-Waits s t (dependency_ready i j c d todo ch at got) inv w =
      let h = Waiting-of services ctx_err s i (receiving d j c todo) w at in
      turned s t (dependency_ready i j c d todo ch at got) inv w i (waiting todo) (
        kept_deps s t (dependency_ready i j c d todo ch at got) inv w i todo (λ x m. h.0 x (inr m)))
  Step-Waits s t (dependency_failed i j c d todo e ch at got) inv w =
      turned s t (dependency_failed i j c d todo e ch at got) inv w i _ tt
  Step-Waits s t (dependencies_ready i at) inv w = turned s t (dependencies_ready i at) inv w i _ tt
  Step-Waits s t (call i attempts ib result at) inv w =
      turned s t (call i attempts ib result at) inv w i _
        (Waiting-after_call s.objects i attempts ib result)
  Step-Waits s t (timer i attempts ib at) inv w = turned s t (timer i attempts ib at) inv w i _ tt
  Step-Waits s t (interrupt i attempts ib at c) inv w =
      turned s t (interrupt i attempts ib at c) inv w i _ tt
  Step-Waits s t (fail i e r o at did) inv w = turned s t (fail i e r o at did) inv w i _ tt
  Step-Waits s t (succeed i r o at did) inv w = turned s t (succeed i r o at did) inv w i _ tt
  Step-Waits s t (report i e c at sent) inv w = turned s t (report i e c at sent) inv w i _ tt
  Step-Waits s t cancel inv w = w
  Step-Waits s t (outside j) inv w = stayed s t (outside j) inv w

  pub Reach-Waits :
      (s t : System)
      → Reach services ctx_err s t
      → Inv services s.objects s.pcs
      → Waits s.objects s.pcs
      → Waits t.objects t.pcs
  Reach-Waits s t here inv w = w
  Reach-Waits s t (next_step {t = u} r step) inv w =
      Step-Waits u t step (Reach-Inv services ctx_err s u r inv) (Reach-Waits s u r inv w)
