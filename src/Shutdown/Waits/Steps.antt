-- ===== src/Shutdown/Waits/Steps.antt =====
-- maestro.go: the steps of StopAll's goroutines, and those that wait.
use bandmaster.Base.{ℕ, ◌≡◌, sym, subst, true, inr, String, ◌∷◌, ◌∙◌}
use bandmaster.Base.Family.{update, update_self}
use bandmaster.ServiceBase.{stopped_channel}
use bandmaster.Registry.{Maestro}
use bandmaster.Shutdown.Defs.{
  Pc, scanning, receiving, System, after_call, needs, Step, already, abort, go_on, skip, subscribe,
  parent_stopped, parent_failed, parents_stopped, call, timer, interrupt, fail, succeed, report,
  cancel, outside, Reach, here, next_step,
}
use bandmaster.Shutdown.Knowledge.{needs-winds}
use bandmaster.Shutdown.Order.{Reach-Inv}
use bandmaster.Shutdown.Effects.{Knows, Step-Winds}
use bandmaster.Shutdown.Serving.{Awaited, stopped_channel-Awaited}
use bandmaster.Shutdown.Waits.{
  Waits, Waiting, Step-AllServe, still-Waits, turn-Waits, Waiting-of, Waiting-after_call,
}

module _ (services : Maestro) (ctx_err : String) where
  module _ (s t : System) (step : Step services ctx_err s t) (inv : Knows services s)
      (w : Waits services s.objects s.pcs) where
    turned :
        (i : ℕ) (pc : Pc)
        → Waiting services t.objects i pc
        → Waits services t.objects (update s.pcs i pc)
    turned i pc h =
        turn-Waits services s.objects t.objects
          (Step-AllServe services ctx_err s t step inv w.valid)
          (Step-Winds services ctx_err s t step inv) s.pcs w i pc h

    stayed : Waits services t.objects s.pcs
    stayed =
        still-Waits services s.objects t.objects
          (Step-AllServe services ctx_err s t step inv w.valid)
          (Step-Winds services ctx_err s t step inv) s.pcs w

    still_needs : (i j : ℕ) → needs s.objects j i ≡ true → needs t.objects j i ≡ true
    still_needs i j h =
        needs-winds services s.objects t.objects (Step-Winds services ctx_err s t step inv) i j ∙ h

  Step-Waits :
      (s t : System)
      → Step services ctx_err s t
      → Knows services s
      → Waits services s.objects s.pcs
      → Waits services t.objects t.pcs
  unfolding after_call
  Step-Waits s t (already i at on) inv w = turned s t (already i at on) inv w i _ tt
  Step-Waits s t (abort i at c) inv w = turned s t (abort i at c) inv w i _ tt
  Step-Waits s t (go_on i order at off c same once) inv w =
      turned s t (go_on i order at off c same once) inv w i (scanning order) (λ e m. (same e).0 m)
  Step-Waits s t (skip i j parent todo at other) inv w =
      let h = Waiting-of services s i (scanning ((parent, j) ∷ todo)) w at in
      turned s t (skip i j parent todo at other) inv w i (scanning todo) (λ e m. h e (inr m))
  Step-Waits s t (subscribe i j parent todo at needed) inv w =
      turned s t (subscribe i j parent todo at needed) inv w i _ (
        Waiting-of services s i (scanning ((parent, j) ∷ todo)) w at,
        still_needs s t (subscribe i j parent todo at needed) inv w i j needed,
        subst (λ o. Awaited o (stopped_channel (s.objects j)).0)
            (sym (update_self s.objects j (stopped_channel (s.objects j)).1))
            (stopped_channel-Awaited (s.objects j)),
      )
  Step-Waits s t (parent_stopped i j c parent todo ch at got) inv w =
      let h = Waiting-of services s i (receiving parent j c todo) w at in
      turned s t (parent_stopped i j c parent todo ch at got) inv w i (scanning todo)
        (λ e m. h.0 e (inr m))
  Step-Waits s t (parent_failed i j c parent todo e ch at got) inv w =
      turned s t (parent_failed i j c parent todo e ch at got) inv w i _ tt
  Step-Waits s t (parents_stopped i at) inv w = turned s t (parents_stopped i at) inv w i _ tt
  Step-Waits s t (call i attempts ib result at) inv w =
      turned s t (call i attempts ib result at) inv w i _
        (Waiting-after_call services s.objects i attempts ib result)
  Step-Waits s t (timer i attempts ib at) inv w = turned s t (timer i attempts ib at) inv w i _ tt
  Step-Waits s t (interrupt i attempts ib at c) inv w =
      turned s t (interrupt i attempts ib at c) inv w i _ tt
  Step-Waits s t (fail i e r o at did) inv w = turned s t (fail i e r o at did) inv w i _ tt
  Step-Waits s t (succeed i r o at did) inv w = turned s t (succeed i r o at did) inv w i _ tt
  Step-Waits s t (report i e c at sent) inv w = turned s t (report i e c at sent) inv w i _ tt
  Step-Waits s t cancel inv w = w
  Step-Waits s t (outside j) inv w = stayed s t (outside j) inv w

  pub Reach-Waits :
      (s t : System)
      → Reach services ctx_err s t
      → Knows services s
      → Waits services s.objects s.pcs
      → Waits services t.objects t.pcs
  Reach-Waits s t here inv w = w
  Reach-Waits s t (next_step {t = u} r step) inv w =
      Step-Waits u t step (Reach-Inv services ctx_err (λ _. Unit) s u r inv)
        (Reach-Waits s u r inv w)
