-- ===== src/Shutdown/Effects.antt =====
-- maestro.go: what the steps of StopAll's goroutines do to the services.
use bandmaster.Base.{ℕ, ap, subst, inl, String, none, some}
use bandmaster.Base.Family.{update}
use bandmaster.ServiceBase.{Object, stopped_channel}
use bandmaster.Registry.{Maestro}
use bandmaster.Goroutines.Grows.{Grows-refl, Grows-trans, receive-Grows, write-Grows}
use bandmaster.Shutdown.Defs.{
  System, failing, Step, already, abort, go_on, skip, subscribe, parent_stopped, parent_failed,
  parents_stopped, call, timer, interrupt, fail, succeed, report, cancel, outside, Reach, here,
  next_step,
}
use bandmaster.Shutdown.Objects.{
  is_stopped, Winding, stopped_channel-Grows, stop_err-Grows, stop-none-Grows,
}
use bandmaster.Shutdown.Knowledge.{Inv}
use bandmaster.Shutdown.Order.{at_pc, AtEntry, begins-Inv}

-- What the goroutines know, whatever was stopped before them.
abbrev pub Knows : Maestro → System → Type 0
Knows services s = Inv services (λ _. Unit) s.objects s.pcs

abbrev pub Winds : (ℕ → Object) → (ℕ → Object) → Type 0
Winds objects objects' = (k : ℕ) → Winding (objects k) (objects' k)

module _ (services : Maestro) (ctx_err : String) where
  watch-Winds :
      (objects : ℕ → Object) (j : ℕ)
      → Winds objects (update objects j (stopped_channel (objects j)).1)
  watch-Winds objects j = write-Grows is_stopped objects j _ (stopped_channel-Grows (objects j)).0

  pub Step-Winds :
      (s t : System) → Step services ctx_err s t → Knows services s → Winds s.objects t.objects
  Step-Winds s t (already i at on) inv = watch-Winds s.objects i
  Step-Winds s t (abort i at c) inv = watch-Winds s.objects i
  Step-Winds s t (go_on i order at off c same once) inv = watch-Winds s.objects i
  Step-Winds s t (skip i j parent todo at other) inv = λ k. Grows-refl is_stopped (s.objects k)
  Step-Winds s t (subscribe i j parent todo at needed) inv = watch-Winds s.objects j
  Step-Winds s t (parent_stopped i j c parent todo ch at got) inv =
      write-Grows is_stopped s.objects j _ (receive-Grows is_stopped (s.objects j) c none ch got)
  Step-Winds s t (parent_failed i j c parent todo e ch at got) inv =
      write-Grows is_stopped s.objects j _
        (receive-Grows is_stopped (s.objects j) c (some e) ch got)
  Step-Winds s t (parents_stopped i at) inv = λ k. Grows-refl is_stopped (s.objects k)
  Step-Winds s t (call i attempts ib result at) inv = λ k. Grows-refl is_stopped (s.objects k)
  Step-Winds s t (timer i attempts ib at) inv = λ k. Grows-refl is_stopped (s.objects k)
  Step-Winds s t (interrupt i attempts ib at c) inv = λ k. Grows-refl is_stopped (s.objects k)
  Step-Winds s t (fail i e r o at did) inv =
      let busy = at_pc services ctx_err (λ _. Unit) s i (failing e) inv at in
      write-Grows is_stopped s.objects i o
        (subst (Winding (s.objects i)) (ap (λ p. p.1) did) (stop_err-Grows e (s.objects i) busy).0)
  Step-Winds s t (succeed i r o at did) inv =
      write-Grows is_stopped s.objects i o
        (subst (Winding (s.objects i)) (ap (λ p. p.1) did) (stop-none-Grows (s.objects i)).0)
  Step-Winds s t (report i e c at sent) inv = λ k. Grows-refl is_stopped (s.objects k)
  Step-Winds s t cancel inv = λ k. Grows-refl is_stopped (s.objects k)
  Step-Winds s t (outside j) inv = watch-Winds s.objects j

  pub begins-Knows : (s t : System) → AtEntry s → Reach services ctx_err s t → Knows services t
  begins-Knows s t begins r = begins-Inv services ctx_err s t begins r (λ _. Unit) (λ k off. inl tt)

  pub Reach-Winds :
      (s t : System) → AtEntry s → Reach services ctx_err s t → Winds s.objects t.objects
  Reach-Winds s t begins here k = Grows-refl is_stopped (s.objects k)
  Reach-Winds s t begins (next_step {t = u} r step) k =
      Grows-trans is_stopped (s.objects k) (u.objects k) (t.objects k) (Reach-Winds s u begins r k)
        (Step-Winds u t step (begins-Knows s u begins r) k)
