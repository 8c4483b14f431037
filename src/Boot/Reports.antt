-- ===== src/Boot/Reports.antt =====
-- maestro.go: the steps of StartAll's goroutines, and the account of what became of them.
use bandmaster.Base.{ℕ, ◌≡◌, refl, sym, ap, ◌∙◌, subst, ◌≢◌, inl, inr, String, true, [], ◌∷◌}
use bandmaster.Base.Family.{update, update_self}
use bandmaster.ServiceBase.{Object}
use bandmaster.Channel.{Chan}
use bandmaster.Registry.{Maestro}
use bandmaster.Goroutines.Ledger
use bandmaster.Goroutines.Ledger.{Stage, working, faulty, done, Account}
use bandmaster.Retry.{Next, success, give_up, back_off}
use bandmaster.Deps.Circular.{with_error, push-ready}
use bandmaster.Boot.Defs.{
  Pc, entry, waiting, receiving, calling, backing_off, failing, succeeding, reporting, finished,
  System, after_call, after_next, Step, already, abort, go_on, subscribe, nil_service,
  dependency_ready, dependency_failed, dependencies_ready, call, timer, interrupt, fail, succeed,
  report, cancel, outside, Reach, here, next_step,
}
use bandmaster.Boot.Objects.{is_started, start-none-Grows}
use bandmaster.Boot.Knowledge.{Inv}
use bandmaster.Boot.Order.{Reach-Inv}
use bandmaster.Boot.Refinement.{Effect, Step-Effect}

abbrev pub stage_of : Pc → Stage
stage_of (failing e) = faulty e
stage_of (reporting e) = faulty e
stage_of finished = done
stage_of _ = working

-- Behind a call.
stage_of-after_next :
    (ctx_err : String) (objects : ℕ → Object) (c : Chan) (i attempts ib : ℕ) (n : Next)
    → Account is_started ctx_err objects c i (stage_of (after_next i attempts ib n))
unfolding after_next
stage_of-after_next ctx_err objects c i attempts ib success = tt
stage_of-after_next ctx_err objects c i attempts ib (give_up err) = inl refl
stage_of-after_next ctx_err objects c i attempts ib back_off = tt

module _ (services : Maestro) (ctx_err : String) where
  abbrev pub Books : System → Type 0
  Books s = Ledger.Ledger is_started ctx_err stage_of services s.objects s.pcs s.err_c

  Account-of :
      (s : System) (i : ℕ) (pc : Pc)
      → Books s
      → s.pcs i ≡ pc
      → stage_of pc ≢ done
      → Account is_started ctx_err s.objects s.err_c i (stage_of pc)
  Account-of s i pc l at runs =
      subst (λ x. Account is_started ctx_err s.objects s.err_c i (stage_of x)) at
        (l.accounts i (l.running i (λ e. runs (sym (ap stage_of at) ∙ e))))

  -- A step of the goroutine `i` other than its report.
  turned :
      (s t : System) (i : ℕ) (old pc : Pc)
      → Books s
      → Effect services ctx_err s.objects t.objects
      → s.pcs i ≡ old
      → stage_of old ≢ done
      → Account is_started ctx_err t.objects s.err_c i (stage_of pc)
      → Ledger.Ledger is_started ctx_err stage_of services t.objects (update s.pcs i pc) s.err_c
  turned s t i old pc l effect at runs h =
      Ledger.turn-Ledger is_started ctx_err stage_of services s.objects t.objects s.pcs s.err_c l
        (λ k. (effect.grows k).kept) i old pc at runs h

  Step-Books :
      (s t : System) → Step services ctx_err s t → Inv services s.objects s.pcs → Books s → Books t
  unfolding after_call
  Step-Books s t (already i at on) inv l =
      let effect = Step-Effect services ctx_err s t (already i at on) inv in
      turned s t i entry finished l effect at (λ e. cc) (inl ((effect.grows i).kept on))
  Step-Books s t (abort i at c) inv l =
      turned s t i entry _ l (Step-Effect services ctx_err s t (abort i at c) inv) at (λ e. cc)
        (inl refl)
  Step-Books s t (go_on i order at off c same once) inv l =
      turned s t i entry _ l
        (Step-Effect services ctx_err s t (go_on i order at off c same once) inv) at (λ e. cc) tt
  Step-Books s t (subscribe i j d todo at found) inv l =
      turned s t i (waiting (d ∷ todo)) _ l
        (Step-Effect services ctx_err s t (subscribe i j d todo at found) inv) at (λ e. cc) tt
  Step-Books s t (nil_service i d todo at found) inv l =
      turned s t i (waiting (d ∷ todo)) _ l
        (Step-Effect services ctx_err s t (nil_service i d todo at found) inv) at (λ e. cc) tt
  Step-Books s t (dependency_ready i j c d todo ch at got) inv l =
      turned s t i (receiving d j c todo) _ l
        (Step-Effect services ctx_err s t (dependency_ready i j c d todo ch at got) inv) at
        (λ e. cc) tt
  Step-Books s t (dependency_failed i j c d todo e ch at got) inv l =
      turned s t i (receiving d j c todo) _ l
        (Step-Effect services ctx_err s t (dependency_failed i j c d todo e ch at got) inv) at
        (λ e. cc) (inl refl)
  Step-Books s t (dependencies_ready i at) inv l =
      turned s t i (waiting []) _ l (Step-Effect services ctx_err s t (dependencies_ready i at) inv)
        at (λ e. cc) tt
  Step-Books s t (call i attempts ib result at) inv l =
      turned s t i (calling attempts ib) _ l
        (Step-Effect services ctx_err s t (call i attempts ib result at) inv) at (λ e. cc)
        (stage_of-after_next ctx_err s.objects s.err_c i attempts ib _)
  Step-Books s t (timer i attempts ib at) inv l =
      turned s t i (backing_off attempts ib) _ l
        (Step-Effect services ctx_err s t (timer i attempts ib at) inv) at (λ e. cc) tt
  Step-Books s t (interrupt i attempts ib at c) inv l =
      turned s t i (backing_off attempts ib) _ l
        (Step-Effect services ctx_err s t (interrupt i attempts ib at c) inv) at (λ e. cc)
        (inr refl)
  Step-Books s t (fail i e r o at did) inv l =
      turned s t i (failing e) _ l (Step-Effect services ctx_err s t (fail i e r o at did) inv) at
        (λ e. cc) (Account-of s i (failing e) l at (λ q. cc))
  Step-Books s t (succeed i r o at did) inv l =
      let on =
        subst (λ x. x.started ≡ true) (ap (λ p. p.1) did) (start-none-Grows (s.objects i)).1 in
      turned s t i succeeding finished l
        (Step-Effect services ctx_err s t (succeed i r o at did) inv) at (λ e. cc)
        (inl (ap (λ x. x.started) (update_self s.objects i o) ∙ on))
  Step-Books s t (report i e c at sent) inv l =
      let ready =
        Ledger.err_c-IsReady is_started ctx_err stage_of services s.objects s.objects s.pcs s.err_c
          l (λ k on. on) i (reporting e) finished at (λ q. cc) in
      let same : with_error s.err_c e ≡ c =
        ap (λ p. p.1) (sym (push-ready e s.err_c ready) ∙ sent) in
      subst
        (λ x.
          Ledger.Ledger is_started ctx_err stage_of services s.objects (update s.pcs i finished) x)
        same
        (Ledger.report-Ledger is_started ctx_err stage_of services s.objects s.objects s.pcs s.err_c
          l (λ k on. on) i (reporting e) finished at (λ q. cc) e refl
          (Account-of s i (reporting e) l at (λ q. cc)))
  Step-Books s t cancel inv l = l
  Step-Books s t (outside j) inv l =
      Ledger.still-Ledger is_started ctx_err stage_of services s.objects t.objects s.pcs s.err_c l
        (λ k. ((Step-Effect services ctx_err s t (outside j) inv).grows k).kept)

  pub Reach-Books :
      (s t : System) → Reach services ctx_err s t → Inv services s.objects s.pcs → Books s → Books t
  Reach-Books s t here inv l = l
  Reach-Books s t (next_step {t = u} r step) inv l =
      Step-Books u t step (Reach-Inv services ctx_err s u r inv) (Reach-Books s u r inv l)
