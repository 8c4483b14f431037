-- ===== src/Boot/Waits.antt =====
-- maestro.go: what a goroutine of StartAll waits for.
pub mod Steps
use bandmaster.Base.{
  ◌<◌, if_ind, leb, arith, ℕ, ◌≡◌, refl, sym, ap, ◌∙◌, subst, ◌≢◌, ◌⊎◌, inl, inr, String, true,
  false, Option, none, some, List, [], ◌∷◌, In, returned,
}
use native.Mathlib.Decide.{ℕ_discrete}
use bandmaster.Base.Family.{update, update_self, update_ne, update_keeps}
use bandmaster.ServiceBase.{Object, started_channel, dependencies, retry_conf}
use bandmaster.ServiceBase.Invariant.{IsValid}
use bandmaster.Registry.{Maestro}
use bandmaster.Retry.{Next, success, give_up, back_off, next}
use bandmaster.Boot.Defs.{
  Pc, entry, waiting, receiving, calling, backing_off, failing, succeeding, reporting, finished,
  crashed, System, after_call, after_next, Step, already, abort, go_on, subscribe, nil_service,
  dependency_ready, dependency_failed, dependencies_ready, call, timer, interrupt, fail, succeed,
  report, cancel, outside, Reach, here, next_step,
}
use bandmaster.Boot.Knowledge.{Inv}
use bandmaster.Boot.Order.{at_pc, Reach-Inv}
use bandmaster.Boot.Refinement.{Step-Effect}
use bandmaster.Goroutines.Serving
use bandmaster.Goroutines.Waiters
use bandmaster.Boot.Serving.{
  waiters, Awaited, Serves, started_channel-Serves, started_channel-Awaited, start-none-Serves,
  start_err-Serves,
}

-- The goroutine of `i` visits dependencies of its service alone, and the channel at which it waits
-- is served. It waits for another attempt only before the last.
abbrev pub Waiting : (ℕ → Object) → ℕ → Pc → Type 0
Waiting objects i (waiting todo) = (x : String) → In x todo → In x (dependencies (objects i))
Waiting objects i (receiving d j c todo) =
    ((x : String) → In x (d ∷ todo) → In x (dependencies (objects i))) × Awaited (objects j) c
Waiting objects i (backing_off attempts ib) = attempts < (objects i).retries
Waiting objects i _ = Unit

abbrev pub Waits : (ℕ → Object) → (ℕ → Pc) → Type 0
Waits = Waiters.Waits Waiting

-- Behind a call a goroutine waits for another attempt only if the last one is not reached.
pub Waiting-after_call :
    (objects : ℕ → Object) (i attempts ib : ℕ) (result : Option String)
    → Waiting objects i (after_call i (retry_conf (objects i)).0 attempts ib result)
unfolding after_call after_next next retry_conf
Waiting-after_call objects i attempts ib none = tt
Waiting-after_call objects i attempts ib (some err) =
    if_ind (λ n. Waiting objects i (after_next i attempts ib n)) (leb (objects i).retries attempts)
      (λ last. tt) (λ more. ground (arith, more))

abbrev pub AllServe : (ℕ → Object) → (ℕ → Object) → Type 0
AllServe = Serving.AllServe waiters

module _ (objects objects' : ℕ → Object) (serve : AllServe objects objects')
    (same : (k : ℕ) → (objects' k).direct_deps ≡ (objects k).direct_deps)
    (retry : (k : ℕ) → (objects' k).retries ≡ (objects k).retries) where
  keep_asking :
      (i : ℕ) (todo : List String)
      → ((x : String) → In x todo → In x (dependencies (objects i)))
      → (x : String) → In x todo
      → In x (dependencies (objects' i))
  unfolding dependencies
  keep_asking i todo h x m = subst (λ ds. In x ds) (sym (same i)) (h x m)

  keep-Waiting : (i : ℕ) (pc : Pc) → Waiting objects i pc → Waiting objects' i pc
  keep-Waiting i entry h = tt
  keep-Waiting i (waiting todo) h = keep_asking i todo h
  keep-Waiting i (receiving d j c todo) h = (keep_asking i (d ∷ todo) h.0, (serve j).awaited c h.1)
  keep-Waiting i (calling attempts ib) h = tt
  keep-Waiting i (backing_off attempts ib) h = subst (λ n. attempts < n) (sym (retry i)) h
  keep-Waiting i (failing e) h = tt
  keep-Waiting i succeeding h = tt
  keep-Waiting i (reporting e) h = tt
  keep-Waiting i finished h = tt
  keep-Waiting i crashed h = tt

  valid : (k : ℕ) → IsValid (objects' k)
  valid k = (serve k).valid

  pub still-Waits : (pcs : ℕ → Pc) → Waits objects pcs → Waits objects' pcs
  still-Waits pcs w = Waiters.still-Waits Waiting objects objects' valid keep-Waiting pcs w

  pub turn-Waits :
      (pcs : ℕ → Pc)
      → Waits objects pcs
      → (i : ℕ) (pc : Pc) → Waiting objects' i pc
      → Waits objects' (update pcs i pc)
  turn-Waits pcs w = Waiters.turn-Waits Waiting objects objects' valid keep-Waiting pcs w

module _ (services : Maestro) (ctx_err : String) where
  watch-AllServe :
      (s : System) (j : ℕ)
      → ((k : ℕ) → IsValid (s.objects k))
      → AllServe s.objects (update s.objects j (started_channel (s.objects j)).1)
  watch-AllServe s j valid =
      Serving.write-AllServe waiters s.objects j _ valid
        (started_channel-Serves (s.objects j) (valid j))

  pub Step-AllServe :
      (s t : System)
      → Step services ctx_err s t
      → Inv services s.objects s.pcs
      → ((k : ℕ) → IsValid (s.objects k))
      → AllServe s.objects t.objects
  Step-AllServe s t (already i at on) inv valid = watch-AllServe s i valid
  Step-AllServe s t (abort i at c) inv valid = watch-AllServe s i valid
  Step-AllServe s t (go_on i order at off c same once) inv valid = watch-AllServe s i valid
  Step-AllServe s t (subscribe i j d todo at found) inv valid = watch-AllServe s j valid
  Step-AllServe s t (dependency_ready i j c d todo ch at got) inv valid =
      Serving.write-AllServe waiters s.objects j _ valid
        (Serving.receive-Serves waiters (s.objects j) c none ch got (valid j))
  Step-AllServe s t (dependency_failed i j c d todo e ch at got) inv valid =
      Serving.write-AllServe waiters s.objects j _ valid
        (Serving.receive-Serves waiters (s.objects j) c (some e) ch got (valid j))
  Step-AllServe s t (fail i e r o at did) inv valid =
      Serving.write-AllServe waiters s.objects i o valid (
        subst (Serves (s.objects i)) (ap (λ p. p.1) did) (
          start_err-Serves e (s.objects i) (valid i)
            (at_pc services ctx_err s i (failing e) inv at)))
  Step-AllServe s t (succeed i r o at did) inv valid =
      Serving.write-AllServe waiters s.objects i o valid (
        subst (Serves (s.objects i)) (ap (λ p. p.1) did)
          (start-none-Serves (s.objects i) (valid i)))
  Step-AllServe s t (outside j) inv valid = watch-AllServe s j valid
  Step-AllServe s t (nil_service i d todo at found) inv valid =
      λ k. Serving.Serves-refl waiters _ (valid k)
  Step-AllServe s t (dependencies_ready i at) inv valid =
      λ k. Serving.Serves-refl waiters _ (valid k)
  Step-AllServe s t (call i attempts ib result at) inv valid =
      λ k. Serving.Serves-refl waiters _ (valid k)
  Step-AllServe s t (timer i attempts ib at) inv valid =
      λ k. Serving.Serves-refl waiters _ (valid k)
  Step-AllServe s t (interrupt i attempts ib at c) inv valid =
      λ k. Serving.Serves-refl waiters _ (valid k)
  Step-AllServe s t (report i e c at sent) inv valid = λ k. Serving.Serves-refl waiters _ (valid k)
  Step-AllServe s t cancel inv valid = λ k. Serving.Serves-refl waiters _ (valid k)

  pub Waiting-of :
      (s : System) (i : ℕ) (pc : Pc) → Waits s.objects s.pcs → s.pcs i ≡ pc → Waiting s.objects i pc
  Waiting-of s i pc w at = Waiters.Waiting-of Waiting s.objects s.pcs i pc w at
