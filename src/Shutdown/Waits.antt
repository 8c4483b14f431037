-- ===== src/Shutdown/Waits.antt =====
-- maestro.go: what a goroutine of StopAll waits for.
pub mod Steps
use bandmaster.Base.{
  ◌<◌, if_ind, leb, arith, ℕ, ◌≡◌, sym, ap, subst, inl, inr, String, true, none, some, Option, ◌∷◌,
  In, ◌∙◌,
}
use bandmaster.Base.Family.{update}
use bandmaster.ServiceBase.{Object, stopped_channel, retry_conf}
use bandmaster.ServiceBase.Invariant.{IsValid}
use bandmaster.Registry.{Maestro}
use bandmaster.Retry.{Next, success, give_up, back_off, next}
use bandmaster.Goroutines.Serving
use bandmaster.Goroutines.Waiters
use bandmaster.Shutdown.Defs.{
  Pc, entry, scanning, receiving, calling, backing_off, failing, succeeding, reporting, finished,
  System, after_call, after_next, needs, Step, already, abort, go_on, skip, subscribe,
  parent_stopped, parent_failed, parents_stopped, call, timer, interrupt, fail, succeed, report,
  cancel, outside,
}
use bandmaster.Shutdown.Knowledge.{needs-winds}
use bandmaster.Shutdown.Order.{at_pc}
use bandmaster.Shutdown.Effects.{Knows, Winds}
use bandmaster.Shutdown.Serving.{
  waiters, Awaited, stopped_channel-Serves, stop-none-Serves, stop_err-Serves,
}

-- The goroutine of `i` visits registered services alone, and waits for one that depends on its own,
-- at a channel that is served. It waits for another attempt only before the last.
abbrev pub Waiting : Maestro → (ℕ → Object) → ℕ → Pc → Type 0
Waiting services objects i (scanning todo) = (e : String × ℕ) → In e todo → In e services
Waiting services objects i (receiving parent j c todo) =
    ((e : String × ℕ) → In e ((parent, j) ∷ todo) → In e services)
    × (needs objects j i ≡ true)
    × Awaited (objects j) c
Waiting services objects i (backing_off attempts ib) = attempts < (objects i).retries
Waiting services objects i _ = Unit

abbrev pub AllServe : (ℕ → Object) → (ℕ → Object) → Type 0
AllServe = Serving.AllServe waiters

module _ (services : Maestro) where
  abbrev pub Waits : (ℕ → Object) → (ℕ → Pc) → Type 0
  Waits = Waiters.Waits (Waiting services)

  -- Behind a call a goroutine waits for another attempt only if the last one is not reached.
  pub Waiting-after_call :
      (objects : ℕ → Object) (i attempts ib : ℕ) (result : Option String)
      → Waiting services objects i (after_call i (retry_conf (objects i)).0 attempts ib result)
  unfolding after_call after_next next retry_conf
  Waiting-after_call objects i attempts ib none = tt
  Waiting-after_call objects i attempts ib (some err) =
      if_ind (λ n. Waiting services objects i (after_next i attempts ib n))
        (leb (objects i).retries attempts) (λ last. tt) (λ more. ground (arith, more))

  module _ (objects objects' : ℕ → Object) (serve : AllServe objects objects')
      (winds : Winds objects objects') where
    keep-Waiting :
        (i : ℕ) (pc : Pc) → Waiting services objects i pc → Waiting services objects' i pc
    keep-Waiting i entry h = tt
    keep-Waiting i (scanning todo) h = h
    keep-Waiting i (receiving parent j c todo) h =
        (h.0, needs-winds services objects objects' winds i j ∙ h.1, (serve j).awaited c h.2)
    keep-Waiting i (calling attempts ib) h = tt
    keep-Waiting i (backing_off attempts ib) h = subst (λ n. attempts < n) (sym (winds i).retry) h
    keep-Waiting i (failing e) h = tt
    keep-Waiting i succeeding h = tt
    keep-Waiting i (reporting e) h = tt
    keep-Waiting i finished h = tt

    valid : (k : ℕ) → IsValid (objects' k)
    valid k = (serve k).valid

    pub still-Waits : (pcs : ℕ → Pc) → Waits objects pcs → Waits objects' pcs
    still-Waits pcs w =
        Waiters.still-Waits (Waiting services) objects objects' valid keep-Waiting pcs w

    pub turn-Waits :
        (pcs : ℕ → Pc)
        → Waits objects pcs
        → (i : ℕ) (pc : Pc) → Waiting services objects' i pc
        → Waits objects' (update pcs i pc)
    turn-Waits pcs w =
        Waiters.turn-Waits (Waiting services) objects objects' valid keep-Waiting pcs w

  pub Waiting-of :
      (s : System) (i : ℕ) (pc : Pc)
      → Waits s.objects s.pcs
      → s.pcs i ≡ pc
      → Waiting services s.objects i pc
  Waiting-of s i pc w at = Waiters.Waiting-of (Waiting services) s.objects s.pcs i pc w at

module _ (services : Maestro) (ctx_err : String) where
  watch-AllServe :
      (s : System) (j : ℕ)
      → ((k : ℕ) → IsValid (s.objects k))
      → AllServe s.objects (update s.objects j (stopped_channel (s.objects j)).1)
  watch-AllServe s j valid =
      Serving.write-AllServe waiters s.objects j _ valid
        (stopped_channel-Serves (s.objects j) (valid j))

  pub Step-AllServe :
      (s t : System)
      → Step services ctx_err s t
      → Knows services s
      → ((k : ℕ) → IsValid (s.objects k))
      → AllServe s.objects t.objects
  Step-AllServe s t (already i at on) inv valid = watch-AllServe s i valid
  Step-AllServe s t (abort i at c) inv valid = watch-AllServe s i valid
  Step-AllServe s t (go_on i order at off c same once) inv valid = watch-AllServe s i valid
  Step-AllServe s t (subscribe i j parent todo at needed) inv valid = watch-AllServe s j valid
  Step-AllServe s t (parent_stopped i j c parent todo ch at got) inv valid =
      Serving.write-AllServe waiters s.objects j _ valid
        (Serving.receive-Serves waiters (s.objects j) c none ch got (valid j))
  Step-AllServe s t (parent_failed i j c parent todo e ch at got) inv valid =
      Serving.write-AllServe waiters s.objects j _ valid
        (Serving.receive-Serves waiters (s.objects j) c (some e) ch got (valid j))
  Step-AllServe s t (fail i e r o at did) inv valid =
      let busy = at_pc services ctx_err (λ _. Unit) s i (failing e) inv at in
      Serving.write-AllServe waiters s.objects i o valid (
        subst (Serving.Serves waiters (s.objects i)) (ap (λ p. p.1) did)
          (stop_err-Serves e (s.objects i) (valid i) busy))
  Step-AllServe s t (succeed i r o at did) inv valid =
      Serving.write-AllServe waiters s.objects i o valid (
        subst (Serving.Serves waiters (s.objects i)) (ap (λ p. p.1) did)
          (stop-none-Serves (s.objects i) (valid i)))
  Step-AllServe s t (outside j) inv valid = watch-AllServe s j valid
  Step-AllServe s t (skip i j parent todo at other) inv valid =
      λ k. Serving.Serves-refl waiters _ (valid k)
  Step-AllServe s t (parents_stopped i at) inv valid = λ k. Serving.Serves-refl waiters _ (valid k)
  Step-AllServe s t (call i attempts ib result at) inv valid =
      λ k. Serving.Serves-refl waiters _ (valid k)
  Step-AllServe s t (timer i attempts ib at) inv valid =
      λ k. Serving.Serves-refl waiters _ (valid k)
  Step-AllServe s t (interrupt i attempts ib at c) inv valid =
      λ k. Serving.Serves-refl waiters _ (valid k)
  Step-AllServe s t (report i e c at sent) inv valid = λ k. Serving.Serves-refl waiters _ (valid k)
  Step-AllServe s t cancel inv valid = λ k. Serving.Serves-refl waiters _ (valid k)
