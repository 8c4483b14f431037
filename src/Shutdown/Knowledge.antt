-- ===== src/Shutdown/Knowledge.antt =====
-- maestro.go: what a goroutine of StopAll knows where it stands, and what keeps it true.
use bandmaster.Base.{
  ℕ, ◌<◌, ◌≡◌, refl, sym, ap, ◌∙◌, subst, ◌≢◌, ◌⊎◌, inl, inr, String, true, false, [], ◌∷◌, In,
  arith,
}
use native.Mathlib.Decide.{ℕ_discrete}
use bandmaster.Base.Family.{update, update_self, update_ne}
use bandmaster.ServiceBase.{Object, dependencies}
use bandmaster.Registry.{Maestro}
use bandmaster.Retry.{Next, success, give_up, back_off}
use bandmaster.Goroutines.Grows.{Grows-refl, write-Grows, write_flag}
use bandmaster.Shutdown.Defs.{
  Pc, entry, scanning, receiving, calling, backing_off, failing, succeeding, reporting, finished,
  after_next, needs,
}
use bandmaster.Shutdown.Objects.{is_stopped, Winding}

module _ (services : Maestro) where
  -- Every service that depends on the one at `i` is stopped, but for those still to do.
  abbrev pub Clear : (ℕ → Object) → ℕ → Maestro → Type 0
  Clear objects i todo =
      (parent : String) (j : ℕ)
      → In (parent, j) services
      → needs objects j i ≡ true
      → In (parent, j) todo ⊎ ((objects j).stopped ≡ true)

  abbrev pub Busy : (ℕ → Object) → ℕ → Type 0
  Busy objects i = (objects i).stopped ≡ false

  -- What a goroutine knows where it stands.
  abbrev pub Ok : (ℕ → Object) → ℕ → Pc → Type 0
  Ok objects i (scanning todo) = Busy objects i × Clear objects i todo
  Ok objects i (receiving parent j c todo) =
      Busy objects i
      × Clear objects i ((parent, j) ∷ todo)
      × (c < (objects j).next)
      × (((objects j).chans c).closed ≡ true → (objects j).stopped ≡ true)
  Ok objects i (calling attempts ib) = Busy objects i × Clear objects i []
  Ok objects i (backing_off attempts ib) = Busy objects i × Clear objects i []
  Ok objects i succeeding = Busy objects i × Clear objects i []
  Ok objects i (failing e) = Busy objects i
  Ok objects i _ = Unit

  -- `stopped_before` says which services were stopped when StopAll began.
  pub record Inv (stopped_before : ℕ → Type 0) (objects : ℕ → Object) (pcs : ℕ → Pc) : Type 0 where
    pub goroutines : (i : ℕ) → Ok objects i (pcs i)
    pub served : (i : ℕ) → (objects i).stopped ≡ true → stopped_before i ⊎ Clear objects i []

  module _ (objects objects' : ℕ → Object)
      (winds : (j : ℕ) → Winding (objects j) (objects' j)) where
    pub needs-winds : (i j : ℕ) → needs objects' j i ≡ needs objects j i
    unfolding needs dependencies
    needs-winds i j = rw ((winds i).named, (winds j).deps)

    pub Clear-winds : (i : ℕ) (todo : Maestro) → Clear objects i todo → Clear objects' i todo
    Clear-winds i todo r parent j m n = elim (r parent j m (sym (needs-winds i j) ∙ n)) [
      | inl todo ↦ inl todo
      | inr s ↦ inr ((winds j).kept s)
    ]

    Ok-winds :
        (i : ℕ) (pc : Pc)
        → (objects' i).stopped ≡ (objects i).stopped
        → Ok objects i pc
        → Ok objects' i pc
    Ok-winds i entry e h = tt
    Ok-winds i (scanning todo) e h = (e ∙ h.0, Clear-winds i todo h.1)
    Ok-winds i (receiving parent j c todo) e h = (
      e ∙ h.0,
      Clear-winds i ((parent, j) ∷ todo) h.1,
      omega (arith, h.2, (winds j).later),
      λ closed. elim ((winds j).closing c h.2 closed) [
        | inl on ↦ on
        | inr before ↦ (winds j).kept (h.3 before)
      ],
    )
    Ok-winds i (calling a ib) e h = (e ∙ h.0, Clear-winds i [] h.1)
    Ok-winds i (backing_off a ib) e h = (e ∙ h.0, Clear-winds i [] h.1)
    Ok-winds i (failing err) e h = e ∙ h
    Ok-winds i succeeding e h = (e ∙ h.0, Clear-winds i [] h.1)
    Ok-winds i (reporting err) e h = tt
    Ok-winds i finished e h = tt

    served-winds : {P : Type 0} (i : ℕ) → P ⊎ Clear objects i [] → P ⊎ Clear objects' i []
    served-winds i (inl p) = inl p
    served-winds i (inr r) = inr (Clear-winds i [] r)

    -- A step of the goroutine `i`, which alone may stop its own service.
    step-Inv :
        (before : ℕ → Type 0) (pcs : ℕ → Pc) (i : ℕ) (pc : Pc)
        → Inv before objects pcs
        → ((k : ℕ) → i ≢ k → (objects' k).stopped ≡ (objects k).stopped)
        → Ok objects' i pc
        → ((objects' i).stopped ≡ true → before i ⊎ Clear objects' i [])
        → Inv before objects' (update pcs i pc)
    step-Inv before pcs i pc inv same ok served = record {
      goroutines = λ k. elim (ℕ_discrete i k) [
        | yes e ↦ subst (λ x. Ok objects' x (update pcs i pc x)) e (rw (update_self pcs i pc) ok)
        | no n ↦ rw (update_ne pcs i pc k n) (Ok-winds k (pcs k) (same k n) (inv.goroutines k))
      ];
      served = λ k on. elim (ℕ_discrete i k) [
        | yes e ↦ rw (← e) (served (rw e on))
        | no n ↦ served-winds k (inv.served k (sym (same k n) ∙ on))
      ];
    }

  -- A step that writes `o` to the address `j`.
  module _ (before : ℕ → Type 0) (objects : ℕ → Object) (j : ℕ) (o : Object)
      (wind : Winding (objects j) o) where
    -- One that stops no service.
    pub quiet-Inv :
        (pcs : ℕ → Pc) (i : ℕ) (pc : Pc)
        → o.stopped ≡ (objects j).stopped
        → Inv before objects pcs
        → Ok (update objects j o) i pc
        → Inv before (update objects j o) (update pcs i pc)
    quiet-Inv pcs i pc same inv ok =
        let same' = write_flag is_stopped objects j o same in
        let winds = write-Grows is_stopped objects j o wind in
        step-Inv objects (update objects j o) winds before pcs i pc inv (λ k _. same' k) ok
          (λ on.
            served-winds objects (update objects j o) winds i (inv.served i (sym (same' i) ∙ on)))

    pub outside-Inv :
        (pcs : ℕ → Pc)
        → o.stopped ≡ (objects j).stopped
        → Inv before objects pcs
        → Inv before (update objects j o) pcs
    outside-Inv pcs same inv =
        let same' = write_flag is_stopped objects j o same in
        let winds = write-Grows is_stopped objects j o wind in
        record {
          goroutines = λ k.
              Ok-winds objects (update objects j o) winds k (pcs k) (same' k) (inv.goroutines k);
          served = λ k on.
              served-winds objects (update objects j o) winds k (inv.served k (sym (same' k) ∙ on));
        }

    -- The end of a stop of one's own service.
    pub own-Inv :
        (pcs : ℕ → Pc) (pc : Pc)
        → Inv before objects pcs
        → Ok (update objects j o) j pc
        → (o.stopped ≡ true → Clear objects j [])
        → Inv before (update objects j o) (update pcs j pc)
    own-Inv pcs pc inv ok served =
        let winds = write-Grows is_stopped objects j o wind in
        step-Inv objects (update objects j o) winds before pcs j pc inv
          (λ k n. ap (λ x. x.stopped) (update_ne objects j o k n)) ok
          (λ on. inr (
            Clear-winds objects (update objects j o) winds j []
              (served (ap (λ x. x.stopped) (sym (update_self objects j o)) ∙ on))))

  pub jump-Inv :
      (before : ℕ → Type 0) (objects : ℕ → Object) (pcs : ℕ → Pc) (i : ℕ) (pc : Pc)
      → Inv before objects pcs
      → Ok objects i pc
      → Inv before objects (update pcs i pc)
  jump-Inv before objects pcs i pc inv ok =
      step-Inv objects objects (λ k. Grows-refl is_stopped (objects k)) before pcs i pc inv
        (λ k _. refl) ok (inv.served i)

  -- The service at the head is stopped, or does not depend on the one at `i`.
  pub Clear-tail :
      (objects : ℕ → Object) (i j : ℕ) (parent : String) (todo : Maestro)
      → Clear objects i ((parent, j) ∷ todo)
      → (needs objects j i ≡ true → (objects j).stopped ≡ true)
      → Clear objects i todo
  Clear-tail objects i j parent todo r head p k m n = elim (r p k m n) [
    | inl (inl e) ↦ let same : k ≡ j = ap (λ x. x.1) e in inr (rw same (head (rw same at n)))
    | inl (inr t) ↦ inl t
    | inr other ↦ inr other
  ]

  pub Ok-after_next :
      (objects : ℕ → Object) (i attempts ib : ℕ) (n : Next)
      → Busy objects i × Clear objects i []
      → Ok objects i (after_next i attempts ib n)
  unfolding after_next
  Ok-after_next objects i attempts ib success h = h
  Ok-after_next objects i attempts ib (give_up err) h = h.0
  Ok-after_next objects i attempts ib back_off h = h
