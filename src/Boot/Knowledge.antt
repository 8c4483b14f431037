-- ===== src/Boot/Knowledge.antt =====
-- maestro.go: what a goroutine of StartAll knows where it stands, and what keeps it true.
use bandmaster.Base.{
  ℕ, ◌<◌, ◌≡◌, refl, sym, ap, ◌∙◌, subst, ◌≢◌, ◌⊎◌, inl, inr, String, true, false, some, List, [],
  ◌∷◌, In, arith,
}
use native.Mathlib.Decide.{ℕ_discrete}
use bandmaster.Base.Dict.{lookup}
use bandmaster.Base.Family.{update, update_self, update_ne}
use bandmaster.ServiceBase.{Object, dependencies}
use bandmaster.Registry.{Maestro}
use bandmaster.Retry.{Next, success, give_up, back_off}
use bandmaster.Boot.Defs.{
  Pc, entry, waiting, receiving, calling, backing_off, failing, succeeding, reporting, finished,
  crashed, after_next,
}
use bandmaster.Goroutines.Grows.{Grows-refl, write-Grows, write_flag}
use bandmaster.Boot.Objects.{is_started, Growing}

module _ (services : Maestro) where
  -- The service that is registered under a name is started.
  pub record IsStarted (objects : ℕ → Object) (name : String) : Type 0 where
    pub address : ℕ
    pub found : lookup name services ≡ some address
    pub on : (objects address).started ≡ true

  -- Every dependency of a service is started, but for those still to do.
  abbrev pub Ready : (ℕ → Object) → ℕ → List String → Type 0
  Ready objects i todo =
      (d : String) → In d (dependencies (objects i)) → In d todo ⊎ IsStarted objects d

  abbrev pub Idle : (ℕ → Object) → ℕ → Type 0
  Idle objects i = (objects i).started ≡ false

  -- What a goroutine knows where it stands.
  abbrev pub Ok : (ℕ → Object) → ℕ → Pc → Type 0
  Ok objects i (waiting todo) = Idle objects i × Ready objects i todo
  Ok objects i (receiving d j c todo) =
      Idle objects i
      × Ready objects i (d ∷ todo)
      × (lookup d services ≡ some j)
      × (c < (objects j).next)
      × (((objects j).chans c).closed ≡ true → (objects j).started ≡ true)
  Ok objects i (calling attempts ib) = Idle objects i × Ready objects i []
  Ok objects i (backing_off attempts ib) = Idle objects i × Ready objects i []
  Ok objects i succeeding = Idle objects i × Ready objects i []
  Ok objects i (failing e) = Idle objects i
  Ok objects i _ = Unit

  pub record Inv (objects : ℕ → Object) (pcs : ℕ → Pc) : Type 0 where
    pub goroutines : (i : ℕ) → Ok objects i (pcs i)
    pub served : (i : ℕ) → (objects i).started ≡ true → Ready objects i []

  module _ (objects objects' : ℕ → Object)
      (grows : (j : ℕ) → Growing (objects j) (objects' j)) where
    pub Ready-grows : (i : ℕ) (todo : List String) → Ready objects i todo → Ready objects' i todo
    unfolding dependencies
    Ready-grows i todo r d m = elim (r d (subst (λ ds. In d ds) (grows i).deps m)) [
      | inl todo ↦ inl todo
      | inr s ↦
          inr (record { address = s.address; found = s.found; on = (grows s.address).kept s.on })
    ]

    pub Ok-grows :
        (i : ℕ) (pc : Pc)
        → (objects' i).started ≡ (objects i).started
        → Ok objects i pc
        → Ok objects' i pc
    Ok-grows i entry e h = tt
    Ok-grows i (waiting todo) e h = (e ∙ h.0, Ready-grows i todo h.1)
    Ok-grows i (receiving d j c todo) e h = (
      e ∙ h.0,
      Ready-grows i (d ∷ todo) h.1,
      h.2,
      omega (arith, h.3, (grows j).later),
      λ closed. elim ((grows j).closing c h.3 closed) [
        | inl on ↦ on
        | inr before ↦ (grows j).kept (h.4 before)
      ],
    )
    Ok-grows i (calling a ib) e h = (e ∙ h.0, Ready-grows i [] h.1)
    Ok-grows i (backing_off a ib) e h = (e ∙ h.0, Ready-grows i [] h.1)
    Ok-grows i (failing err) e h = e ∙ h
    Ok-grows i succeeding e h = (e ∙ h.0, Ready-grows i [] h.1)
    Ok-grows i (reporting err) e h = tt
    Ok-grows i finished e h = tt
    Ok-grows i crashed e h = tt

    -- A step of the goroutine `i`, which alone may start or stop its own service.
    pub step-Inv :
        (pcs : ℕ → Pc) (i : ℕ) (pc : Pc)
        → Inv objects pcs
        → ((k : ℕ) → i ≢ k → (objects' k).started ≡ (objects k).started)
        → Ok objects' i pc
        → ((objects' i).started ≡ true → Ready objects' i [])
        → Inv objects' (update pcs i pc)
    step-Inv pcs i pc inv same ok served = record {
      goroutines = λ k. elim (ℕ_discrete i k) [
        | yes e ↦ subst (λ x. Ok objects' x (update pcs i pc x)) e (rw (update_self pcs i pc) ok)
        | no n ↦ rw (update_ne pcs i pc k n) (Ok-grows k (pcs k) (same k n) (inv.goroutines k))
      ];
      served = λ k on. elim (ℕ_discrete i k) [
        | yes e ↦ rw (← e) (served (rw e on))
        | no n ↦ Ready-grows k [] (inv.served k (sym (same k n) ∙ on))
      ];
    }

  -- A step that writes `o` to the address `j`.
  module _ (objects : ℕ → Object) (j : ℕ) (o : Object) (grow : Growing (objects j) o) where
    -- One that neither starts nor stops a service.
    pub quiet-Inv :
        (pcs : ℕ → Pc) (i : ℕ) (pc : Pc)
        → o.started ≡ (objects j).started
        → Inv objects pcs
        → Ok (update objects j o) i pc
        → Inv (update objects j o) (update pcs i pc)
    quiet-Inv pcs i pc same inv ok =
        step-Inv objects (update objects j o) (write-Grows is_started objects j o grow) pcs i pc inv
          (λ k _. write_flag is_started objects j o same k) ok
          (λ on.
            Ready-grows objects (update objects j o) (write-Grows is_started objects j o grow) i []
              (inv.served i (sym (write_flag is_started objects j o same i) ∙ on)))

    pub outside-Inv :
        (pcs : ℕ → Pc)
        → o.started ≡ (objects j).started
        → Inv objects pcs
        → Inv (update objects j o) pcs
    outside-Inv pcs same inv = record {
      goroutines = λ k.
          Ok-grows objects (update objects j o) (write-Grows is_started objects j o grow) k (pcs k)
            (write_flag is_started objects j o same k) (inv.goroutines k);
      served = λ k on.
          Ready-grows objects (update objects j o) (write-Grows is_started objects j o grow) k []
            (inv.served k (sym (write_flag is_started objects j o same k) ∙ on));
    }

  pub jump-Inv :
      (objects : ℕ → Object) (pcs : ℕ → Pc) (i : ℕ) (pc : Pc)
      → Inv objects pcs
      → Ok objects i pc
      → Inv objects (update pcs i pc)
  jump-Inv objects pcs i pc inv ok =
      step-Inv objects objects (λ k. Grows-refl is_started (objects k)) pcs i pc inv (λ k _. refl)
        ok (inv.served i)

  -- The end of a start of one's own service.
  pub own-Inv :
      (objects : ℕ → Object) (pcs : ℕ → Pc) (i : ℕ) (pc : Pc) (o : Object)
      → Growing (objects i) o
      → Inv objects pcs
      → Ok (update objects i o) i pc
      → (o.started ≡ true → Ready objects i [])
      → Inv (update objects i o) (update pcs i pc)
  own-Inv objects pcs i pc o grow inv ok served =
      step-Inv objects (update objects i o) (write-Grows is_started objects i o grow) pcs i pc inv
        (λ k n. ap (λ x. x.started) (update_ne objects i o k n)) ok
        (λ on.
          Ready-grows objects (update objects i o) (write-Grows is_started objects i o grow) i []
            (served (ap (λ x. x.started) (sym (update_self objects i o)) ∙ on)))

  -- The dependency at the head is started.
  pub Ready-tail :
      (objects : ℕ → Object) (i : ℕ) (d : String) (todo : List String)
      → Ready objects i (d ∷ todo)
      → IsStarted objects d
      → Ready objects i todo
  Ready-tail objects i d todo r s x m = elim (r x m) [
    | inl (inl e) ↦ inr (rw e s)
    | inl (inr t) ↦ inl t
    | inr other ↦ inr other
  ]

  pub Ok-after_next :
      (objects : ℕ → Object) (i attempts ib : ℕ) (n : Next)
      → Idle objects i × Ready objects i []
      → Ok objects i (after_next i attempts ib n)
  unfolding after_next
  Ok-after_next objects i attempts ib success h = h
  Ok-after_next objects i attempts ib (give_up err) h = h.0
  Ok-after_next objects i attempts ib back_off h = h
