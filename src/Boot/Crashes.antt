-- ===== src/Boot/Crashes.antt =====
-- maestro.go: a goroutine of StartAll that calls a nil service.
use bandmaster.Base.{ℕ, ◌≡◌, sym, ap, ◌∙◌, ◌≢◌, ◌⊎◌, inl, inr, String, none, List, ◌∷◌}
use native.Mathlib.Decide.{ℕ_discrete}
use bandmaster.Base.Dict.{lookup}
use bandmaster.Base.Family.{update, update_self, update_ne}
use bandmaster.Registry.{Maestro}
use bandmaster.Retry.{Next, success, give_up, back_off}
use bandmaster.Boot.Defs.{
  Pc, waiting, crashed, System, after_call, after_next, Step, already, abort, go_on, subscribe,
  nil_service, dependency_ready, dependency_failed, dependencies_ready, call, timer, interrupt,
  fail, succeed, report, cancel, outside,
}

after_next-ne-crashed : (i attempts ib : ℕ) (n : Next) → after_next i attempts ib n ≢ crashed
unfolding after_next
after_next-ne-crashed i attempts ib success = λ e. cc
after_next-ne-crashed i attempts ib (give_up err) = λ e. cc
after_next-ne-crashed i attempts ib back_off = λ e. cc

crashed_before :
    (pcs : ℕ → Pc) (i : ℕ) (pc : Pc) (k : ℕ)
    → pc ≢ crashed
    → update pcs i pc k ≡ crashed
    → pcs k ≡ crashed
crashed_before pcs i pc k ne e = elim (ℕ_discrete i k) [
  | yes same ↦ absurd (ne (sym (update_self pcs i pc) ∙ ap (update pcs i pc) same ∙ e))
  | no n ↦ sym (update_ne pcs i pc k n) ∙ e
]

module _ (services : Maestro) (ctx_err : String) where
  -- The goroutine `k` is about to call a service that is not registered.
  pub record IsLost (s : System) (k : ℕ) : Type 0 where
    pub dep : String
    pub todo : List String
    pub at : s.pcs k ≡ waiting (dep ∷ todo)
    pub unknown : lookup dep services ≡ none

  pub Step-crashed :
      (s t : System) (k : ℕ)
      → Step services ctx_err s t
      → t.pcs k ≡ crashed
      → (s.pcs k ≡ crashed) ⊎ IsLost s k
  unfolding after_call
  Step-crashed s t k (nil_service i d todo at found) e = elim (ℕ_discrete i k) [
    | yes same ↦
        inr (record { dep = d; todo = todo; at = ap s.pcs (sym same) ∙ at; unknown = found })
    | no n ↦ inl (sym (update_ne s.pcs i crashed k n) ∙ e)
  ]
  Step-crashed s t k (already i at on) e = inl (crashed_before s.pcs i _ k (λ q. cc) e)
  Step-crashed s t k (abort i at c) e = inl (crashed_before s.pcs i _ k (λ q. cc) e)
  Step-crashed s t k (go_on i order at off c same once) e =
      inl (crashed_before s.pcs i _ k (λ q. cc) e)
  Step-crashed s t k (subscribe i j d todo at found) e =
      inl (crashed_before s.pcs i _ k (λ q. cc) e)
  Step-crashed s t k (dependency_ready i j c d todo ch at got) e =
      inl (crashed_before s.pcs i _ k (λ q. cc) e)
  Step-crashed s t k (dependency_failed i j c d todo x ch at got) e =
      inl (crashed_before s.pcs i _ k (λ q. cc) e)
  Step-crashed s t k (dependencies_ready i at) e = inl (crashed_before s.pcs i _ k (λ q. cc) e)
  Step-crashed s t k (call i attempts ib result at) e =
      inl (crashed_before s.pcs i _ k (after_next-ne-crashed i attempts ib _) e)
  Step-crashed s t k (timer i attempts ib at) e = inl (crashed_before s.pcs i _ k (λ q. cc) e)
  Step-crashed s t k (interrupt i attempts ib at c) e = inl (crashed_before s.pcs i _ k (λ q. cc) e)
  Step-crashed s t k (fail i x r o at did) e = inl (crashed_before s.pcs i _ k (λ q. cc) e)
  Step-crashed s t k (succeed i r o at did) e = inl (crashed_before s.pcs i _ k (λ q. cc) e)
  Step-crashed s t k (report i x c at sent) e = inl (crashed_before s.pcs i _ k (λ q. cc) e)
  Step-crashed s t k cancel e = inl e
  Step-crashed s t k (outside j) e = inl e
