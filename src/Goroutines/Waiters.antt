-- ===== src/Goroutines/Waiters.antt =====
-- maestro.go: what the goroutines of StartAll, or those of StopAll, wait for.
use bandmaster.Base.{ℕ, ◌≡◌, subst}
use native.Mathlib.Decide.{ℕ_discrete}
use bandmaster.Base.Family.{update, update_self, update_ne}
use bandmaster.ServiceBase.{Object}
use bandmaster.ServiceBase.Invariant.{IsValid}

-- `Waiting` says what a goroutine waits for where it stands.
module _ {Pc : Type 0} (Waiting : (ℕ → Object) → ℕ → Pc → Type 0) where
  pub record Waits (objects : ℕ → Object) (pcs : ℕ → Pc) : Type 0 where
    pub valid : (j : ℕ) → IsValid (objects j)
    pub waiting : (i : ℕ) → Waiting objects i (pcs i)

  module _ (objects objects' : ℕ → Object) (valid : (k : ℕ) → IsValid (objects' k))
      (keep : (i : ℕ) (pc : Pc) → Waiting objects i pc → Waiting objects' i pc) (pcs : ℕ → Pc)
      (w : Waits objects pcs) where
    pub still-Waits : Waits objects' pcs
    still-Waits = record { valid = valid; waiting = λ k. keep k (pcs k) (w.waiting k) }

    pub turn-Waits : (i : ℕ) (pc : Pc) → Waiting objects' i pc → Waits objects' (update pcs i pc)
    turn-Waits i pc h = record {
      valid = valid;
      waiting = λ k. elim (ℕ_discrete i k) [
        | yes e ↦
            subst (λ x. Waiting objects' x (update pcs i pc x)) e (rw (update_self pcs i pc) h)
        | no n ↦ rw (update_ne pcs i pc k n) (keep k (pcs k) (w.waiting k))
      ];
    }

  pub Waiting-of :
      (objects : ℕ → Object) (pcs : ℕ → Pc) (i : ℕ) (pc : Pc)
      → Waits objects pcs
      → pcs i ≡ pc
      → Waiting objects i pc
  Waiting-of objects pcs i pc w at = subst (Waiting objects i) at (w.waiting i)
