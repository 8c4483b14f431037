-- ===== src/Goroutines/Attempts.antt =====
-- maestro.go: the loop of attempts of a goroutine, in its steps and as a function.
use bandmaster.Base.{
  nat_eq, if◌then◌else◌, ℕ, suc, ◌+◌, ◌≡◌, refl, sym, ap, ◌∙◌, String, true, false, Option, some,
  List, [], ◌∷◌, ◌++◌, arith, subst,
}
use native.Mathlib.Decide.{ℕ_discrete}
use bandmaster.Base.Family.{update, update_keeps}
use bandmaster.ServiceBase.{Object}
use bandmaster.Retry.{
  Environment, success, give_up, back_off, next, Ending, succeeded, gave_up, cancelled, Run, loop,
  increment, double, retry,
}
use bandmaster.Retry.Rounds.{loop-success, loop-give_up, loop-done, loop-back_off}

-- What a goroutine meets in the loop: the result of a call, the end of a wait by the timer or by the
-- context.
pub data Event : Type 0 where
  called : Option String → Event
  waited : Event
  interrupted : Event

-- The waits that a history, the latest event first, has behind it.
abbrev pub rounds : List Event → ℕ
rounds [] = 0
rounds (called result ∷ es) = rounds es
rounds (waited ∷ es) = suc (rounds es)
rounds (interrupted ∷ es) = rounds es

module _ (env : Environment) where
  -- The environment has the results and the ends of the waits of the history.
  abbrev pub Agrees : List Event → Type 0
  Agrees [] = Unit
  Agrees (called result ∷ es) = (env.call (suc (rounds es)) ≡ result) × Agrees es
  Agrees (waited ∷ es) = (env.done (suc (rounds es)) ≡ false) × Agrees es
  Agrees (interrupted ∷ es) = (env.done (suc (rounds es)) ≡ true) × Agrees es

  pub Agrees-tail : (now es : List Event) → Agrees (now ++ es) → Agrees es
  Agrees-tail [] es h = h
  Agrees-tail (called result ∷ now) es h = Agrees-tail now es h.1
  Agrees-tail (waited ∷ now) es h = Agrees-tail now es h.1
  Agrees-tail (interrupted ∷ now) es h = Agrees-tail now es h.1

  module _ (retries ib : ℕ) where
    -- The function is before a call, behind as many rounds as the history.
    abbrev pub IsTrying : ℕ → ℕ → List Event → Type 0
    IsTrying attempts wait es =
        (waits : List ℕ) × ((fuel : ℕ)
          → retry env retries ib (rounds es + fuel)
            ≡ loop env retries fuel attempts wait (suc (rounds es)) waits)

    -- It is in the wait behind that call.
    abbrev pub IsWaiting : ℕ → ℕ → List Event → Type 0
    IsWaiting attempts wait es =
        IsTrying attempts wait es × (next retries attempts (env.call (suc (rounds es))) ≡ back_off)

    -- It has ended, with as many calls as the history.
    abbrev pub HasEnded : Ending → List Event → Type 0
    HasEnded ending es =
        (run : Run) × (retry env retries ib (rounds es + 1) ≡ some run)
        × (run.ending ≡ ending)
        × (run.calls ≡ suc (rounds es))

    pub begins : IsTrying 1 ib []
    unfolding retry
    begins = ([], λ fuel. ap (λ n. loop env retries n 1 ib 1 []) (omega arith))

    module _ (attempts wait : ℕ) (es : List Event) where
      pub succeeds :
          (result : Option String)
          → IsTrying attempts wait es
          → env.call (suc (rounds es)) ≡ result
          → next retries attempts result ≡ success
          → HasEnded succeeded (called result ∷ es)
      succeeds result (waits, so_far) call e = (
        _,
        so_far 1
            ∙ loop-success env retries 0 attempts wait (suc (rounds es)) waits
                (ap (next retries attempts) call ∙ e),
        refl,
        refl,
      )

      pub gives_up :
          (result : Option String) (err : String)
          → IsTrying attempts wait es
          → env.call (suc (rounds es)) ≡ result
          → next retries attempts result ≡ give_up err
          → HasEnded (gave_up err) (called result ∷ es)
      gives_up result err (waits, so_far) call e = (
        _,
        so_far 1
            ∙ loop-give_up env retries 0 attempts wait (suc (rounds es)) waits err
                (ap (next retries attempts) call ∙ e),
        refl,
        refl,
      )

      pub backs_off :
          (result : Option String)
          → IsTrying attempts wait es
          → env.call (suc (rounds es)) ≡ result
          → next retries attempts result ≡ back_off
          → IsWaiting attempts wait (called result ∷ es)
      backs_off result trying call e = (trying, ap (next retries attempts) call ∙ e)

      pub goes_on :
          IsWaiting attempts wait es
          → env.done (suc (rounds es)) ≡ false
          → IsTrying (increment attempts) (double wait) (waited ∷ es)
      goes_on ((waits, so_far), e) go = (
        waits ++ wait ∷ [],
        λ fuel.
            let same : suc (rounds es) + fuel ≡ rounds es + suc fuel = omega arith in
            let calls : suc (rounds es) + 1 ≡ suc (suc (rounds es)) = omega arith in
            ap (retry env retries ib) same
            ∙ so_far (suc fuel)
            ∙ loop-back_off env retries fuel attempts wait (suc (rounds es)) waits e go
            ∙ ap
                (λ n.
                  loop env retries fuel (increment attempts) (double wait) n (waits ++ wait ∷ []))
                calls,
      )

      pub is_cancelled :
          IsWaiting attempts wait es
          → env.done (suc (rounds es)) ≡ true
          → HasEnded cancelled (interrupted ∷ es)
      is_cancelled ((waits, so_far), e) stop = (
        _,
        so_far 1 ∙ loop-done env retries 0 attempts wait (suc (rounds es)) waits e stop,
        refl,
        refl,
      )

-- A write to the service at `j` that leaves its number of retries.
pub write-retries :
    (objects : ℕ → Object) (j : ℕ) (o : Object)
    → o.retries ≡ (objects j).retries
    → (k : ℕ) → (update objects j o k).retries ≡ (objects k).retries
write-retries objects j o same k =
    update_keeps objects j o (λ x. x.retries ≡ (objects k).retries) k
      (λ e. same ∙ ap (λ i. (objects i).retries) e) refl

-- `P` says how the goroutine `i` can stand behind its events.
module _ {Pc : Type 0} (env : Environment) (i : ℕ) (P : List Event → Pc → Type 0) (pcs : ℕ → Pc)
    (es : List Event) where
  -- A step of the goroutine `j` that is no event.
  pub turned :
      (j : ℕ) (old pc : Pc)
      → pcs j ≡ old
      → (P es old → P es pc)
      → P es (pcs i)
      → P es (update pcs j pc i)
  turned j old pc at go h =
      update_keeps pcs j pc (P es) i (λ same. go (subst (P es) (ap pcs (sym same) ∙ at) h)) h

  -- A step of the goroutine `j` that is an event of its own.
  pub eventful :
      (now : Event) (j : ℕ) (old pc : Pc)
      → pcs j ≡ old
      → (j ≡ i → P es old → Agrees env (now ∷ es) → P (now ∷ es) pc)
      → Agrees env ((if nat_eq j i then now ∷ [] else []) ++ es)
      → P es (pcs i)
      → P ((if nat_eq j i then now ∷ [] else []) ++ es) (update pcs j pc i)
  eventful now j old pc at go agrees h = elim (ℕ_discrete j i) [
    | yes same ↦
        let own : nat_eq j i ≡ true = ground (arith, same) in
        let agrees' : Agrees env (now ∷ es) = rw own at agrees in
        rw own (go same (subst (P es) (ap pcs (sym same) ∙ at) h) agrees')
    | no n ↦ let other : nat_eq j i ≡ false = ground (arith, n) in rw other h
  ]
