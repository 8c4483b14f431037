-- ===== src/Retry/Rounds.antt =====
-- maestro.go: one round of the loop of attempts, by what follows the call.
use bandmaster.Base.{
  ℕ, suc, ◌+◌, ◌≡◌, refl, ◌⊎◌, inl, inr, String, true, false, Option, some, List, [], ◌∷◌, ◌++◌,
}
use bandmaster.Retry.Defs.{
  Environment, Next, next, success, give_up, back_off, succeeded, gave_up, cancelled, Run, loop,
  increment, double,
}

pub Next_cases : (n : Next) → (n ≡ success) ⊎ ((err : String) × (n ≡ give_up err)) ⊎ (n ≡ back_off)
Next_cases success = inl refl
Next_cases (give_up err) = inr (inl (err, refl))
Next_cases back_off = inr (inr refl)

module _ (env : Environment) (max_retries fuel attempts ib calls : ℕ) (waits : List ℕ) where
  abbrev round : Option Run
  round = loop env max_retries (suc fuel) attempts ib calls waits

  pub loop-success :
      next max_retries attempts (env.call calls) ≡ success
      → round ≡ some (record { ending = succeeded; calls = calls; waits = waits })
  unfolding loop
  loop-success e = rw (e, loop)

  pub loop-give_up :
      (err : String)
      → next max_retries attempts (env.call calls) ≡ give_up err
      → round ≡ some (record { ending = gave_up err; calls = calls; waits = waits })
  unfolding loop
  loop-give_up err e = rw (e, loop)

  pub loop-done :
      next max_retries attempts (env.call calls) ≡ back_off
      → env.done calls ≡ true
      → round ≡ some (record { ending = cancelled; calls = calls; waits = waits ++ ib ∷ [] })
  unfolding loop
  loop-done e stop = rw (e, loop) (rw (stop, loop))

  pub loop-back_off :
      next max_retries attempts (env.call calls) ≡ back_off
      → env.done calls ≡ false
      → round
        ≡ loop env max_retries fuel (increment attempts) (double ib) (calls + 1) (waits ++ ib ∷ [])
  unfolding loop
  loop-back_off e go = rw (e, loop) (rw (go, loop))
