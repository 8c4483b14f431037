-- ===== src/Retry/Ends.antt =====
-- maestro.go: the retry loop ends, and how.
use bandmaster.Base.{
  ℕ, zero, suc, ◌+◌, ◌<◌, ◌≤◌, ◌^◌, ◌≡◌, String, true, false, Option, none, some, List, [], ◌∷◌,
  ◌++◌, arith, ◌∙◌, Bool-cases, Option-cases, inl, inr,
}
use Prim.Native.Nat.{max}
use native.Mathlib.Decide.{ℕ_discrete, dec_le}
use bandmaster.Retry.Defs.{
  Environment, next, success, give_up, back_off, Ending, succeeded, gave_up, cancelled, Run, loop,
  retry, increment, double,
}

-- The calls before the n-th failed, and none of the waits between them was cancelled.
abbrev pub FailedBefore : Environment → ℕ → Type 0
FailedBefore env n =
    (k : ℕ) → 1 ≤ k → k < n → ((err : String) × (env.call k ≡ some err)) × (env.done k ≡ false)

-- How a run ends, by the environment alone. `top` calls at most are made.
abbrev pub Explained : Environment → ℕ → ℕ → Ending → Type 0
Explained env top n succeeded = env.call n ≡ none
Explained env top n (gave_up err) = (env.call n ≡ some err) × (n ≡ top)
Explained env top n cancelled =
    ((err : String) × (env.call n ≡ some err)) × (env.done n ≡ true) × (n < top)

pub record IsOutcome (env : Environment) (top : ℕ) (r : Run) : Type 0 where
  pub first : 1 ≤ r.calls
  pub capped : r.calls ≤ top
  pub before : FailedBefore env r.calls
  pub explained : Explained env top r.calls r.ending

-- One round of the loop, by what `next` says.
module _ (env : Environment) (max_retries fuel n ib : ℕ) (waits : List ℕ) where
  abbrev round : Option Run
  round = loop env max_retries (suc fuel) n ib n waits

  round-success :
      env.call n ≡ none → round ≡ some (record { ending = succeeded; calls = n; waits = waits })
  unfolding loop next
  round-success e = let h : next max_retries n (env.call n) ≡ success = rw (e, next) in rw (h, loop)

  round-give_up :
      (err : String)
      → env.call n ≡ some err
      → max_retries ≤ n
      → round ≡ some (record { ending = gave_up err; calls = n; waits = waits })
  unfolding loop next
  round-give_up err e b =
      let h : next max_retries n (env.call n) ≡ give_up err = rw e (ground arith) in rw (h, loop)

  back :
      (err : String)
      → env.call n ≡ some err
      → n < max_retries
      → next max_retries n (env.call n) ≡ back_off
  unfolding next
  back err e b = rw e (ground arith)

  round-cancelled :
      (err : String)
      → env.call n ≡ some err
      → n < max_retries
      → env.done n ≡ true
      → round ≡ some (record { ending = cancelled; calls = n; waits = waits ++ ib ∷ [] })
  unfolding loop
  round-cancelled err e b stop = rw (back err e b, loop) (rw (stop, loop))

  round-again :
      (err : String)
      → env.call n ≡ some err
      → n < max_retries
      → n + 1 < 2 ^ 64
      → env.done n ≡ false
      → round ≡ loop env max_retries fuel (n + 1) (double ib) (n + 1) (waits ++ ib ∷ [])
  unfolding loop
  round-again err e b fits go =
      let same : increment n ≡ n + 1 = omega arith in
      rw (back err e b, loop) (rw (go, loop) (rw same))

FailedBefore-next :
    (env : Environment) (n : ℕ) (err : String)
    → FailedBefore env n
    → env.call n ≡ some err
    → env.done n ≡ false
    → FailedBefore env (n + 1)
FailedBefore-next env n err d failed go k a b = elim (ℕ_discrete k n) [
  | yes e ↦ rw e ((err, failed), go)
  | no ne ↦ d k a (omega arith)
]

module _ (env : Environment) (max_retries : ℕ) (fits : max_retries < 2 ^ 64) where
  loop_ends :
      (fuel n ib : ℕ) (waits : List ℕ)
      → 1 ≤ n
      → n ≤ max 1 max_retries
      → max 1 max_retries < n + fuel
      → FailedBefore env n
      → (r : Run) × (loop env max_retries fuel n ib n waits ≡ some r)
        × IsOutcome env (max 1 max_retries) r
  loop_ends zero n ib waits a b c d = absurd (omega arith)
  loop_ends (suc fuel) n ib waits a b c d = elim (Option-cases (env.call n)) [
    | inl e ↦ (
      _,
      round-success env max_retries fuel n ib waits e,
      record { first = a; capped = b; before = d; explained = e },
    )
    | inr (err, e) ↦ elim (dec_le max_retries n) [
      | yes last ↦ (
        _,
        round-give_up env max_retries fuel n ib waits err e last,
        record { first = a; capped = b; before = d; explained = (e, omega arith) },
      )
      | no more ↦ elim (Bool-cases (env.done n)) [
        | inl stop ↦ (
          _,
          round-cancelled env max_retries fuel n ib waits err e (omega arith) stop,
          record { first = a; capped = b; before = d; explained = ((err, e), stop, omega arith) },
        )
        | inr go ↦
            let (r, ends, outcome) =
              loop_ends fuel (n + 1) (double ib) (waits ++ ib ∷ []) (omega arith) (omega arith)
                (omega arith) (FailedBefore-next env n err d e go) in
            (
              r,
              round-again env max_retries fuel n ib waits err e (omega arith) (omega arith) go
                  ∙ ends,
              outcome,
            )
      ]
    ]
  ]

  -- The retry loop ends, whatever the service and the context do, if `maxRetries` fits a word of 64
  -- bits: `maxRetries` rounds are enough,
  -- or one if that is 0. It makes at most that many calls, and at least one; all before the last
  -- failed, and no wait before it was cancelled. It succeeds exactly at a call that succeeds, gives up
  -- only on the error of the last call allowed, and is cancelled only while it waits for another.
  pub retry_ends :
      (initial_backoff fuel : ℕ)
      → max 1 max_retries ≤ fuel
      → (r : Run) × (retry env max_retries initial_backoff fuel ≡ some r)
        × IsOutcome env (max 1 max_retries) r
  unfolding retry
  retry_ends ib fuel enough =
      loop_ends fuel 1 ib [] (omega arith) (omega arith) (omega arith)
        (λ k a b. absurd (omega arith))
