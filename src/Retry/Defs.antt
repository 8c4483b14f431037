-- ===== src/Retry/Defs.antt =====
-- maestro.go: the loop at the end of `start` (and of `stop`) that calls the service's own Start (or
-- Stop) until it succeeds, the attempts are used up, or the context is cancelled during a wait.
use bandmaster.Base.{
  ℕ, zero, suc, ◌+◌, ◌*◌, ◌%◌, ◌^◌, String, Bool, true, false, Option, none, some, List, [], ◌∷◌,
  ◌++◌, leb, if◌then◌else◌,
}

-- What the code does not control: the result of the n-th call, from 1, and whether the wait behind
-- it ends by `ctx.Done()` and not by the timer.
pub record Environment : Type 0 where
  pub call : ℕ → Option String
  pub done : ℕ → Bool

-- `attempts++` on a uint and `ib *= 2` on an int64, by its bits.
abbrev pub word : ℕ → ℕ
word n = n % 2 ^ 64

abbrev pub increment : ℕ → ℕ
increment attempts = word (attempts + 1)

abbrev pub double : ℕ → ℕ
double ib = word (ib * 2)

-- What follows a call: success, the last error, or a wait.
pub data Next : Type 0 where
  success : Next
  give_up : String → Next
  back_off : Next

-- The tests of the loop, `err != nil` and `attempts >= maxRetries`.
unfoldable pub next : ℕ → ℕ → Option String → Next
next max_retries attempts none = success
next max_retries attempts (some err) = if leb max_retries attempts then give_up err else back_off

pub data Ending : Type 0 where
  succeeded : Ending
  gave_up : String → Ending
  cancelled : Ending

-- How the loop ended, after how many calls, and the times that it chose to wait.
pub record Run : Type 0 where
  pub ending : Ending
  pub calls : ℕ
  pub waits : List ℕ

-- The loop, on fuel, behind the call number `calls`.
unfoldable pub loop : Environment → ℕ → ℕ → ℕ → ℕ → ℕ → List ℕ → Option Run
loop env max_retries zero attempts ib calls waits = none
loop env max_retries (suc fuel) attempts ib calls waits =
    elim (next max_retries attempts (env.call calls)) [
      | success ↦ some (record { ending = succeeded; calls = calls; waits = waits })
      | give_up err ↦ some (record { ending = gave_up err; calls = calls; waits = waits })
      | back_off ↦ elim (env.done calls) [
        | true ↦ some (record { ending = cancelled; calls = calls; waits = waits ++ ib ∷ [] })
        | false ↦
            loop env max_retries fuel (increment attempts) (double ib) (calls + 1)
              (waits ++ ib ∷ [])
      ]
    ]

-- The first call and the loop.
unfoldable pub retry : Environment → ℕ → ℕ → ℕ → Option Run
retry env max_retries initial_backoff fuel = loop env max_retries fuel 1 initial_backoff 1 []
