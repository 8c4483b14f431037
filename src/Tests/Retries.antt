-- ===== src/Tests/Retries.antt =====
-- The retry loop on a service that fails twice.
use bandmaster.Base.{◌≡◌, false, none, some, [], ◌∷◌, arith, ltb, if◌then◌else◌}
use Prim.Native.Nat.{max}
use bandmaster.Retry.{Environment, Run, retry, succeeded}
use bandmaster.Retry.Ends.{IsOutcome, retry_ends}

abbrev flaky : Environment
flaky = record { call = λ n. if ltb n 3 then some "not yet" else none; done = λ n. false }

retry_ends_example : (r : Run) × (retry flaky 5 100 5 ≡ some r) × IsOutcome flaky (max 1 5) r
retry_ends_example = retry_ends flaky 5 (omega arith) 100 5 (omega arith)

abbrev run : Run
run = record { ending = succeeded; calls = 3; waits = 100 ∷ 200 ∷ [] }
