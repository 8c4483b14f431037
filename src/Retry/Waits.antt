-- ===== src/Retry/Waits.antt =====
-- maestro.go: how long the retry loop waits.
use bandmaster.Base.{ℕ, zero, suc, ◌+◌, ◌≡◌, Option, none, some, List, [], ◌∷◌, ◌++◌}
use bandmaster.Retry.Defs.{Ending, cancelled, Run, double}

-- The first `n` waits from `ib`, each twice the one before it in a 64-bit word.
doublings : ℕ → ℕ → List ℕ
doublings ib zero = []
doublings ib (suc n) = ib ∷ doublings (double ib) n

-- The i-th of them, from 0.
unfoldable pub wait_at : List ℕ → ℕ → Option ℕ
wait_at [] i = none
wait_at (w ∷ ws) zero = some w
wait_at (w ∷ ws) (suc i) = wait_at ws i

-- The wait that a cancelled run was in.
unfoldable pub unfinished : Ending → ℕ
unfinished cancelled = 1
unfinished _ = 0

-- What `n` waits from `ib`, behind the call `c` and the waits before it, make of a run.
record Waited (ib c : ℕ) (before : List ℕ) (r : Run) : Type 0 where
  count : ℕ
  spent : r.waits ≡ before ++ doublings ib count
  counted : c + count ≡ r.calls + unfinished r.ending
