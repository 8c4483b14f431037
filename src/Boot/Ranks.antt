-- ===== src/Boot/Ranks.antt =====
-- maestro.go: how many steps a goroutine of StartAll still has before it at most.
use bandmaster.Base.{
  ℕ, ◌+◌, ◌-◌, ◌*◌, ◌^◌, ◌<◌, ◌≡◌, String, Option, none, some, length, arith, leb, if_ind,
}
use bandmaster.Retry.{next, increment}
use bandmaster.Boot.Defs.{
  Pc, entry, waiting, receiving, calling, backing_off, failing, succeeding, reporting, finished,
  crashed, after_next, after_call,
}

-- With `m` retries and `d` dependencies.
unfoldable pub rank : ℕ → ℕ → Pc → ℕ
rank m d entry = 5 + 2 * m + 2 * d
rank m d (waiting todo) = 4 + 2 * m + 2 * length todo
rank m d (receiving dep j c todo) = 5 + 2 * m + 2 * length todo
rank m d (calling attempts ib) = 3 + 2 * (m - attempts)
rank m d (backing_off attempts ib) = 2 + 2 * (m - attempts)
rank m d (failing e) = 2
rank m d succeeding = 1
rank m d (reporting e) = 1
rank m d finished = 0
rank m d crashed = 0

pub rank-after_call :
    (m d i attempts ib : ℕ) (result : Option String)
    → rank m d (after_call i m attempts ib result) < rank m d (calling attempts ib)
unfolding rank after_call after_next next
rank-after_call m d i attempts ib none = omega arith
rank-after_call m d i attempts ib (some err) =
    if_ind (λ n. rank m d (after_next i attempts ib n) < 3 + 2 * (m - attempts)) (leb m attempts)
      (λ last. omega arith) (λ more. omega arith)

-- The counter of attempts does not wrap around below the number of retries.
pub rank-increment :
    (m d attempts ib ib' : ℕ)
    → attempts < m
    → m < 2 ^ 64
    → rank m d (calling (increment attempts) ib') < rank m d (backing_off attempts ib)
unfolding rank
rank-increment m d attempts ib ib' less small =
    let same : increment attempts ≡ attempts + 1 = omega (arith, less, small) in
    rw same (omega (arith, less))
