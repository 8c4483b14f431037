-- ===== src/Boot/Objects.antt =====
-- service.go: what the goroutines of StartAll can do to a service, as far as waiting depends on it.
use bandmaster.Base.{
  ℕ, ◌<◌, ◌≡◌, refl, ap, true, false, Bool, Option, none, some, [], Outcome, arith, and_then,
  modify, pure, ◌>>◌, returned, panicked, blocked, and_then-pure_state, if_ind,
}
use bandmaster.Errors.{Err}
use bandmaster.Channel.{send, close}
use bandmaster.ServiceBase.{ServiceBase, Object, start, started_channel, allocate, each, set_state}
use bandmaster.ServiceBase.Channels.{base-each}
use bandmaster.Goroutines.Grows

abbrev pub is_started : ServiceBase → Bool
is_started b = b.started

abbrev pub Growing : Object → Object → Type 0
Growing = Grows.Grows is_started

-- `Started` by whomever.
pub started_channel-Grows :
    (o : Object)
    → Growing o (started_channel o).1
      × ((started_channel o).1.started ≡ o.started)
      × ((started_channel o).0 < (started_channel o).1.next)
unfolding started_channel allocate
started_channel-Grows o =
    if_ind (λ (r : ℕ × Object). Growing o r.1 × (r.1.started ≡ o.started) × (r.0 < r.1.next))
      o.started
      (λ _. (Grows.allocate-Grows is_started _ o o.base refl refl refl refl, refl, omega arith))
      (λ _. (Grows.allocate-Grows is_started _ o _ refl refl refl refl, refl, omega arith))

-- A new channel is closed only if the service is started.
pub started_channel-closed :
    (o : Object)
    → ((started_channel o).1.chans (started_channel o).0).closed ≡ true
    → o.started ≡ true
unfolding started_channel allocate
started_channel-closed o = ground arith

-- A failure of a service that is not started.
pub start_err-Grows :
    (e : Err) (o : Object)
    → o.started ≡ false
    → Growing o (start (some e) o).1 × ((start (some e) o).1.started ≡ false)
unfolding start
start_err-Grows e o h =
    let t : Object = set_state false (some e) true none o in
    rw
      (and_then-pure_state (each (send e) o.started_cs t).0 (some e)
        (each (send e) o.started_cs t).1)
      (Grows.send_all-Grows is_started e o.started_cs o t.base refl refl refl h refl)

-- The subscribers are forgotten, if closing their channels returned.
ended-Grows :
    (r : Outcome Err (Unit {0})) (t o : Object)
    → t.name ≡ o.name
    → t.direct_deps ≡ o.direct_deps
    → t.retries ≡ o.retries
    → t.next ≡ o.next
    → t.started ≡ true
    → let u =
        (and_then r
          (λ _.
            modify (λ o. record o { base = record o.base { started_cs = [] } })
            >> pure {A = Option Err} none)
          t).1 in
      Growing o u × (u.started ≡ true)
ended-Grows (returned a) t o named deps retry next on =
    (Grows.set-Grows is_started o _ named deps retry next on, on)
ended-Grows (panicked e) t o named deps retry next on =
    (Grows.set-Grows is_started o t named deps retry next on, on)
ended-Grows blocked t o named deps retry next on =
    (Grows.set-Grows is_started o t named deps retry next on, on)

-- A success.
pub start-none-Grows : (o : Object) → Growing o (start none o).1 × ((start none o).1.started ≡ true)
unfolding start
start-none-Grows o =
    if_ind (λ (r : Outcome Err (Option Err) × Object). Growing o r.1 × (r.1.started ≡ true))
      o.started (λ e. (Grows.Grows-refl is_started o, e))
      (λ e.
        let t : Object = set_state true none false none o in
        let (b, n) = base-each close o.started_cs t in
        ended-Grows (each close o.started_cs t).0 (each close o.started_cs t).1 o
          (ap (λ s. s.name) b) (ap (λ s. s.direct_deps) b) (ap (λ s. s.retries) b) n
          (ap (λ s. s.started) b))
