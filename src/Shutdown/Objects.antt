-- ===== src/Shutdown/Objects.antt =====
-- service.go: what the goroutines of StopAll can do to a service, as far as waiting depends on it.
use bandmaster.Base.{
  ℕ, ◌<◌, ◌≡◌, refl, ap, true, false, Bool, Option, none, some, [], Outcome, arith, and_then,
  modify, pure, ◌>>◌, returned, panicked, blocked, and_then-pure_state, if_ind,
}
use bandmaster.Errors.{Err}
use bandmaster.Channel.{send, close}
use bandmaster.ServiceBase.{ServiceBase, Object, stop, stopped_channel, allocate, each, set_state}
use bandmaster.ServiceBase.Channels.{base-each}
use bandmaster.Goroutines.Grows

abbrev pub is_stopped : ServiceBase → Bool
is_stopped b = b.stopped

abbrev pub Winding : Object → Object → Type 0
Winding = Grows.Grows is_stopped

-- `Stopped` by whomever.
pub stopped_channel-Grows :
    (o : Object)
    → Winding o (stopped_channel o).1
      × ((stopped_channel o).1.stopped ≡ o.stopped)
      × ((stopped_channel o).0 < (stopped_channel o).1.next)
unfolding stopped_channel allocate
stopped_channel-Grows o =
    if_ind (λ (r : ℕ × Object). Winding o r.1 × (r.1.stopped ≡ o.stopped) × (r.0 < r.1.next))
      o.stopped
      (λ _. (Grows.allocate-Grows is_stopped _ o o.base refl refl refl refl, refl, omega arith))
      (λ _. (Grows.allocate-Grows is_stopped _ o _ refl refl refl refl, refl, omega arith))

-- A new channel is closed only if the service is stopped.
pub stopped_channel-closed :
    (o : Object)
    → ((stopped_channel o).1.chans (stopped_channel o).0).closed ≡ true
    → o.stopped ≡ true
unfolding stopped_channel allocate
stopped_channel-closed o = ground arith

-- A failure of a service that is not stopped.
pub stop_err-Grows :
    (e : Err) (o : Object)
    → o.stopped ≡ false
    → Winding o (stop (some e) o).1 × ((stop (some e) o).1.stopped ≡ false)
unfolding stop
stop_err-Grows e o h =
    let t : Object = record o { base = record o.base { stopped = false; stopped_err = some e } } in
    rw
      (and_then-pure_state (each (send e) o.stopped_cs t).0 (some e)
        (each (send e) o.stopped_cs t).1)
      (Grows.send_all-Grows is_stopped e o.stopped_cs o t.base refl refl refl h refl)

-- The subscribers are forgotten, if closing their channels returned.
ended-Grows :
    (r : Outcome Err (Unit {0})) (t o : Object)
    → t.name ≡ o.name
    → t.direct_deps ≡ o.direct_deps
    → t.retries ≡ o.retries
    → t.next ≡ o.next
    → t.stopped ≡ true
    → let u =
        (and_then r
          (λ _.
            modify (λ o. record o { base = record o.base { stopped_cs = [] } })
            >> pure {A = Option Err} none)
          t).1 in
      Winding o u × (u.stopped ≡ true)
ended-Grows (returned a) t o named deps retry next on =
    (Grows.set-Grows is_stopped o _ named deps retry next on, on)
ended-Grows (panicked e) t o named deps retry next on =
    (Grows.set-Grows is_stopped o t named deps retry next on, on)
ended-Grows blocked t o named deps retry next on =
    (Grows.set-Grows is_stopped o t named deps retry next on, on)

-- A success.
pub stop-none-Grows : (o : Object) → Winding o (stop none o).1 × ((stop none o).1.stopped ≡ true)
unfolding stop
stop-none-Grows o =
    if_ind (λ (r : Outcome Err (Option Err) × Object). Winding o r.1 × (r.1.stopped ≡ true))
      o.stopped (λ e. (Grows.Grows-refl is_stopped o, e))
      (λ e.
        let t : Object = set_state false none true none o in
        let (b, n) = base-each close o.stopped_cs t in
        ended-Grows (each close o.stopped_cs t).0 (each close o.stopped_cs t).1 o
          (ap (λ s. s.name) b) (ap (λ s. s.direct_deps) b) (ap (λ s. s.retries) b) n
          (ap (λ s. s.stopped) b))
