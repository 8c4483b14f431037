-- ===== src/Shutdown/Serving.antt =====
-- service.go: the channels from `Stopped` that are served, and what StopAll's goroutines do to them.
use bandmaster.Base.{
  ℕ, ◌≡◌, refl, sym, ap, subst, inl, inr, false, none, some, List, [], ◌∷◌, arith,
  and_then-pure_state, Bool-cases, if_ind, in-append_left, in-append_right,
}
use bandmaster.Base.Family.{update_self}
use bandmaster.Errors.{Err}
use bandmaster.Channel.{send}
use bandmaster.ServiceBase.{ServiceBase, Object, stop, stopped_channel, allocate, each}
use bandmaster.ServiceBase.Invariant.{IsValid, stopped_channel-IsValid}
use bandmaster.ServiceBase.Flow.{stop-IsValid, stop-none_again}
use bandmaster.ServiceBase.Broadcast.{stop_success}
use bandmaster.Goroutines.Serving
use bandmaster.Shutdown.Objects.{stop-none-Grows}

abbrev pub waiters : ServiceBase → List ℕ
waiters b = b.stopped_cs

abbrev pub Awaited : Object → ℕ → Type 0
Awaited = Serving.Awaited waiters

abbrev pub Serves : Object → Object → Type 0
Serves = Serving.Serves waiters

pub stopped_channel-Serves : (o : Object) → IsValid o → Serves o (stopped_channel o).1
unfolding stopped_channel
stopped_channel-Serves o v = record {
  valid = stopped_channel-IsValid o v;
  awaited = λ c a.
      if_ind (λ (r : ℕ × Object). Awaited r.1 c) o.stopped
        (λ _. Serving.allocate-Awaited waiters o _ o.base c (λ m. m) a)
        (λ _.
          Serving.allocate-Awaited waiters o _ _ c
            (λ m. in-append_left c o.stopped_cs (o.next ∷ []) m) a);
}

-- The channel that `Stopped` returns.
pub stopped_channel-Awaited : (o : Object) → Awaited (stopped_channel o).1 (stopped_channel o).0
unfolding stopped_channel allocate
stopped_channel-Awaited o =
    if_ind (λ (r : ℕ × Object). Awaited r.1 r.0) o.stopped
      (λ _. record {
        made = omega arith;
        pending = inr (ap (λ x. x.closed) (update_self o.chans o.next _));
      })
      (λ _. record {
        made = omega arith;
        pending = inl (in-append_right o.next o.stopped_cs (o.next ∷ []) (inl refl));
      })

pub stop-none-Serves : (o : Object) → IsValid o → Serves o (stop none o).1
stop-none-Serves o v = elim (Bool-cases o.stopped) [
  | inl on ↦ rw (stop-none_again o on) (Serving.Serves-refl waiters o v)
  | inr off ↦
      let (_, _, _, _, changes) = stop_success o v off in
      Serving.close_all-Serves waiters o _ (stop-IsValid none o v tt) (stop-none-Grows o).0.later
        changes
]

pub stop_err-Serves :
    (e : Err) (o : Object) → IsValid o → o.stopped ≡ false → Serves o (stop (some e) o).1
unfolding stop
stop_err-Serves e o v off =
    let t : Object = record o { base = record o.base { stopped = false; stopped_err = some e } } in
    let state =
      and_then-pure_state (each (send e) o.stopped_cs t).0 (some e)
        (each (send e) o.stopped_cs t).1 in
    subst (Serves o) (sym state) (
      Serving.send_all-Serves waiters e o.stopped_cs o t.base refl
        (subst IsValid state (stop-IsValid (some e) o v off)))
