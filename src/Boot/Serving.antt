-- ===== src/Boot/Serving.antt =====
-- service.go: the channels from `Started` that are served, and what StartAll's goroutines do to them.
use bandmaster.Base.{
  ℕ, ◌≡◌, refl, sym, ap, subst, inl, inr, true, false, none, some, List, [], ◌∷◌, arith,
  and_then-pure_state, Bool-cases, if_ind, in-append_left, in-append_right,
}
use bandmaster.Base.Family.{update_self}
use bandmaster.Errors.{Err}
use bandmaster.Channel.{send}
use bandmaster.ServiceBase.{ServiceBase, Object, start, started_channel, allocate, each, set_state}
use bandmaster.ServiceBase.Invariant.{IsValid, started_channel-IsValid}
use bandmaster.ServiceBase.Flow.{start-IsValid, start-none_again}
use bandmaster.ServiceBase.Broadcast.{start_success}
use bandmaster.Goroutines.Serving
use bandmaster.Boot.Objects.{start-none-Grows}

abbrev pub waiters : ServiceBase → List ℕ
waiters b = b.started_cs

abbrev pub Awaited : Object → ℕ → Type 0
Awaited = Serving.Awaited waiters

abbrev pub Serves : Object → Object → Type 0
Serves = Serving.Serves waiters

pub started_channel-Serves : (o : Object) → IsValid o → Serves o (started_channel o).1
unfolding started_channel
started_channel-Serves o v = record {
  valid = started_channel-IsValid o v;
  awaited = λ c a.
      if_ind (λ (r : ℕ × Object). Awaited r.1 c) o.started
        (λ _. Serving.allocate-Awaited waiters o _ o.base c (λ m. m) a)
        (λ _.
          Serving.allocate-Awaited waiters o _ _ c
            (λ m. in-append_left c o.started_cs (o.next ∷ []) m) a);
}

-- The channel that `Started` returns.
pub started_channel-Awaited : (o : Object) → Awaited (started_channel o).1 (started_channel o).0
unfolding started_channel allocate
started_channel-Awaited o =
    if_ind (λ (r : ℕ × Object). Awaited r.1 r.0) o.started
      (λ _. record {
        made = omega arith;
        pending = inr (ap (λ x. x.closed) (update_self o.chans o.next _));
      })
      (λ _. record {
        made = omega arith;
        pending = inl (in-append_right o.next o.started_cs (o.next ∷ []) (inl refl));
      })

pub start-none-Serves : (o : Object) → IsValid o → Serves o (start none o).1
start-none-Serves o v = elim (Bool-cases o.started) [
  | inl on ↦ rw (start-none_again o on) (Serving.Serves-refl waiters o v)
  | inr off ↦
      let (_, _, _, _, changes) = start_success o v off in
      Serving.close_all-Serves waiters o _ (start-IsValid none o v tt) (start-none-Grows o).0.later
        changes
]

pub start_err-Serves :
    (e : Err) (o : Object) → IsValid o → o.started ≡ false → Serves o (start (some e) o).1
unfolding start
start_err-Serves e o v off =
    let t : Object = set_state false (some e) true none o in
    let state =
      and_then-pure_state (each (send e) o.started_cs t).0 (some e)
        (each (send e) o.started_cs t).1 in
    subst (Serves o) (sym state) (
      Serving.send_all-Serves waiters e o.started_cs o t.base refl
        (subst IsValid state (start-IsValid (some e) o v off)))
