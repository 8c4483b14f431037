-- ===== src/Boot/Cancelled.antt =====
-- maestro.go: a StartAll whose context has ended before it begins.
use bandmaster.Base.{
  ℕ, ◌≡◌, refl, sym, ap, ◌∙◌, subst, ◌≢◌, ◌⊎◌, inl, inr, String, true, In, ◌∷◌, [], arith, returned,
  in-append_left, in-append_right,
}
use bandmaster.Base.Dict.{values}
use bandmaster.Base.Family.{update, update_keeps}
use bandmaster.Errors.{Err}
use bandmaster.Channel.{Chan, send}
use bandmaster.ServiceBase.{Object, started_channel}
use bandmaster.Registry.{Maestro, Program}
use bandmaster.Deps.{push}
use bandmaster.Deps.Circular.{with_error}
use bandmaster.Boot.Defs.{
  Pc, entry, waiting, receiving, calling, backing_off, failing, succeeding, reporting, finished,
  crashed, System, start_failure_of, Step, already, abort, go_on, subscribe, nil_service,
  dependency_ready, dependency_failed, dependencies_ready, call, timer, interrupt, fail, succeed,
  report, cancel, outside, Reach, here, next_step,
}
use bandmaster.Boot.Objects.{started_channel-Grows}
use bandmaster.Boot.StartAll.{launch, store_of}
use bandmaster.Boot.Returns.{launched_cases, launched-entry}

push-sends : (e : Err) (c d : Chan) → push e c ≡ (returned tt, d) → d ≡ with_error c e
unfolding push send
push-sends e c d h = ground (arith, h)

module _ (services : Maestro) (ctx_err : String) (before : ℕ → Object) where
  -- How the goroutine `i` can stand.
  abbrev Idles : Chan → ℕ → Pc → Type 0
  Idles c i entry = Unit
  Idles c i (reporting e) = e ≡ start_failure_of i ctx_err
  Idles c i finished =
      In i (values services)
      → ((before i).started ≡ true) ⊎ In (start_failure_of i ctx_err) c.buffer
  Idles c i _ = ⊥

  record IsIdle (t : System) : Type 0 where
    over : t.cancelled ≡ true
    same : (i : ℕ) → (t.objects i).started ≡ (before i).started
    idles : (i : ℕ) → Idles t.err_c i (t.pcs i)

  Idles-told : (c : Chan) (e : Err) (i : ℕ) (pc : Pc) → Idles c i pc → Idles (with_error c e) i pc
  Idles-told c e i entry h = tt
  Idles-told c e i (reporting x) h = h
  Idles-told c e i finished h = λ m. elim (h m) [
    | inl on ↦ inl on
    | inr told ↦ inr (in-append_left (start_failure_of i ctx_err) c.buffer (e ∷ []) told)
  ]
  Idles-told c e i (waiting todo) h = absurd h
  Idles-told c e i (receiving d j a todo) h = absurd h
  Idles-told c e i (calling a b) h = absurd h
  Idles-told c e i (backing_off a b) h = absurd h
  Idles-told c e i (failing x) h = absurd h
  Idles-told c e i succeeding h = absurd h
  Idles-told c e i crashed h = absurd h

  -- A goroutine stands elsewhere, and somebody has called `Started` of the service at `j`.
  asked-IsIdle :
      (t : System) (i j : ℕ) (pc : Pc)
      → IsIdle t
      → Idles t.err_c i pc
      → IsIdle (record t {
        pcs = update t.pcs i pc;
        objects = update t.objects j (started_channel (t.objects j)).1;
      })
  asked-IsIdle t i j pc h new = record {
    over = h.over;
    same = λ k.
        update_keeps t.objects j (started_channel (t.objects j)).1
          (λ o. o.started ≡ (before k).started) k
          (λ e.
            let (grows, on, room) = started_channel-Grows (t.objects j) in
            on ∙ h.same j ∙ ap (λ x. (before x).started) e)
          (h.same k);
    idles = λ k.
        update_keeps t.pcs i pc (Idles t.err_c k) k (λ e. subst (λ x. Idles t.err_c x pc) e new)
          (h.idles k);
  }

  Step-IsIdle : (s t : System) → Step services ctx_err s t → IsIdle s → IsIdle t
  Step-IsIdle s t (already i at on) h =
      asked-IsIdle s i i finished h (λ m. inl (sym (h.same i) ∙ on))
  Step-IsIdle s t (abort i at off) h = asked-IsIdle s i i _ h refl
  Step-IsIdle s t (go_on i order at off on same once) h = absurd (let o = h.over in cc)
  Step-IsIdle s t (subscribe i j d todo at found) h =
      absurd (subst (Idles s.err_c i) at (h.idles i))
  Step-IsIdle s t (nil_service i d todo at found) h =
      absurd (subst (Idles s.err_c i) at (h.idles i))
  Step-IsIdle s t (dependency_ready i j c d todo ch at got) h =
      absurd (subst (Idles s.err_c i) at (h.idles i))
  Step-IsIdle s t (dependency_failed i j c d todo e ch at got) h =
      absurd (subst (Idles s.err_c i) at (h.idles i))
  Step-IsIdle s t (dependencies_ready i at) h = absurd (subst (Idles s.err_c i) at (h.idles i))
  Step-IsIdle s t (call i attempts ib result at) h = absurd (subst (Idles s.err_c i) at (h.idles i))
  Step-IsIdle s t (timer i attempts ib at) h = absurd (subst (Idles s.err_c i) at (h.idles i))
  Step-IsIdle s t (interrupt i attempts ib at c) h = absurd (subst (Idles s.err_c i) at (h.idles i))
  Step-IsIdle s t (fail i e r o at did) h = absurd (subst (Idles s.err_c i) at (h.idles i))
  Step-IsIdle s t (succeed i r o at did) h = absurd (subst (Idles s.err_c i) at (h.idles i))
  Step-IsIdle s t (report i e c at sent) h =
      let e_is : e ≡ start_failure_of i ctx_err = subst (Idles s.err_c i) at (h.idles i) in
      let c_is = push-sends e s.err_c c sent in
      record {
        over = h.over;
        same = h.same;
        idles = λ k.
            subst (λ d. Idles d k (update s.pcs i finished k)) (sym c_is)
              (update_keeps s.pcs i finished (Idles (with_error s.err_c e) k) k
                (λ same m. inr (
                  in-append_right (start_failure_of k ctx_err) s.err_c.buffer (e ∷ [])
                    (inl (ap (λ x. start_failure_of x ctx_err) (sym same) ∙ sym e_is))))
                (Idles-told s.err_c e k (s.pcs k) (h.idles k)));
      }
  Step-IsIdle s t cancel h = record { over = refl; same = h.same; idles = h.idles }
  Step-IsIdle s t (outside j) h = record {
    over = h.over;
    same = λ k.
        update_keeps s.objects j (started_channel (s.objects j)).1
          (λ o. o.started ≡ (before k).started) k
          (λ e.
            let (grows, on, room) = started_channel-Grows (s.objects j) in
            on ∙ h.same j ∙ ap (λ x. (before x).started) e)
          (h.same k);
    idles = h.idles;
  }

  Reach-IsIdle : (s t : System) → Reach services ctx_err s t → IsIdle s → IsIdle t
  Reach-IsIdle s t here h = h
  Reach-IsIdle s t (next_step r step) h = Step-IsIdle _ t step (Reach-IsIdle s _ r h)

module _ (p : Program) (ctx_err : String) (c : Chan) where
  -- The goroutines are about to begin, and the context has ended.
  abbrev pub cancelled_launch : System
  cancelled_launch = record (launch p c) { cancelled = true }

  cancelled_launch-IsIdle : IsIdle p.services ctx_err (store_of p) cancelled_launch
  cancelled_launch-IsIdle = record {
    over = refl;
    same = λ i. refl;
    idles = λ i. elim (launched_cases p.services i) [
      | inl ended ↦ rw ended (λ m. absurd (let begins = launched-entry p.services i m in cc))
      | inr (begins, m) ↦ rw begins tt
    ];
  }

  -- Where the context has ended before the goroutines of StartAll begin: in whatever order they take
  -- their steps, none comes to call its service's own Start, no service becomes started or ceases to
  -- be, and of each service of the map whose goroutine has ended, either it was started before, or
  -- `errC` has an error that it failed to start, with the context's error as the cause.
  pub cancelled_launch-Reach :
      (t : System)
      → Reach p.services ctx_err cancelled_launch t
      → ((i attempts ib : ℕ) → t.pcs i ≢ calling attempts ib)
        × ((i : ℕ) → (t.objects i).started ≡ (store_of p i).started)
        × ((i : ℕ)
            → In i (values p.services)
            → t.pcs i ≡ finished
            → ((store_of p i).started ≡ true) ⊎ In (start_failure_of i ctx_err) t.err_c.buffer)
  cancelled_launch-Reach t r =
      let h =
        Reach-IsIdle p.services ctx_err (store_of p) cancelled_launch t r cancelled_launch-IsIdle in
      (
        λ i attempts ib at. subst (Idles p.services ctx_err (store_of p) t.err_c i) at (h.idles i),
        h.same,
        λ i m at. subst (Idles p.services ctx_err (store_of p) t.err_c i) at (h.idles i) m,
      )
