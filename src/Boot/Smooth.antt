-- ===== src/Boot/Smooth.antt =====
-- maestro.go: the steps of StartAll's goroutines while nothing fails and nobody cancels.
use bandmaster.Base.{
  List, Distinct, ℕ, ◌<◌, ◌≡◌, refl, sym, ap, subst, ◌⊎◌, inl, inr, String, false, none, some, [],
  ◌∷◌, In, Bool-cases, arith, if_ind,
}
use native.Mathlib.Decide.{ℕ_discrete}
use bandmaster.Base.Dict.{keys, values, lookup-of_keys}
use bandmaster.Base.Family.{update, update_self, update_ne}
use bandmaster.Channel.{receive-cases, receive-empty}
use bandmaster.ServiceBase.{Object, start, started_channel, allocate, dependencies}
use bandmaster.ServiceBase.Invariant.{IsValid}
use bandmaster.ServiceBase.Flow.{start-none_again}
use bandmaster.ServiceBase.Broadcast.{start_success}
use bandmaster.Registry.{Maestro}
use bandmaster.Retry.{next}
use bandmaster.Goroutines.Silence.{
  Hushes, Hushes-refl, allocate-Hushes, receive-Hushes, close_all-Hushes, write-Hushes,
}
use bandmaster.Goroutines.Ledger.{Account}
use bandmaster.Boot.Defs.{
  Pc, entry, waiting, receiving, calling, backing_off, failing, succeeding, reporting, finished,
  crashed, System, after_call, after_next, Step, already, go_on, subscribe, dependency_ready,
  dependencies_ready, call, succeed,
}
use bandmaster.Boot.Objects.{is_started, start-none-Grows}
use bandmaster.Boot.Reports.{stage_of, Books}
use bandmaster.Boot.Waits.{Waits, Waiting-of}
use bandmaster.Boot.Moves.{IsStuck, IsUp, silent-off, start-none-returns}
use bandmaster.Boot.Ends.{counted}

-- A goroutine that has met no error so far, and waits at a channel without one.
abbrev pub Smooth : (ℕ → Object) → Pc → Type 0
Smooth objects (receiving d j c todo) = (c < (objects j).next) × (((objects j).chans c).buffer ≡ [])
Smooth objects (backing_off attempts ib) = ⊥
Smooth objects (failing e) = ⊥
Smooth objects (reporting e) = ⊥
Smooth objects crashed = ⊥
Smooth objects _ = Unit

pub record IsSmooth (s : System) : Type 0 where
  pub uncancelled : s.cancelled ≡ false
  pub quiet : s.err_c.buffer ≡ []
  pub smooth : (i : ℕ) → Smooth s.objects (s.pcs i)

-- Some goroutine takes a step, and all is still well.
pub record SmoothStep (services : Maestro) (ctx_err : String) (s : System) : Type 0 where
  pub behind : System
  pub step : Step services ctx_err s behind
  pub counts : counted services ctx_err step ≡ 1
  pub well : IsSmooth behind

keep-Smooth :
    (objects objects' : ℕ → Object)
    → ((k : ℕ) → Hushes (objects k) (objects' k))
    → (pc : Pc) → Smooth objects pc
    → Smooth objects' pc
keep-Smooth objects objects' hush entry h = tt
keep-Smooth objects objects' hush (waiting todo) h = tt
keep-Smooth objects objects' hush (receiving d j c todo) h =
    let later = (hush j).later in (omega (arith, h.0, later), (hush j).empty c h.0 h.1)
keep-Smooth objects objects' hush (calling attempts ib) h = tt
keep-Smooth objects objects' hush (backing_off attempts ib) h = absurd h
keep-Smooth objects objects' hush (failing e) h = absurd h
keep-Smooth objects objects' hush (reporting e) h = absurd h
keep-Smooth objects objects' hush crashed h = absurd h
keep-Smooth objects objects' hush succeeding h = tt
keep-Smooth objects objects' hush finished h = tt

started_channel-Hushes : (o : Object) → Hushes o (started_channel o).1
unfolding started_channel
started_channel-Hushes o =
    if_ind (λ (r : ℕ × Object). Hushes o r.1) o.started (λ _. allocate-Hushes o _ o.base)
      (λ _. allocate-Hushes o _ _)

-- The channel that `Started` returns.
started_channel-empty :
    (o : Object) → let (c, u) = started_channel o in (c < u.next) × ((u.chans c).buffer ≡ [])
unfolding started_channel allocate
started_channel-empty o =
    if_ind (λ (r : ℕ × Object). (r.0 < r.1.next) × ((r.1.chans r.0).buffer ≡ [])) o.started
      (λ _. (omega arith, ap (λ x. x.buffer) (update_self o.chans o.next _)))
      (λ _. (omega arith, ap (λ x. x.buffer) (update_self o.chans o.next _)))

start-none-Hushes : (o : Object) → IsValid o → Hushes o (start none o).1
start-none-Hushes o v = elim (Bool-cases o.started) [
  | inl on ↦ rw (start-none_again o on) (Hushes-refl o)
  | inr off ↦
      let (_, _, _, _, changes) = start_success o v off in
      close_all-Hushes o _ o.started_cs (start-none-Grows o).0.later changes
]

module _ (services : Maestro) (ctx_err : String) (s : System) (well : IsSmooth s) (i : ℕ) where
  -- The goroutine `i` goes on to `pc`.
  by_step :
      (objects : ℕ → Object) (pc : Pc)
      → ((k : ℕ) → Hushes (s.objects k) (objects k))
      → Smooth objects pc
      → let t : System = record s { objects = objects; pcs = update s.pcs i pc } in
        (step : Step services ctx_err s t)
        → counted services ctx_err step ≡ 1
        → SmoothStep services ctx_err s
  by_step objects pc hush h step counts = record {
    behind = record s { objects = objects; pcs = update s.pcs i pc };
    step = step;
    counts = counts;
    well = record {
      uncancelled = well.uncancelled;
      quiet = well.quiet;
      smooth = λ k. elim (ℕ_discrete i k) [
        | yes e ↦
            subst (λ x. Smooth objects (update s.pcs i pc x)) e (rw (update_self s.pcs i pc) h)
        | no n ↦
            rw (update_ne s.pcs i pc k n)
              (keep-Smooth s.objects objects hush (s.pcs k) (well.smooth k))
      ];
    };
  }

  watched :
      (j k : ℕ) → Hushes (s.objects k) (update s.objects j (started_channel (s.objects j)).1 k)
  watched j = write-Hushes s.objects j _ (started_channel-Hushes (s.objects j))

  unchanged : (k : ℕ) → Hushes (s.objects k) (s.objects k)
  unchanged k = Hushes-refl (s.objects k)

  from_entry :
      Distinct (dependencies (s.objects i)) → s.pcs i ≡ entry → SmoothStep services ctx_err s
  from_entry once at = elim (Bool-cases (s.objects i).started) [
    | inl on ↦ by_step _ finished (watched i) tt (already i at on) refl
    | inr off ↦
        by_step _ (waiting (dependencies (s.objects i))) (watched i) tt
          (go_on i (dependencies (s.objects i)) at off well.uncancelled (λ d. (λ m. m, λ m. m))
            once)
          refl
  ]

  from_calling : (attempts ib : ℕ) → s.pcs i ≡ calling attempts ib → SmoothStep services ctx_err s
  unfolding after_call after_next next
  from_calling attempts ib at =
      by_step s.objects succeeding unchanged tt (call i attempts ib none at) refl

  module _ (waits : Waits s.objects s.pcs) where
    from_waiting :
        (todo : List String)
        → ((d : String) → In d (dependencies (s.objects i)) → In d (keys services))
        → s.pcs i ≡ waiting todo
        → SmoothStep services ctx_err s
    from_waiting [] known at = by_step s.objects _ unchanged tt (dependencies_ready i at) refl
    from_waiting (d ∷ todo) known at =
        let asks = Waiting-of services ctx_err s i (waiting (d ∷ todo)) waits at in
        let (j, found) = lookup-of_keys d services (known d (asks d (inl refl))) in
        by_step _ (receiving d j (started_channel (s.objects j)).0 todo) (watched j)
          (subst
            (λ o.
              let c = (started_channel (s.objects j)).0 in (c < o.next) × ((o.chans c).buffer ≡ []))
            (sym (update_self s.objects j (started_channel (s.objects j)).1))
            (started_channel-empty (s.objects j)))
          (subscribe i j d todo at found) refl

    from_receiving :
        (d : String) (j c : ℕ) (todo : List String)
        → s.pcs i ≡ receiving d j c todo
        → SmoothStep services ctx_err s ⊎ IsStuck s i
    from_receiving d j c todo at =
        let (made, empty) = subst (Smooth s.objects) at (well.smooth i) in
        elim (receive-cases ((s.objects j).chans c)) [
          | inl (some e, ch, got) ↦
              let q = (receive-empty ((s.objects j).chans c) ch (some e) got empty).0 in absurd (cc)
          | inl (none, ch, got) ↦ inl (
              by_step _ (waiting todo)
                (write-Hushes s.objects j _ (receive-Hushes (s.objects j) c none ch got)) tt
                (dependency_ready i j c d todo ch at got) refl)
          | inr unclosed ↦ inr (record {
            dep = d;
            address = j;
            channel = c;
            todo = todo;
            at = at;
            off =
                silent-off s waits j c
                  (Waiting-of services ctx_err s i (receiving d j c todo) waits at).1 unclosed;
          })
        ]

    from_succeeding : s.pcs i ≡ succeeding → SmoothStep services ctx_err s
    from_succeeding at =
        let (o, did) = start-none-returns (s.objects i) (waits.valid i) in
        by_step _ finished
          (write-Hushes s.objects i o (
            subst (Hushes (s.objects i)) (ap (λ r. r.1) did)
              (start-none-Hushes (s.objects i) (waits.valid i))))
          tt (succeed i none o at did) refl

    -- While all is well, a goroutine is up, or waits for a service that is not started, or there
    -- is a step that leaves all well.
    pub smooth_cases :
        Books services ctx_err s
        → In i (values services)
        → Distinct (dependencies (s.objects i))
        → ((d : String) → In d (dependencies (s.objects i)) → In d (keys services))
        → IsUp s i ⊎ SmoothStep services ctx_err s ⊎ IsStuck s i
    smooth_cases books listed once known = at_pc (s.pcs i) refl (well.smooth i)
      where
        at_pc :
            (pc : Pc)
            → s.pcs i ≡ pc
            → Smooth s.objects pc
            → IsUp s i ⊎ SmoothStep services ctx_err s ⊎ IsStuck s i
        at_pc entry at h = inr (inl (from_entry once at))
        at_pc (waiting todo) at h = inr (inl (from_waiting todo known at))
        at_pc (receiving d j c todo) at h = inr (from_receiving d j c todo at)
        at_pc (calling attempts ib) at h = inr (inl (from_calling attempts ib at))
        at_pc (backing_off attempts ib) at h = absurd h
        at_pc (failing e) at h = absurd h
        at_pc (reporting e) at h = absurd h
        at_pc crashed at h = absurd h
        at_pc succeeding at h = inr (inl (from_succeeding at))
        at_pc finished at h =
            elim (subst (λ x. Account is_started ctx_err s.objects s.err_c i (stage_of x)) at
              (books.accounts i listed)) [
                | inl on ↦ inl (at, on)
                | inr (e, m, b) ↦ absurd (subst (λ es. In e es) well.quiet m)
              ]
