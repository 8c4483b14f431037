-- ===== src/Boot/Moves.antt =====
-- maestro.go: when a goroutine of StartAll can take its next step.
use bandmaster.Base.{
  Distinct, ℕ, ◌≡◌, refl, sym, ◌∙◌, subst, ◌≢◌, ◌⊎◌, inl, inr, String, true, false, none, some,
  List, [], ◌∷◌, In, returned, Bool-cases, Option-cases,
}
use bandmaster.Base.Dict.{lookup, values}
use bandmaster.Base.Family.{update_self}
use bandmaster.Errors.{Err}
use bandmaster.Channel.{receive-cases}
use bandmaster.ServiceBase.{Object, start, dependencies}
use bandmaster.ServiceBase.Invariant.{IsValid}
use bandmaster.ServiceBase.Flow.{start-none_again, start-none-eq, opened}
use bandmaster.Registry.{Maestro}
use bandmaster.Retry.{next}
use bandmaster.Deps.Circular.{push-ready}
use bandmaster.Boot.Defs.{
  Pc, entry, waiting, receiving, calling, backing_off, failing, succeeding, reporting, finished,
  crashed, System, after_call, after_next, Step, already, abort, go_on, subscribe, nil_service,
  dependency_ready, dependency_failed, dependencies_ready, call, timer, succeed, report,
}
use bandmaster.Goroutines.Ledger
use bandmaster.Goroutines.Ledger.{Account}
use bandmaster.Boot.Objects.{is_started}
use bandmaster.Boot.Reports.{Books, stage_of}
use bandmaster.Boot.Serving.{Awaited}
use bandmaster.Boot.Waits.{Waits, Waiting-of}

-- Some goroutine takes a step: not the context, and no caller from outside.
pub record GoesOn (services : Maestro) (ctx_err : String) (s : System) : Type 0 where
  pub goroutine : ℕ
  pub behind : System
  pub step : Step services ctx_err s behind
  pub moved : behind.pcs goroutine ≢ s.pcs goroutine

-- A goroutine waits for a service that is not started.
pub record IsStuck (s : System) (i : ℕ) : Type 0 where
  pub dep : String
  pub address : ℕ
  pub channel : ℕ
  pub todo : List String
  pub at : s.pcs i ≡ receiving dep address channel todo
  pub off : (s.objects address).started ≡ false

abbrev pub IsUp : System → ℕ → Type 0
IsUp s i = (s.pcs i ≡ finished) × ((s.objects i).started ≡ true)

pub start-none-returns :
    (o : Object) → IsValid o → (o' : Object) × (start none o ≡ (returned none, o'))
start-none-returns o v = elim (Bool-cases o.started) [
  | inl on ↦ (o, start-none_again o on)
  | inr off ↦ (opened o, start-none-eq o v off)
]

-- A channel that has nothing to read is open, so its service is not started.
pub silent-off :
    (s : System) (waits : Waits s.objects s.pcs) (j c : ℕ)
    → Awaited (s.objects j) c
    → ((s.objects j).chans c).closed ≡ false
    → (s.objects j).started ≡ false
silent-off s waits j c a unclosed = elim (Bool-cases (s.objects j).started) [
  | inr off ↦ off
  | inl on ↦ elim a.pending [
    | inl m ↦ absurd (subst (λ cs. In c cs) ((waits.valid j).none_started on) m)
    | inr shut ↦ cc
  ]
]

module _ (services : Maestro) (ctx_err : String) (s : System) (books : Books services ctx_err s)
    (waits : Waits s.objects s.pcs) (i : ℕ) where
  by_step :
      (t : System) (old new : Pc)
      → Step services ctx_err s t
      → s.pcs i ≡ old
      → t.pcs i ≡ new
      → new ≢ old
      → GoesOn services ctx_err s
  by_step t old new step at at' ne = record {
    goroutine = i;
    behind = t;
    step = step;
    moved = λ e. ne (sym at' ∙ e ∙ at);
  }

  from_entry : Distinct (dependencies (s.objects i)) → s.pcs i ≡ entry → GoesOn services ctx_err s
  from_entry once at = elim (Bool-cases (s.objects i).started) [
    | inl on ↦ by_step _ entry _ (already i at on) at (update_self s.pcs i _) (λ e. cc)
    | inr off ↦ elim (Bool-cases s.cancelled) [
      | inl c ↦ by_step _ entry _ (abort i at c) at (update_self s.pcs i _) (λ e. cc)
      | inr c ↦
          by_step _ entry _
            (go_on i (dependencies (s.objects i)) at off c (λ d. (λ m. m, λ m. m)) once) at
            (update_self s.pcs i _) (λ e. cc)
    ]
  ]

  from_waiting : (todo : List String) → s.pcs i ≡ waiting todo → GoesOn services ctx_err s
  from_waiting [] at =
      by_step _ (waiting []) _ (dependencies_ready i at) at (update_self s.pcs i _) (λ e. cc)
  from_waiting (d ∷ todo) at = elim (Option-cases (lookup d services)) [
    | inl unknown ↦
        by_step _ (waiting (d ∷ todo)) _ (nil_service i d todo at unknown) at
          (update_self s.pcs i _) (λ e. cc)
    | inr (j, found) ↦
        by_step _ (waiting (d ∷ todo)) _ (subscribe i j d todo at found) at (update_self s.pcs i _)
          (λ e. cc)
  ]

  from_receiving :
      (d : String) (j c : ℕ) (todo : List String)
      → s.pcs i ≡ receiving d j c todo
      → GoesOn services ctx_err s ⊎ IsStuck s i
  from_receiving d j c todo at = elim (receive-cases ((s.objects j).chans c)) [
    | inl (none, ch, got) ↦ inl (
        by_step _ (receiving d j c todo) _ (dependency_ready i j c d todo ch at got) at
          (update_self s.pcs i _) (λ e. cc))
    | inl (some e, ch, got) ↦ inl (
        by_step _ (receiving d j c todo) _ (dependency_failed i j c d todo e ch at got) at
          (update_self s.pcs i _) (λ q. cc))
    | inr unclosed ↦ inr (record {
      dep = d;
      address = j;
      channel = c;
      todo = todo;
      at = at;
      off =
          silent-off s waits j c (Waiting-of services ctx_err s i (receiving d j c todo) waits at).1
            unclosed;
    })
  ]

  from_calling : (attempts ib : ℕ) → s.pcs i ≡ calling attempts ib → GoesOn services ctx_err s
  unfolding after_call after_next next
  from_calling attempts ib at =
      by_step _ (calling attempts ib) succeeding (call i attempts ib none at) at
        (update_self s.pcs i _) (λ e. cc)

  from_succeeding : s.pcs i ≡ succeeding → GoesOn services ctx_err s
  from_succeeding at =
      let (o, did) = start-none-returns (s.objects i) (waits.valid i) in
      by_step _ succeeding _ (succeed i none o at did) at (update_self s.pcs i _) (λ e. cc)

  from_reporting : (e : Err) → s.pcs i ≡ reporting e → GoesOn services ctx_err s
  from_reporting e at =
      let ready =
        Ledger.err_c-IsReady is_started ctx_err stage_of services s.objects s.objects s.pcs s.err_c
          books (λ k on. on) i (reporting e) finished at (λ q. cc) in
      by_step _ (reporting e) finished (report i e _ at (push-ready e s.err_c ready)) at
        (update_self s.pcs i finished) (λ q. cc)

  -- Without an error so far, a goroutine that did not fail is up, or waits for a service that is
  -- not started, or there is a step.
  pub goroutine_cases :
      In i (values services)
      → Distinct (dependencies (s.objects i))
      → s.err_c.buffer ≡ []
      → s.pcs i ≢ crashed
      → ((e : Err) → s.pcs i ≢ failing e)
      → IsUp s i ⊎ GoesOn services ctx_err s ⊎ IsStuck s i
  goroutine_cases listed once quiet sound calm = at_pc (s.pcs i) refl
    where
      at_pc : (pc : Pc) → s.pcs i ≡ pc → IsUp s i ⊎ GoesOn services ctx_err s ⊎ IsStuck s i
      at_pc entry at = inr (inl (from_entry once at))
      at_pc (waiting todo) at = inr (inl (from_waiting todo at))
      at_pc (receiving d j c todo) at = inr (from_receiving d j c todo at)
      at_pc (calling attempts ib) at = inr (inl (from_calling attempts ib at))
      at_pc (backing_off attempts ib) at = inr (
          inl (
            by_step _ (backing_off attempts ib) _ (timer i attempts ib at) at
              (update_self s.pcs i _) (λ e. cc)))
      at_pc (failing e) at = absurd (calm e at)
      at_pc succeeding at = inr (inl (from_succeeding at))
      at_pc (reporting e) at = inr (inl (from_reporting e at))
      at_pc finished at =
          elim (subst (λ x. Account is_started ctx_err s.objects s.err_c i (stage_of x)) at
            (books.accounts i listed)) [
              | inl on ↦ inl (at, on)
              | inr (e, m, b) ↦ absurd (subst (λ es. In e es) quiet m)
            ]
      at_pc crashed at = absurd (sound at)
