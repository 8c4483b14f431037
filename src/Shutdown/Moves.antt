-- ===== src/Shutdown/Moves.antt =====
-- maestro.go: when a goroutine of StopAll can take its next step.
use bandmaster.Base.{
  Distinct, ℕ, ◌≡◌, refl, sym, ◌∙◌, subst, ◌≢◌, ◌⊎◌, inl, inr, String, true, false, none, some, [],
  ◌∷◌, In, returned, Bool-cases, ap, arith,
}
use bandmaster.Base.Dict.{values}
use bandmaster.Base.Family.{update_self}
use bandmaster.Errors.{Err}
use bandmaster.Channel.{receive-cases}
use bandmaster.ServiceBase.{Object, stop}
use bandmaster.ServiceBase.Invariant.{IsValid}
use bandmaster.ServiceBase.Flow.{stop-none_again, stop-none-eq, closed}
use bandmaster.Registry.{Maestro}
use bandmaster.Retry.{next}
use bandmaster.Deps.Circular.{push-ready}
use bandmaster.Goroutines.Ledger
use bandmaster.Goroutines.Ledger.{Account}
use bandmaster.Shutdown.Defs.{
  Pc, entry, scanning, receiving, calling, backing_off, failing, succeeding, reporting, finished,
  System, after_call, after_next, needs, Step, already, abort, go_on, skip, subscribe,
  parent_stopped, parent_failed, parents_stopped, call, timer, succeed, report,
}
use bandmaster.Shutdown.Objects.{is_stopped}
use bandmaster.Shutdown.Reports.{stage_of, Books}
use bandmaster.Shutdown.Serving.{Awaited}
use bandmaster.Shutdown.Ranks.{rank}
use bandmaster.Shutdown.Waits.{Waits, Waiting-of}

-- Some goroutine takes a step: not the context, and no caller from outside.
pub record GoesOn (services : Maestro) (ctx_err : String) (s : System) : Type 0 where
  pub goroutine : ℕ
  pub behind : System
  pub step : Step services ctx_err s behind
  pub moved : behind.pcs goroutine ≢ s.pcs goroutine

-- A goroutine waits for a service that is not stopped.
pub record IsStuck (s : System) (i : ℕ) : Type 0 where
  pub parent : String
  pub address : ℕ
  pub channel : ℕ
  pub todo : Maestro
  pub at : s.pcs i ≡ receiving parent address channel todo
  pub off : (s.objects address).stopped ≡ false

abbrev pub IsDown : System → ℕ → Type 0
IsDown s i = (s.pcs i ≡ finished) × ((s.objects i).stopped ≡ true)

pub stop-none-returns :
    (o : Object) → IsValid o → (o' : Object) × (stop none o ≡ (returned none, o'))
stop-none-returns o v = elim (Bool-cases o.stopped) [
  | inl on ↦ (o, stop-none_again o on)
  | inr off ↦ (closed o, stop-none-eq o v off)
]

-- A channel that has nothing to read is open, so its service is not stopped.
pub silent-off :
    (services : Maestro) (s : System) (waits : Waits services s.objects s.pcs) (j c : ℕ)
    → Awaited (s.objects j) c
    → ((s.objects j).chans c).closed ≡ false
    → (s.objects j).stopped ≡ false
silent-off services s waits j c a unclosed = elim (Bool-cases (s.objects j).stopped) [
  | inr off ↦ off
  | inl on ↦ elim a.pending [
    | inl m ↦ absurd (subst (λ cs. In c cs) ((waits.valid j).none_stopped on) m)
    | inr shut ↦ cc
  ]
]

module _ (services : Maestro) (ctx_err : String) (s : System) (books : Books services ctx_err s)
    (waits : Waits services s.objects s.pcs) (i : ℕ) where
  by_step :
      (t : System) (old new : Pc)
      → Step services ctx_err s t
      → s.pcs i ≡ old
      → t.pcs i ≡ new
      → new ≢ old
      → GoesOn services ctx_err s
  by_step t old new step at at' ne = record {
    goroutine = i;
    behind = t;
    step = step;
    moved = λ e. ne (sym at' ∙ e ∙ at);
  }

  from_entry : Distinct services → s.pcs i ≡ entry → GoesOn services ctx_err s
  from_entry once at = elim (Bool-cases (s.objects i).stopped) [
    | inl on ↦ by_step _ entry _ (already i at on) at (update_self s.pcs i _) (λ e. cc)
    | inr off ↦ elim (Bool-cases s.cancelled) [
      | inl c ↦ by_step _ entry _ (abort i at c) at (update_self s.pcs i _) (λ e. cc)
      | inr c ↦
          by_step _ entry _ (go_on i services at off c (λ d. (λ m. m, λ m. m)) once) at
            (update_self s.pcs i _) (λ e. cc)
    ]
  ]

  from_scanning : (todo : Maestro) → s.pcs i ≡ scanning todo → GoesOn services ctx_err s
  unfolding rank
  from_scanning [] at =
      by_step _ (scanning []) _ (parents_stopped i at) at (update_self s.pcs i _) (λ e. cc)
  from_scanning ((parent, j) ∷ todo) at = elim (Bool-cases (needs s.objects j i)) [
    | inl needed ↦
        by_step _ (scanning ((parent, j) ∷ todo)) _ (subscribe i j parent todo at needed) at
          (update_self s.pcs i _) (λ e. cc)
    | inr other ↦
        by_step _ (scanning ((parent, j) ∷ todo)) (scanning todo) (skip i j parent todo at other) at
          (update_self s.pcs i _) (shorter todo)
  ]
    where
      shorter : (todo : Maestro) → scanning todo ≢ scanning ((parent, j) ∷ todo)
      shorter todo e = let q = ap (rank 0 0) e in omega (arith, q)

  from_receiving :
      (parent : String) (j c : ℕ) (todo : Maestro)
      → s.pcs i ≡ receiving parent j c todo
      → GoesOn services ctx_err s ⊎ IsStuck s i
  from_receiving parent j c todo at = elim (receive-cases ((s.objects j).chans c)) [
    | inl (none, ch, got) ↦ inl (
        by_step _ (receiving parent j c todo) _ (parent_stopped i j c parent todo ch at got) at
          (update_self s.pcs i _) (λ e. cc))
    | inl (some e, ch, got) ↦ inl (
        by_step _ (receiving parent j c todo) _ (parent_failed i j c parent todo e ch at got) at
          (update_self s.pcs i _) (λ q. cc))
    | inr unclosed ↦ inr (record {
      parent = parent;
      address = j;
      channel = c;
      todo = todo;
      at = at;
      off =
          silent-off services s waits j c
            (Waiting-of services s i (receiving parent j c todo) waits at).2 unclosed;
    })
  ]

  from_calling : (attempts ib : ℕ) → s.pcs i ≡ calling attempts ib → GoesOn services ctx_err s
  unfolding after_call after_next next
  from_calling attempts ib at =
      by_step _ (calling attempts ib) succeeding (call i attempts ib none at) at
        (update_self s.pcs i _) (λ e. cc)

  from_succeeding : s.pcs i ≡ succeeding → GoesOn services ctx_err s
  from_succeeding at =
      let (o, did) = stop-none-returns (s.objects i) (waits.valid i) in
      by_step _ succeeding _ (succeed i none o at did) at (update_self s.pcs i _) (λ e. cc)

  from_reporting : (e : Err) → s.pcs i ≡ reporting e → GoesOn services ctx_err s
  from_reporting e at =
      let ready =
        Ledger.err_c-IsReady is_stopped ctx_err stage_of services s.objects s.objects s.pcs s.err_c
          books (λ k on. on) i (reporting e) finished at (λ q. cc) in
      by_step _ (reporting e) finished (report i e _ at (push-ready e s.err_c ready)) at
        (update_self s.pcs i finished) (λ q. cc)

  -- Without an error so far, a goroutine that did not fail is down, or waits for a service that is
  -- not stopped, or there is a step.
  pub goroutine_cases :
      In i (values services)
      → Distinct services
      → s.err_c.buffer ≡ []
      → ((e : Err) → s.pcs i ≢ failing e)
      → IsDown s i ⊎ GoesOn services ctx_err s ⊎ IsStuck s i
  goroutine_cases listed once quiet calm = at_pc (s.pcs i) refl
    where
      at_pc : (pc : Pc) → s.pcs i ≡ pc → IsDown s i ⊎ GoesOn services ctx_err s ⊎ IsStuck s i
      at_pc entry at = inr (inl (from_entry once at))
      at_pc (scanning todo) at = inr (inl (from_scanning todo at))
      at_pc (receiving parent j c todo) at = inr (from_receiving parent j c todo at)
      at_pc (calling attempts ib) at = inr (inl (from_calling attempts ib at))
      at_pc (backing_off attempts ib) at = inr (
          inl (
            by_step _ (backing_off attempts ib) _ (timer i attempts ib at) at
              (update_self s.pcs i _) (λ e. cc)))
      at_pc (failing e) at = absurd (calm e at)
      at_pc succeeding at = inr (inl (from_succeeding at))
      at_pc (reporting e) at = inr (inl (from_reporting e at))
      at_pc finished at =
          elim (subst (λ x. Account is_stopped ctx_err s.objects s.err_c i (stage_of x)) at
            (books.accounts i listed)) [
              | inl on ↦ inl (at, on)
              | inr (e, m, b) ↦ absurd (subst (λ es. In e es) quiet m)
            ]
