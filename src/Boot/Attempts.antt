-- ===== src/Boot/Attempts.antt =====
-- maestro.go: the loop of attempts of `start`, in the steps of a goroutine of StartAll and as the
-- function `retry`.
use bandmaster.Base.{
  ℕ, ◌≡◌, refl, suc, Option, ap, ◌∙◌, ◌⊎◌, inl, inr, String, some, none, List, [], ◌∷◌, ◌++◌,
  nat_eq, if◌then◌else◌, subst, and_then-pure_state, true, false,
}
use bandmaster.Errors.{Err, foreign}
use bandmaster.Channel.{send}
use bandmaster.ServiceBase.{Object, start, retry_conf, set_state, each}
use bandmaster.ServiceBase.Channels.{base-each}
use bandmaster.Registry.{Maestro}
use bandmaster.Retry.{Environment, next, Ending, succeeded, gave_up, cancelled}
use bandmaster.Retry.Rounds.{Next_cases}
use bandmaster.Goroutines.Attempts.{
  Event, called, waited, interrupted, rounds, Agrees, Agrees-tail, IsTrying, IsWaiting, HasEnded,
  begins, succeeds, gives_up, backs_off, goes_on, is_cancelled, write-retries, turned, eventful,
}
use bandmaster.Boot.Defs.{
  Pc, entry, waiting, receiving, calling, backing_off, failing, succeeding, reporting, finished,
  System, start_failure_of, after_call, after_next, Step, already, abort, go_on, subscribe,
  nil_service, dependency_ready, dependency_failed, dependencies_ready, call, timer, interrupt,
  fail, succeed, report, cancel, outside, Reach, here, next_step,
}
use bandmaster.Boot.Objects.{started_channel-Grows, start-none-Grows}

start_retries : (e : Err) (o : Object) → (start (some e) o).1.retries ≡ o.retries
unfolding start
start_retries e o =
    let t : Object = set_state false (some e) true none o in
    rw
      (and_then-pure_state (each (send e) o.started_cs t).0 (some e)
        (each (send e) o.started_cs t).1)
      (ap (λ b. b.retries) (base-each (send e) o.started_cs t).0)

module _ (services : Maestro) (ctx_err : String) where
  -- What the goroutine `k` meets in a step.
  unfoldable pub event : {s t : System} → Step services ctx_err s t → ℕ → List Event
  event (call i attempts ib result at) k = if nat_eq i k then called result ∷ [] else []
  event (timer i attempts ib at) k = if nat_eq i k then waited ∷ [] else []
  event (interrupt i attempts ib at c) k = if nat_eq i k then interrupted ∷ [] else []
  event _ k = []

  -- What it has met, the latest first.
  unfoldable pub history : {s t : System} → Reach services ctx_err s t → ℕ → List Event
  unfolding event
  history here k = []
  history (next_step r step) k = event step k ++ history r k

  Step-retries :
      (s t : System)
      → Step services ctx_err s t
      → (k : ℕ) → (t.objects k).retries ≡ (s.objects k).retries
  Step-retries s t (already i at on) =
      write-retries s.objects i _ (started_channel-Grows (s.objects i)).0.retry
  Step-retries s t (abort i at c) =
      write-retries s.objects i _ (started_channel-Grows (s.objects i)).0.retry
  Step-retries s t (go_on i order at off c same once) =
      write-retries s.objects i _ (started_channel-Grows (s.objects i)).0.retry
  Step-retries s t (subscribe i j d todo at found) =
      write-retries s.objects j _ (started_channel-Grows (s.objects j)).0.retry
  Step-retries s t (nil_service i d todo at found) = λ k. refl
  Step-retries s t (dependency_ready i j c d todo ch at got) = write-retries s.objects j _ refl
  Step-retries s t (dependency_failed i j c d todo e ch at got) = write-retries s.objects j _ refl
  Step-retries s t (dependencies_ready i at) = λ k. refl
  Step-retries s t (call i attempts ib result at) = λ k. refl
  Step-retries s t (timer i attempts ib at) = λ k. refl
  Step-retries s t (interrupt i attempts ib at c) = λ k. refl
  Step-retries s t (fail i e r o at did) = write-retries s.objects i o (
      subst (λ x. x.retries ≡ (s.objects i).retries) (ap (λ p. p.1) did)
        (start_retries e (s.objects i)))
  Step-retries s t (succeed i r o at did) = write-retries s.objects i o (
      subst (λ x. x.retries ≡ (s.objects i).retries) (ap (λ p. p.1) did)
        (start-none-Grows (s.objects i)).0.retry)
  Step-retries s t (report i e c at sent) = λ k. refl
  Step-retries s t cancel = λ k. refl
  Step-retries s t (outside j) =
      write-retries s.objects j _ (started_channel-Grows (s.objects j)).0.retry

  Reach-retries :
      (s t : System)
      → Reach services ctx_err s t
      → (k : ℕ) → (t.objects k).retries ≡ (s.objects k).retries
  Reach-retries s t here k = refl
  Reach-retries s t (next_step {t = u} r step) k = Step-retries u t step k ∙ Reach-retries s u r k

  module _ (env : Environment) (retries ib i : ℕ) where
    -- Where the goroutine stands is where the function stands, behind the same events. Behind the
    -- loop it announces the function's ending, and goes on to report it.
    abbrev pub Follows : List Event → Pc → Type 0
    Follows es (calling attempts wait) = IsTrying env retries ib attempts wait es
    Follows es (backing_off attempts wait) = IsWaiting env retries ib attempts wait es
    Follows es succeeding = HasEnded env retries ib succeeded es
    Follows es (failing e) =
        (text : String) × (e ≡ start_failure_of i text) × HasEnded env retries ib (gave_up text) es
    Follows es (reporting e) =
        ((text : String) × (e ≡ start_failure_of i text)
          × HasEnded env retries ib (gave_up text) es)
        ⊎ ((e ≡ foreign ctx_err) × HasEnded env retries ib cancelled es)
    Follows es finished = (ending : Ending) × HasEnded env retries ib ending es
    Follows es _ = ⊥

    after-Follows :
        (es : List Event) (attempts wait : ℕ) (result : Option String)
        → env.call (suc (rounds es)) ≡ result
        → IsTrying env retries ib attempts wait es
        → Follows (called result ∷ es) (after_next i attempts wait (next retries attempts result))
    unfolding after_next
    after-Follows es attempts wait result told h =
        elim (Next_cases (next retries attempts result)) [
          | inl e ↦ rw e (succeeds env retries ib attempts wait es result h told e)
          | inr (inl (err, e)) ↦
              rw e (err, refl, gives_up env retries ib attempts wait es result err h told e)
          | inr (inr e) ↦ rw e (backs_off env retries ib attempts wait es result h told e)
        ]

    Step-Follows :
        (s t : System) (es : List Event) (step : Step services ctx_err s t)
        → (s.objects i).retries ≡ retries
        → Agrees env (event step i ++ es)
        → Follows es (s.pcs i)
        → Follows (event step i ++ es) (t.pcs i)
    unfolding event after_call retry_conf
    Step-Follows s t es (already j at on) m agrees h =
        turned env i Follows s.pcs es j entry finished at (λ x. absurd x) h
    Step-Follows s t es (abort j at c) m agrees h =
        turned env i Follows s.pcs es j entry _ at (λ x. absurd x) h
    Step-Follows s t es (go_on j order at off c same once) m agrees h =
        turned env i Follows s.pcs es j entry _ at (λ x. absurd x) h
    Step-Follows s t es (subscribe j k d todo at found) m agrees h =
        turned env i Follows s.pcs es j (waiting (d ∷ todo)) _ at (λ x. absurd x) h
    Step-Follows s t es (nil_service j d todo at found) m agrees h =
        turned env i Follows s.pcs es j (waiting (d ∷ todo)) _ at (λ x. absurd x) h
    Step-Follows s t es (dependency_ready j k c d todo ch at got) m agrees h =
        turned env i Follows s.pcs es j (receiving d k c todo) _ at (λ x. absurd x) h
    Step-Follows s t es (dependency_failed j k c d todo e ch at got) m agrees h =
        turned env i Follows s.pcs es j (receiving d k c todo) _ at (λ x. absurd x) h
    Step-Follows s t es (dependencies_ready j at) m agrees h =
        turned env i Follows s.pcs es j (waiting []) _ at (λ x. absurd x) h
    Step-Follows s t es (call j attempts wait result at) m agrees h =
        eventful env i Follows s.pcs es (called result) j (calling attempts wait) _ at
          (λ same trying told. rw (same, m) (after-Follows es attempts wait result told.0 trying))
          agrees h
    Step-Follows s t es (timer j attempts wait at) m agrees h =
        eventful env i Follows s.pcs es waited j (backing_off attempts wait) _ at
          (λ same waits go. goes_on env retries ib attempts wait es waits go.0) agrees h
    Step-Follows s t es (interrupt j attempts wait at c) m agrees h =
        eventful env i Follows s.pcs es interrupted j (backing_off attempts wait) _ at
          (λ same waits stop. inr (refl, is_cancelled env retries ib attempts wait es waits stop.0))
          agrees h
    Step-Follows s t es (fail j e r o at did) m agrees h =
        turned env i Follows s.pcs es j (failing e) _ at (λ ended. inl ended) h
    Step-Follows s t es (succeed j r o at did) m agrees h =
        turned env i Follows s.pcs es j succeeding _ at (λ ended. (succeeded, ended)) h
    Step-Follows s t es (report j e c at sent) m agrees h =
        turned env i Follows s.pcs es j (reporting e) _ at
          (λ ended. elim ended [
            | inl (text, same, run) ↦ (gave_up text, run)
            | inr (same, run) ↦ (cancelled, run)
          ])
          h
    Step-Follows s t es cancel m agrees h = h
    Step-Follows s t es (outside j) m agrees h = h

  -- From a state of a StartAll in which a goroutine is about to make its first call, and whatever the
  -- others do meanwhile: where the goroutine stands at any time is where the function `retry` stands
  -- for the results of its calls and the ends of its waits so far. Before a call or in a wait, as many
  -- rounds of the function lead to that call, with the same number of attempts and the same wait;
  -- behind the loop, the function has ended as the goroutine goes on, behind the same number of calls.
  pub start-Follows :
      (env : Environment) (s t : System) (i : ℕ)
      → s.pcs i ≡ calling 1 (retry_conf (s.objects i)).1
      → (r : Reach services ctx_err s t) → Agrees env (history r i)
      → let (retries, ib) = retry_conf (s.objects i) in
        Follows env retries ib i (history r i) (t.pcs i)
  unfolding history retry_conf
  start-Follows env s t i at here agrees =
      let o = s.objects i in rw at (begins env o.retries o.initial_backoff)
  start-Follows env s t i at (next_step {t = u} r step) agrees =
      let o = s.objects i in
      Step-Follows env o.retries o.initial_backoff i u t (history r i) step (Reach-retries s u r i)
        agrees (start-Follows env s u i at r (Agrees-tail env (event step i) (history r i) agrees))
