-- ===== src/Goroutines/Ledger.antt =====
-- maestro.go: what becomes of each goroutine of StartAll or of StopAll, and the room that `errC` has
-- for errors. The flag is `started` for StartAll and `stopped` for StopAll.
use bandmaster.Base.{
  ℕ, ◌≤◌, ◌≡◌, refl, sym, ap, ◌∙◌, subst, ◌≢◌, ◌⊎◌, inl, inr, String, Bool, true, false, Option,
  none, some, List, [], ◌∷◌, In, Distinct, All-of_in, length, length-append, arith, in-append_left,
  in-append_right, in-append_cases,
}
use native.Mathlib.Decide.{ℕ_discrete}
use bandmaster.Base.Dict.{values}
use bandmaster.Base.Family.{update, update_self, update_ne}
use bandmaster.Base.Pigeonhole.{length-le_of_distinct}
use bandmaster.Errors.{Err, foreign, plain, with_stack}
use bandmaster.Channel.{Chan}
use bandmaster.ServiceBase.{ServiceBase, Object}
use bandmaster.Registry.{Maestro}
use bandmaster.Deps.Circular.{IsReady, with_error}

-- What the account needs to know of a goroutine: whether it has an error to report, and whether it
-- has ended.
pub data Stage : Type 0 where
  working : Stage
  faulty : Err → Stage
  done : Stage

-- The service that an error names.
abbrev pub service_of : Err → Option ℕ
service_of (foreign text) = none
service_of (plain e) = e.service
service_of (with_stack e) = e.service

-- An error of the goroutine `i`: it names the service, or is the context's own.
abbrev pub Blames : String → ℕ → Err → Type 0
Blames ctx_err i e = (service_of e ≡ some i) ⊎ (e ≡ foreign ctx_err)

module _ (flag : ServiceBase → Bool) (ctx_err : String) where
  -- The flag of the service is set, or an error of its goroutine stands in `errC`.
  abbrev pub IsSettled : (ℕ → Object) → Chan → ℕ → Type 0
  IsSettled objects c i =
      (flag (objects i).base ≡ true) ⊎ ((e : Err) × In e c.buffer × Blames ctx_err i e)

  -- Whatever else becomes of the channel.
  pub IsSettled-buffer :
      (objects : ℕ → Object) (c d : Chan) (i : ℕ)
      → d.buffer ≡ c.buffer
      → IsSettled objects c i
      → IsSettled objects d i
  IsSettled-buffer objects c d i same (inl on) = inl on
  IsSettled-buffer objects c d i same (inr (e, m, b)) =
      inr (e, subst (λ es. In e es) (sym same) m, b)

  abbrev pub Account : (ℕ → Object) → Chan → ℕ → Stage → Type 0
  Account objects c i working = Unit
  Account objects c i (faulty e) = Blames ctx_err i e
  Account objects c i done = IsSettled objects c i

  -- `view` says at which stage a goroutine is.
  module _ {Pc : Type 0} (view : Pc → Stage) (services : Maestro) where
    -- The goroutines that have reported an error, one error each.
    pub record Ledger (objects : ℕ → Object) (pcs : ℕ → Pc) (c : Chan) : Type 0 where
      pub accounts : (i : ℕ) → In i (values services) → Account objects c i (view (pcs i))
      pub running : (i : ℕ) → view (pcs i) ≢ done → In i (values services)
      pub reporters : List ℕ
      pub distinct : Distinct reporters
      pub ended : (i : ℕ) → In i reporters → (view (pcs i) ≡ done) × In i (values services)
      pub counted : length reporters ≡ length c.buffer
      pub sized : length (values services) ≤ c.capacity
      pub unclosed : c.closed ≡ false
      pub blamed : (e : Err) → In e c.buffer → (i : ℕ) × Blames ctx_err i e

    Account-mono :
        (objects objects' : ℕ → Object) (c c' : Chan) (i : ℕ) (stage : Stage)
        → (flag (objects i).base ≡ true → flag (objects' i).base ≡ true)
        → ((e : Err) → In e c.buffer → In e c'.buffer)
        → Account objects c i stage
        → Account objects' c' i stage
    Account-mono objects objects' c c' i working kept more h = tt
    Account-mono objects objects' c c' i (faulty e) kept more h = h
    Account-mono objects objects' c c' i done kept more (inl on) = inl (kept on)
    Account-mono objects objects' c c' i done kept more (inr (e, m, b)) = inr (e, more e m, b)

    module _ (objects objects' : ℕ → Object) (pcs : ℕ → Pc) (c : Chan)
        (l : Ledger objects pcs c) where
      -- A service is started behind the step if it was before.
      module _ (kept : (k : ℕ) → flag (objects k).base ≡ true → flag (objects' k).base ≡ true) where
        pub still-Ledger : Ledger objects' pcs c
        still-Ledger = record {
          accounts = λ k m.
              Account-mono objects objects' c c k (view (pcs k)) (kept k) (λ e i. i)
                (l.accounts k m);
          running = l.running;
          reporters = l.reporters;
          distinct = l.distinct;
          ended = l.ended;
          counted = l.counted;
          sized = l.sized;
          unclosed = l.unclosed;
          blamed = l.blamed;
        }

        module _ (i : ℕ) (old pc : Pc) (at : pcs i ≡ old) (runs : view old ≢ done) where
          here_running : In i (values services)
          here_running = l.running i (λ e. runs (sym (ap view at) ∙ e))

          others : (k : ℕ) → view (pcs k) ≡ done → view (update pcs i pc k) ≡ done
          others k e =
              ap view (
                update_ne pcs i pc k
                  (λ same. runs (sym (ap view at) ∙ ap (λ x. view (pcs x)) same ∙ e)))
              ∙ e

          accounts_with :
              (c' : Chan)
              → ((e : Err) → In e c.buffer → In e c'.buffer)
              → Account objects' c' i (view pc)
              → (k : ℕ) → In k (values services)
              → Account objects' c' k (view (update pcs i pc k))
          accounts_with c' more h k m = elim (ℕ_discrete i k) [
            | yes e ↦
                subst (λ x. Account objects' c' x (view (update pcs i pc x))) e
                  (rw (update_self pcs i pc) h)
            | no n ↦
                rw (update_ne pcs i pc k n) (
                  Account-mono objects objects' c c' k (view (pcs k)) (kept k) more
                    (l.accounts k m))
          ]

          running_with : (k : ℕ) → view (update pcs i pc k) ≢ done → In k (values services)
          running_with k ne = elim (ℕ_discrete i k) [
            | yes e ↦ subst (λ x. In x (values services)) e here_running
            | no n ↦ l.running k (λ e. ne (others k e))
          ]

          -- The goroutine goes on, without a word to `errC`.
          pub turn-Ledger : Account objects' c i (view pc) → Ledger objects' (update pcs i pc) c
          turn-Ledger h = record {
            accounts = accounts_with c (λ e m. m) h;
            running = running_with;
            reporters = l.reporters;
            distinct = l.distinct;
            ended = λ k m. let (e, r) = l.ended k m in (others k e, r);
            counted = l.counted;
            sized = l.sized;
            unclosed = l.unclosed;
            blamed = l.blamed;
          }

          -- It has not reported before.
          new_reporter : (k : ℕ) → In k l.reporters → i ≢ k
          new_reporter k m e = runs (sym (ap view at) ∙ ap (λ x. view (pcs x)) e ∙ (l.ended k m).0)

          -- There is room for the error of every goroutine.
          pub err_c-IsReady : IsReady c
          err_c-IsReady =
              let bound : length (i ∷ l.reporters) ≤ length (values services) =
                length-le_of_distinct (i ∷ l.reporters) (values services)
                  (All-of_in (λ k. i ≢ k) l.reporters new_reporter, l.distinct)
                  (λ k m. elim m [
                    | inl e ↦ subst (λ x. In x (values services)) (sym e) here_running
                    | inr m' ↦ (l.ended k m').1
                  ]) in
              (l.unclosed, omega (arith, bound, l.counted, l.sized))

          -- It ends with its error in `errC`.
          pub report-Ledger :
              (e : Err)
              → view pc ≡ done
              → Blames ctx_err i e
              → Ledger objects' (update pcs i pc) (with_error c e)
          report-Ledger e last blames = record {
            accounts =
                accounts_with (with_error c e) (λ x m. in-append_left x c.buffer (e ∷ []) m)
                  (rw last (inr (e, in-append_right e c.buffer (e ∷ []) (inl refl), blames)));
            running = running_with;
            reporters = i ∷ l.reporters;
            distinct = (All-of_in (λ k. i ≢ k) l.reporters new_reporter, l.distinct);
            ended = λ k m. elim m [
              | inl same ↦
                  subst (λ x. (view (update pcs i pc x) ≡ done) × In x (values services)) (sym same)
                    (ap view (update_self pcs i pc) ∙ last, here_running)
              | inr m' ↦ let (e', r) = l.ended k m' in (others k e', r)
            ];
            counted = omega (arith, l.counted, length-append c.buffer (e ∷ []));
            sized = l.sized;
            unclosed = l.unclosed;
            blamed = λ x m. elim (in-append_cases x c.buffer (e ∷ []) m) [
              | inl before ↦ l.blamed x before
              | inr (inl same) ↦ (i, rw same blames)
              | inr (inr nothing) ↦ absurd nothing
            ];
          }
