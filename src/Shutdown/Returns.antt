-- ===== src/Shutdown/Returns.antt =====
-- maestro.go: what StopAll leaves behind when it returns.
use bandmaster.Base.{ℕ, ◌≡◌, refl, ap, subst, inl, inr, String, true, none, [], In, arith, returned}
use bandmaster.Base.Dict.{values, length-values}
use bandmaster.Channel.{Chan, receive, receive-shut, close-returned}
use bandmaster.ServiceBase.{Object}
use bandmaster.Registry.{Maestro}
use bandmaster.Errors.{Err}
use bandmaster.Goroutines.Ledger.{Blames, Account, IsSettled, IsSettled-buffer}
use bandmaster.Shutdown.Defs.{System, Reach, here, stop_launch}
use bandmaster.Shutdown.Objects.{is_stopped}
use bandmaster.Shutdown.Launch.{stop_launched-entry, stop_launched_cases, stop_launch-AtEntry}
use bandmaster.Shutdown.Effects.{begins-Knows}
use bandmaster.Shutdown.Reports.{stage_of, Books, Reach-Books}
use bandmaster.Shutdown.StopAll.{StopAll, wound_down}

module _ (m : Maestro) (ctx_err : String) (objects : ℕ → Object) where
  stop_launch-Books : Books m ctx_err (stop_launch m objects)
  stop_launch-Books = record {
    accounts = λ i at. rw (stop_launched-entry m i at) tt;
    running = λ i ne. elim (stop_launched_cases m i) [
      | inl e ↦ absurd (ne (ap stage_of e))
      | inr (e, at) ↦ at
    ];
    reporters = [];
    distinct = tt;
    ended = λ i at. absurd at;
    counted = refl;
    sized = let same = length-values m in omega (arith, same);
    unclosed = refl;
    blamed = λ e m. absurd m;
  }

  pub stop_launch-Reach-Books :
      (t : System) → Reach m ctx_err (stop_launch m objects) t → Books m ctx_err t
  stop_launch-Reach-Books t r =
      Reach-Books m ctx_err (stop_launch m objects) t r
        (begins-Knows m ctx_err (stop_launch m objects) (stop_launch m objects)
          (stop_launch-AtEntry m objects) here)
        stop_launch-Books

  -- Whatever the services were before it, and in whatever order its goroutines take their steps: a
  -- call of StopAll that returns leaves `errC` closed, and each service of the map is stopped, or
  -- `errC` has an error that names it or is the context's.
  pub StopAll-settles :
      (objects' : ℕ → Object) (d : Chan)
      → StopAll m ctx_err objects objects' d
      → (d.closed ≡ true) × ((i : ℕ) → In i (values m) → IsSettled is_stopped ctx_err objects' d i)
  StopAll-settles objects' d (wound_down t d' r ended shut) =
      let (on, same) = close-returned t.err_c d shut in
      let books = stop_launch-Reach-Books t r in
      (
        on,
        λ i at. IsSettled-buffer is_stopped ctx_err t.objects t.err_c d i same (
            subst (λ pc. Account is_stopped ctx_err t.objects t.err_c i (stage_of pc)) (ended i at)
              (books.accounts i at)),
      )

  -- Each error that StopAll leaves in `errC` names a service, or is the context's.
  pub StopAll-Blames :
      (objects' : ℕ → Object) (d : Chan)
      → StopAll m ctx_err objects objects' d
      → (e : Err) → In e d.buffer
      → (i : ℕ) × Blames ctx_err i e
  StopAll-Blames objects' d (wound_down t d' r ended shut) e told =
      let (on, same) = close-returned t.err_c d shut in
      (stop_launch-Reach-Books t r).blamed e (subst (λ es. In e es) same told)

  -- If a call of StopAll returns with no error in `errC`, then every service of the map is stopped,
  -- and every receive from the channel yields nil at once.
  pub StopAll-succeeds :
      (objects' : ℕ → Object) (d : Chan)
      → StopAll m ctx_err objects objects' d
      → d.buffer ≡ []
      → ((i : ℕ) → In i (values m) → (objects' i).stopped ≡ true) × (receive d ≡ returned (none, d))
  StopAll-succeeds objects' d run empty =
      let (shut, settled) = StopAll-settles objects' d run in
      (
        λ i at. elim (settled i at) [
          | inl off ↦ off
          | inr (e, told, b) ↦ absurd (subst (λ es. In e es) empty told)
        ],
        receive-shut d empty shut,
      )
