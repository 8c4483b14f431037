-- ===== src/Boot/Returns.antt =====
-- maestro.go: what StartAll leaves behind when it returns.
use bandmaster.Base.{
  ℕ, ◌<◌, ◌≤◌, ◌≡◌, refl, sym, ap, ◌∙◌, subst, ◌≢◌, ◌⊎◌, inl, inr, String, true, false, none, [],
  ◌∷◌, In, length, arith, returned, Bool, Outcome,
}
use native.Mathlib.Decide.{ℕ_discrete}
use bandmaster.Base.Dict.{values, length-values}
use bandmaster.Errors.{Err}
use bandmaster.Channel.{Chan, receive, receive-shut, close-returned}
use bandmaster.ServiceBase.{Object}
use bandmaster.Registry.{Maestro, Program}
use bandmaster.Registry.Valid.{IsRegistry}
use bandmaster.Deps.Missing.{missing_errors}
use bandmaster.Boot.Defs.{entry, finished, System, Reach}
use bandmaster.Boot.Knowledge.{Ready}
use bandmaster.Boot.Order.{IsFreshBoot, fresh-Inv}
use bandmaster.Boot.StartAll.{StartAll, refused, ran, launch, launched, start_err_c, store_of}
use bandmaster.Boot.Checks.{IsBootable, start_checks-decides}
use bandmaster.Boot.Reports.{stage_of, Books, Reach-Books}
use bandmaster.Goroutines.Ledger.{Blames, Account, IsSettled, IsSettled-buffer}
use bandmaster.Boot.Objects.{is_started}

pub launched-entry : (m : Maestro) (i : ℕ) → In i (values m) → launched m i ≡ entry
unfolding launched
launched-entry [] i at = absurd at
launched-entry ((name, s) ∷ m) i at = elim (ℕ_discrete s i) [
  | yes e ↦ ground (arith, e)
  | no n ↦ elim at [
    | inl e ↦ absurd (n (sym e))
    | inr at' ↦ ground (arith, n, launched-entry m i at')
  ]
]

pub launched_cases :
    (m : Maestro) (i : ℕ) → (launched m i ≡ finished) ⊎ ((launched m i ≡ entry) × In i (values m))
unfolding launched
launched_cases [] i = inl refl
launched_cases ((name, s) ∷ m) i = elim (ℕ_discrete s i) [
  | yes e ↦ inr (ground (arith, e), inl (sym e))
  | no n ↦ elim (launched_cases m i) [
    | inl e ↦ inl (ground (arith, n, e))
    | inr (e, at) ↦ inr (ground (arith, n, e), inr at)
  ]
]

launch-Books :
    (p : Program) (ctx_err : String) → Books p.services ctx_err (launch p (start_err_c p))
launch-Books p ctx_err = record {
  accounts = λ i m. rw (launched-entry p.services i m) tt;
  running = λ i ne. elim (launched_cases p.services i) [
    | inl e ↦ absurd (ne (ap stage_of e))
    | inr (e, at) ↦ at
  ];
  reporters = [];
  distinct = tt;
  ended = λ i m. absurd m;
  counted = refl;
  sized = let same = length-values p.services in omega (arith, same);
  unclosed = refl;
  blamed = λ e m. absurd m;
}

-- A service that is started before StartAll has its dependencies started.
abbrev pub IsOrderly : Program → Type 0
IsOrderly p = (i : ℕ) → (store_of p i).started ≡ true → Ready p.services (store_of p) i []

pub launch-IsFreshBoot :
    (p : Program) (ctx_err : String) (c : Chan)
    → IsOrderly p
    → IsFreshBoot p.services ctx_err (launch p c)
launch-IsFreshBoot p ctx_err c orderly = record {
  entries = λ i. elim (launched_cases p.services i) [ inl e ↦ inr e | inr (e, at) ↦ inl e ];
  orderly = orderly;
}

pub launch-Reach-Books :
    (p : Program) (ctx_err : String) (t : System)
    → IsOrderly p
    → Reach p.services ctx_err (launch p (start_err_c p)) t
    → Books p.services ctx_err t
launch-Reach-Books p ctx_err t orderly r =
    Reach-Books p.services ctx_err (launch p (start_err_c p)) t r
      (fresh-Inv p.services ctx_err _ (launch-IsFreshBoot p ctx_err (start_err_c p) orderly))
      (launch-Books p ctx_err)

pub false_ne_true :
    {c c' : Chan} → ◌≢◌ {A = Outcome Err Bool × Chan} (returned false, c) (returned true, c')
false_ne_true e =
    let q : ◌≡◌ {A = Outcome Err Bool} (returned false) (returned true) = ap (λ r. r.0) e in cc

module _ (p : Program) (fuel : ℕ) (ctx_err : String) (valid : IsRegistry p)
    (room : length (missing_errors p p.services) ≤ length p.services)
    (deep : length p.services < fuel) (orderly : IsOrderly p) where
  -- Over a registry with no more missing dependencies than services, with a stack deeper than the
  -- number of services, and where the services started before have their dependencies started, a
  -- call of StartAll that returns leaves `errC` closed. Either a dependency is missing or there is
  -- a circle, the services are as they were, and `errC` has an error; or neither is the case, and
  -- each service of the map is started, or `errC` has an error that names it or is the context's.
  pub StartAll-settles :
      (objects : ℕ → Object) (d : Chan)
      → StartAll p fuel ctx_err objects d
      → (d.closed ≡ true)
        × (((¬ IsBootable p) × (objects ≡ store_of p) × (d.buffer ≢ []))
            ⊎ (IsBootable p
                × ((i : ℕ) → In i (values p.services) → IsSettled is_started ctx_err objects d i)))
  StartAll-settles objects d (refused c d' checked shut) =
      elim (start_checks-decides p fuel valid room deep) [
        | inl (refusal, not) ↦
            let (on, same) = close-returned c d shut in
            let err_c : refusal.err_c ≡ c = ap (λ r. r.1) (sym refusal.checked ∙ checked) in
            (on, inl (not, refl, λ e. refusal.told (ap (λ x. x.buffer) err_c ∙ sym same ∙ e)))
        | inr (went_on, boots) ↦ absurd (false_ne_true (sym went_on ∙ checked))
      ]
  StartAll-settles objects d (ran c d' t checked r ended shut) =
      elim (start_checks-decides p fuel valid room deep) [
        | inl (refusal, not) ↦ absurd (false_ne_true (sym checked ∙ refusal.checked))
        | inr (went_on, boots) ↦
            let (on, same) = close-returned t.err_c d shut in
            let err_c : start_err_c p ≡ c = ap (λ r. r.1) (sym went_on ∙ checked) in
            let books =
              launch-Reach-Books p ctx_err t orderly
                (subst (λ x. Reach p.services ctx_err (launch p x) t) (sym err_c) r) in
            (
              on,
              inr (
                boots,
                λ i m. IsSettled-buffer is_started ctx_err t.objects t.err_c d i same (
                    subst (λ x. Account is_started ctx_err t.objects t.err_c i (stage_of x))
                      (ended i m) (books.accounts i m)),
              ),
            )
      ]

  -- Over a registry that boots, each error that StartAll leaves in `errC` names a service, or is the
  -- context's.
  pub StartAll-Blames :
      IsBootable p
      → (objects : ℕ → Object) (d : Chan) → StartAll p fuel ctx_err objects d
      → (e : Err) → In e d.buffer
      → (i : ℕ) × Blames ctx_err i e
  StartAll-Blames boots objects d (refused c d' checked shut) e told =
      elim (start_checks-decides p fuel valid room deep) [
        | inl (refusal, not) ↦ absurd (not boots)
        | inr (went_on, _) ↦ absurd (false_ne_true (sym went_on ∙ checked))
      ]
  StartAll-Blames boots objects d (ran c d' t checked r ended shut) e told =
      elim (start_checks-decides p fuel valid room deep) [
        | inl (refusal, not) ↦ absurd (not boots)
        | inr (went_on, _) ↦
            let (on, same) = close-returned t.err_c d shut in
            let err_c : start_err_c p ≡ c = ap (λ r. r.1) (sym went_on ∙ checked) in
            let books =
              launch-Reach-Books p ctx_err t orderly
                (subst (λ x. Reach p.services ctx_err (launch p x) t) (sym err_c) r) in
            books.blamed e (subst (λ es. In e es) same told)
      ]

  -- Over a registry with no more missing dependencies than services, with a stack deeper than the
  -- number of services, and where the services started before have their dependencies started: if a
  -- call of StartAll returns with no error in `errC`, then the dependencies are registered and
  -- without a circle, every service of the map is started, and every receive from the channel yields
  -- nil at once.
  pub StartAll-succeeds :
      (objects : ℕ → Object) (d : Chan)
      → StartAll p fuel ctx_err objects d
      → d.buffer ≡ []
      → IsBootable p
        × ((i : ℕ) → In i (values p.services) → (objects i).started ≡ true)
        × (receive d ≡ returned (none, d))
  StartAll-succeeds objects d run empty =
      let (shut, outcome) = StartAll-settles objects d run in
      elim outcome [
        | inl (not, same, told) ↦ absurd (told empty)
        | inr (boots, settled) ↦ (
          boots,
          λ i m. elim (settled i m) [
            | inl on ↦ on
            | inr (e, at, b) ↦ absurd (subst (λ es. In e es) empty at)
          ],
          receive-shut d empty shut,
        )
      ]
