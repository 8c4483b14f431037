-- ===== src/Example/Reports.antt =====
-- example/main.go: what the loop over the errors of StartAll prints.
use bandmaster.Base.{
  ℕ, ◌<◌, ◌≡◌, refl, sym, ap, ◌∙◌, subst, ◌⊎◌, inl, inr, String, true, false, some, List, [], ◌∷◌,
  In, length, returned,
}
use bandmaster.Base.Dict.{values}
use bandmaster.Errors.{Err, Error, foreign, plain, with_stack}
use bandmaster.Channel.{Chan}
use bandmaster.ServiceBase.{Object}
use bandmaster.Registry.{Program}
use bandmaster.Registry.Valid.{IsRegistry}
use bandmaster.Goroutines.Ledger.{Blames, service_of}
use bandmaster.Boot.StartAll.{StartAll}
use bandmaster.Boot.Checks.{IsBootable, length-missing_errors}
use bandmaster.Boot.Returns.{IsOrderly, StartAll-settles, StartAll-Blames}
use bandmaster.Example.Defs.{
  Report, required_failed, optional_failed, report, report_of, report_error, cons_report,
  add_report, report_all,
}

module _ (objects : ℕ → Object) (ctx_err : String) where
  -- A line about an error that names the service `i`, under the name of the service: as one that
  -- could not be started although it is required, or as an optional one.
  pub record IsReported (i : ℕ) (rs : List Report) : Type 0 where
    pub error : Error
    pub names : error.service ≡ some i
    pub as_required : (objects i).required ≡ true → In (required_failed error (objects i).name) rs
    pub as_optional : (objects i).required ≡ false → In (optional_failed error (objects i).name) rs

  -- The line that is printed.
  of_line :
      (i : ℕ) (e : Error) (rs : List Report)
      → e.service ≡ some i
      → In (report_of (objects i) e) rs
      → IsReported i rs
  unfolding report_of
  of_line i e rs names printed = record {
    error = e;
    names = names;
    as_required = λ on. rw on at printed;
    as_optional = λ off. rw off at printed;
  }

  -- The lines `rs` for the errors `es`.
  abbrev Prints : List Err → List Report → Type 0
  Prints es rs =
      (report_all objects es ≡ returned rs)
      × ((i : ℕ) (e : Err) → In e es → Blames ctx_err i e → IsReported i rs ⊎ (e ≡ foreign ctx_err))

  still-IsReported :
      (i : ℕ) (r : Report) (rs : List Report) → IsReported i rs → IsReported i (r ∷ rs)
  still-IsReported i r rs h = record {
    error = h.error;
    names = h.names;
    as_required = λ on. inr (h.as_required on);
    as_optional = λ off. inr (h.as_optional off);
  }

  -- A round for an error `x` that holds `e`, of the service `i`.
  named_round :
      (x : Err) (e : Error) (i : ℕ) (es : List Err) (rs : List Report)
      → e.service ≡ some i
      → service_of x ≡ e.service
      → report objects x ≡ report_error objects e e.service
      → Prints es rs
      → Prints (x ∷ es) (report_of (objects i) e ∷ rs)
  unfolding report_all add_report cons_report report_error
  named_round x e i es rs named holds reports (rest, told) = (
    rw (reports, named, rest) refl,
    λ k y m b. elim m [
      | inr m' ↦ elim (told k y m' b) [
        | inl h ↦ inl (still-IsReported k (report_of (objects i) e) rs h)
        | inr own ↦ inr own
      ]
      | inl same ↦ elim b [
        | inr own ↦ inr own
        | inl blamed ↦
            let at_k : some i ≡ some k =
              sym named ∙ sym holds ∙ ap service_of (sym same) ∙ blamed in
            let here : i ≡ k = cc in
            inl (
              of_line k e (report_of (objects i) e ∷ rs) (named ∙ at_k)
                (inl (ap (λ j. report_of (objects j) e) (sym here))))
      ]
    ],
  )

  round :
      (x : Err) (i : ℕ) (es : List Err) (rs : List Report)
      → Blames ctx_err i x
      → Prints es rs
      → (rs' : List Report) × Prints (x ∷ es) rs'
  unfolding report report_all add_report
  round (foreign text) i es rs (inl named) prints = absurd (cc)
  round (foreign text) i es rs (inr own) (rest, told) =
      (rs, (rest, λ k y m b. elim m [ inl same ↦ inr (same ∙ own) | inr m' ↦ told k y m' b ]))
  round (plain e) i es rs (inl named) prints =
      (_, named_round (plain e) e i es rs named refl refl prints)
  round (plain e) i es rs (inr own) prints = absurd (cc)
  round (with_stack e) i es rs (inl named) prints =
      (_, named_round (with_stack e) e i es rs named refl refl prints)
  round (with_stack e) i es rs (inr own) prints = absurd (cc)

  -- The lines of errors that name services or are the context's.
  all_rounds :
      (es : List Err)
      → ((e : Err) → In e es → (i : ℕ) × Blames ctx_err i e)
      → (rs : List Report) × Prints es rs
  unfolding report_all
  all_rounds [] blames = ([], (refl, λ i e m b. absurd m))
  all_rounds (x ∷ es) blames =
      let (i, b) = blames x (inl refl) in
      let (rs, prints) = all_rounds es (λ e m. blames e (inr m)) in round x i es rs b prints

module _ (p : Program) (fuel : ℕ) (ctx_err : String) (valid : IsRegistry p) (boots : IsBootable p)
    (deep : length p.services < fuel) (orderly : IsOrderly p) where
  -- Over a registry that boots, with a stack deeper than the number of services, and where the
  -- services started before have their dependencies started: main gets through its loop over the
  -- errors of a StartAll that returns, without a nil dereference, and for every service of the map
  -- that is not started, either there is a line with its name about an error that names it, which says
  -- that the service is required if it is and that it is optional if it is not, or the context's error
  -- is in `errC`, which has no line.
  pub report_all-IsReported :
      (objects : ℕ → Object) (d : Chan)
      → StartAll p fuel ctx_err objects d
      → (rs : List Report) × (report_all objects d.buffer ≡ returned rs)
        × ((i : ℕ)
            → In i (values p.services)
            → ((objects i).started ≡ true)
              ⊎ IsReported objects ctx_err i rs
              ⊎ In (foreign ctx_err) d.buffer)
  report_all-IsReported objects d run =
      let room = length-missing_errors p valid boots in
      let (rs, (returns, told)) =
        all_rounds objects ctx_err d.buffer
          (StartAll-Blames p fuel ctx_err valid room deep orderly boots objects d run) in
      let (shut, outcome) = StartAll-settles p fuel ctx_err valid room deep orderly objects d run in
      (
        rs,
        returns,
        λ i m. elim outcome [
          | inl (not, same, some_told) ↦ absurd (not boots)
          | inr (_, settled) ↦ elim (settled i m) [
            | inl on ↦ inl on
            | inr (e, at, b) ↦ elim (told i e at b) [
              | inl line ↦ inr (inl line)
              | inr own ↦ inr (inr (subst (λ x. In x d.buffer) own at))
            ]
          ]
        ],
      )
