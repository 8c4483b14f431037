-- ===== src/Deps/Circular.antt =====
-- maestro.go: hasCircularDeps decides whether the dependencies of the services hold a circle.
use bandmaster.Base.{
  ℕ, suc, ◌+◌, ◌≡◌, refl, ◌∙◌, String, Bool, true, false, some, List, [], ◌∷◌, ◌++◌, In, Distinct,
  length, arith, length-append, Outcome, returned, ◌⊎◌, inl, inr, Exec,
}
use bandmaster.Base.Dict.{lookup}
use bandmaster.Errors.{Err}
use bandmaster.Channel.{Chan, HasRoom, send}
use bandmaster.ServiceBase.{dependencies}
use bandmaster.Registry.{Program, service_base}
use bandmaster.Deps.Defs.{
  push, circular_error, first_of_list, any_dep, object_at, report, descend, circular_rec,
}
use bandmaster.Deps.Graph.{IsRegistered, IsWalk, IsPath}
use bandmaster.Deps.Trail.{
  trail, insert-trail, circular_deps-trail, lookup-trail_new, lookup-trail_again,
}

-- `errC` is open and has room for one more error.
abbrev pub IsReady : Chan → Type 0
IsReady c = (c.closed ≡ false) × HasRoom c

abbrev pub with_error : Chan → Err → Chan
with_error c e = record c { buffer = c.buffer ++ e ∷ [] }

pub push-ready : (e : Err) (c : Chan) → IsReady c → push e c ≡ (returned tt, with_error c e)
unfolding push send
push-ready e c r = ground arith

-- A circle was reported: the error names a path along dependencies whose last name stands in it
-- before, and the service with which the path begins.
pub record Found (p : Program) (c : Chan) (r : Outcome Err Bool × Chan) : Type 0 where
  pub body : List String
  pub last : String
  pub path : IsPath p (body ++ last ∷ [])
  pub again : In last body
  pub reported : r ≡ (
    returned true,
    with_error c (
        circular_error (lookup (first_of_list (body ++ last ∷ [])) p.services) (body ++ last ∷ [])),
  )

-- No circle was met: every walk from `cur` keeps clear of the names before it and of itself.
pub record Clear (p : Program) (names : List String) (cur : String) (c : Chan)
    (r : Outcome Err Bool × Chan) : Type 0 where
  pub quiet : r ≡ (returned false, c)
  pub distinct : (ws : List String) → IsWalk p cur ws → Distinct (names ++ cur ∷ ws)

module _ (p : Program) (c : Chan) (ready : IsReady c) where
  report-trail :
      (names : List String) (cur : String)
      → report p (trail 0 names) cur (length names) c ≡ (
        returned true,
        with_error c (
            circular_error
              (lookup (first_of_list (names ++ cur ∷ [])) p.services)
              (names ++ cur ∷ [])),
      )
  unfolding report
  report-trail names cur = rw circular_deps-trail (rw (push-ready _ c ready))

  -- One call on a registered service.
  module _ (fuel : ℕ) (names : List String) (cur : String) (r : IsRegistered p cur) where
    abbrev pub call : Outcome Err Bool × Chan
    call = circular_rec p (suc fuel) (lookup cur p.services) (trail 0 names) (length names) c

    abbrev pub deeper : String → Exec Err Chan Bool
    deeper dep =
        circular_rec p fuel (lookup dep p.services) (trail 0 (names ++ cur ∷ []))
          (length (names ++ cur ∷ []))

    call-object :
        call
        ≡ descend p
            (λ dep. circular_rec p fuel (lookup dep p.services))
            cur
            r.object.direct_deps
            (trail 0 names)
            (length names)
            c
    unfolding circular_rec object_at service_base dependencies
    call-object =
        let at_cur : object_at p (lookup cur p.services) ≡ some r.object = rw r.found r.stored in
        rw (at_cur, circular_rec) (rw r.named)

    pub call-again : IsPath p (names ++ cur ∷ []) → In cur names → Found p c call
    unfolding descend
    call-again w i =
        let (n, met) = lookup-trail_again names cur i in
        record {
          body = names;
          last = cur;
          path = w;
          again = i;
          reported = call-object ∙ rw (met, descend) (report-trail names cur);
        }

    pub call-new : ¬ In cur names → call ≡ any_dep deeper r.object.direct_deps c
    unfolding descend
    call-new new =
        let next : length names + 1 ≡ length (names ++ cur ∷ []) =
          omega (arith, length-append names (cur ∷ [])) in
        call-object
        ∙ rw (lookup-trail_new names cur new, descend) (rw (insert-trail names cur new, next))

  -- The loop over dependencies finds a circle below one of them, or none below any.
  pub any_dep_verdict :
      (names : List String) (visit : String → Exec Err Chan Bool) (deps : List String)
      → ((d : String) → In d deps → Found p c (visit d c) ⊎ Clear p names d c (visit d c))
      → Found p c (any_dep visit deps c)
        ⊎ ((any_dep visit deps c ≡ (returned false, c))
            × ((d : String)
                → In d deps
                → (ws : List String) → IsWalk p d ws
                → Distinct (names ++ d ∷ ws)))
  unfolding any_dep
  any_dep_verdict names visit [] h = inr (refl, λ d i. absurd i)
  any_dep_verdict names visit (d ∷ deps) h = elim (h d (inl refl)) [
    | inl f ↦ inl (record {
      body = f.body;
      last = f.last;
      path = f.path;
      again = f.again;
      reported = rw f.reported;
    })
    | inr q ↦ elim (any_dep_verdict names visit deps (λ e i. h e (inr i))) [
      | inl f ↦ inl (record {
        body = f.body;
        last = f.last;
        path = f.path;
        again = f.again;
        reported = rw q.quiet f.reported;
      })
      | inr (e, all) ↦
          inr (rw q.quiet e, λ x i. elim i [ inl same ↦ rw same q.distinct | inr i' ↦ all x i' ])
    ]
  ]
