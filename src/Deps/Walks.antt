-- ===== src/Deps/Walks.antt =====
-- Walks along dependencies without a circle.
use bandmaster.Base.{
  ◌≤◌, ◌<◌, sym, subst, ◌≢◌, inl, inr, String, List, [], ◌∷◌, ◌++◌, In, Distinct, All-of_in, length,
  arith,
}
use bandmaster.Base.Dict.{keys, length-keys}
use bandmaster.Base.Pigeonhole.{length-le_of_distinct}
use bandmaster.Registry.{Program}
use bandmaster.Deps.Graph.{Edge, IsWalk, IsClosed, IsCircle}

module _ (p : Program) where
  -- The part of a walk up to a name in it.
  up_to :
      (a b : String) (ws : List String)
      → IsWalk p a ws
      → In b ws
      → (between : List String) × IsWalk p a (between ++ b ∷ [])
  up_to a b [] w i = absurd i
  up_to a b (x ∷ ws) w (inl e) = ([], (subst (λ y. Edge p a y) (sym e) w.0, tt))
  up_to a b (x ∷ ws) w (inr i) =
      let (between, walk) = up_to x b ws w.1 i in (x ∷ between, (w.0, walk))

  distinct_path :
      ((a : String) → ¬ IsCircle p a)
      → (x : String) (ws : List String) → IsWalk p x ws
      → Distinct (x ∷ ws)
  distinct_path none x [] w = (tt, tt)
  distinct_path none x (y ∷ ws) w = (
    All-of_in (λ z. x ≢ z) (y ∷ ws)
        (λ z i e.
          let (between, walk) = up_to x z (y ∷ ws) w i in
          none x (record {
            between = between;
            walk = subst (λ v. IsWalk p x (between ++ v ∷ [])) (sym e) walk;
          })),
    distinct_path none y ws w.1,
  )

  names_registered :
      IsClosed p
      → (x : String) (ws : List String) → In x (keys p.services)
      → IsWalk p x ws
      → (z : String) → In z (x ∷ ws)
      → In z (keys p.services)
  names_registered closed x ws k w z (inl e) = subst (λ y. In y (keys p.services)) (sym e) k
  names_registered closed x (y ∷ ws) k w z (inr i) =
      names_registered closed y ws (closed x y w.0) w.1 z i
  names_registered closed x [] k w z (inr i) = absurd i

  -- A walk over registered names is shorter than the registry.
  pub length-walk_in :
      ((a : String) → ¬ IsCircle p a)
      → (x : String) (ws : List String) → ((z : String) → In z (x ∷ ws) → In z (keys p.services))
      → IsWalk p x ws
      → length ws < length p.services
  length-walk_in none x ws known w =
      let bound : length (x ∷ ws) ≤ length (keys p.services) =
        length-le_of_distinct (x ∷ ws) (keys p.services) (distinct_path none x ws w) known in
      omega (arith, bound, length-keys p.services)

  pub length-walk :
      IsClosed p
      → ((a : String) → ¬ IsCircle p a)
      → (x : String) (ws : List String) → In x (keys p.services)
      → IsWalk p x ws
      → length ws < length p.services
  length-walk closed none x ws k w = length-walk_in none x ws (names_registered closed x ws k w) w
