-- ===== src/Deps/Graph.antt =====
-- The dependency graph of a program: what hasMissingDeps and hasCircularDeps decide.
use bandmaster.Base.{
  ℕ, ◌≡◌, refl, ◌≢◌, String, some, List, [], ◌∷◌, ◌++◌, In, Distinct, All-at, in-append_right,
  subst, sym, ap, ◌∙◌, inl, inr,
}
use bandmaster.Base.Dict.{lookup, keys, lookup-of_keys, lookup-in}
use bandmaster.ServiceBase.{Object}
use bandmaster.Registry.{Program}
use bandmaster.Registry.Valid.{IsEntry, IsRegistry}

-- The service that is registered under a name.
pub record IsRegistered (p : Program) (name : String) : Type 0 where
  pub address : ℕ
  pub object : Object
  pub found : lookup name p.services ≡ some address
  pub stored : p.objects address ≡ some object
  pub named : object.name ≡ name

-- The service `a` depends directly on `b`.
pub record Edge (p : Program) (a b : String) : Type 0 where
  pub from : IsRegistered p a
  pub needs : In b from.object.direct_deps

-- The names `ws` follow `a` along dependencies.
abbrev pub IsWalk : Program → String → List String → Type 0
IsWalk p a [] = Unit
IsWalk p a (w ∷ ws) = Edge p a w × IsWalk p w ws

-- Every dependency of a registered service is registered.
abbrev pub IsClosed : Program → Type 0
IsClosed p = (a b : String) → Edge p a b → In b (keys p.services)

-- A circle: a walk from a name back to it.
pub record IsCircle (p : Program) (a : String) : Type 0 where
  pub between : List String
  pub walk : IsWalk p a (between ++ a ∷ [])

-- A registry knows the service behind each registered name.
pub registered :
    (p : Program) (name : String) → IsRegistry p → In name (keys p.services) → IsRegistered p name
registered p name v i =
    let (s, e) = lookup-of_keys name p.services i in
    let entry =
      All-at (IsEntry p.objects) p.services v.entries (name, s) (lookup-in name p.services s e) in
    record {
      address = s;
      object = entry.object;
      found = e;
      stored = entry.stored;
      named = entry.named;
    }

-- Of one name there is one service.
pub registered_object : (p : Program) (a : String) (r q : IsRegistered p a) → r.object ≡ q.object
registered_object p a r q =
    let found : some r.address ≡ some q.address = sym r.found ∙ q.found in
    let same : r.address ≡ q.address = cc in
    let stored : some r.object ≡ some q.object = sym r.stored ∙ ap p.objects same ∙ q.stored in cc

-- Each name depends on the one behind it.
abbrev pub IsPath : Program → List String → Type 0
IsPath p [] = Unit
IsPath p (x ∷ xs) = IsWalk p x xs

IsWalk-snoc :
    (p : Program) (x : String) (xs : List String) (a b : String)
    → IsWalk p x (xs ++ a ∷ [])
    → Edge p a b
    → IsWalk p x ((xs ++ a ∷ []) ++ b ∷ [])
IsWalk-snoc p x [] a b w e = (w.0, (e, tt))
IsWalk-snoc p x (y ∷ xs) a b w e = (w.0, IsWalk-snoc p y xs a b w.1 e)

pub IsPath-snoc :
    (p : Program) (xs : List String) (a b : String)
    → IsPath p (xs ++ a ∷ [])
    → Edge p a b
    → IsPath p ((xs ++ a ∷ []) ++ b ∷ [])
IsPath-snoc p [] a b w e = (e, tt)
IsPath-snoc p (x ∷ xs) a b w e = IsWalk-snoc p x xs a b w e

-- A path whose last name stands in it before holds a circle.
pub IsCircle-of_path :
    (p : Program) (xs : List String) (a : String) → IsPath p (xs ++ a ∷ []) → In a xs → IsCircle p a
IsCircle-of_path p [] a w i = absurd i
IsCircle-of_path p (x ∷ xs) a w (inl e) = record {
  between = xs;
  walk = subst (λ y. IsWalk p y (xs ++ a ∷ [])) (sym e) w;
}
IsCircle-of_path p (x ∷ y ∷ xs) a w (inr i) = IsCircle-of_path p (y ∷ xs) a w.1 i
IsCircle-of_path p (x ∷ []) a w (inr i) = absurd i

-- Where no walk from `a` repeats a name, there is no circle at `a`.
pub no-IsCircle :
    (p : Program) (a : String)
    → ((ws : List String) → IsWalk p a ws → Distinct (a ∷ ws))
    → ¬ IsCircle p a
no-IsCircle p a h c =
    All-at (λ y. a ≢ y) (c.between ++ a ∷ []) (h (c.between ++ a ∷ []) c.walk).0 a
      (in-append_right a c.between (a ∷ []) (inl refl)) refl
