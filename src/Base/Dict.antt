-- ===== src/Base/Dict.antt =====
-- A Go map with text keys, as an association list: its order is the order in which a `range` loop
-- happens to visit it.
use Prim.Native.Nat.{suc}
use Prim.Native.String.{String}
use mathlib.Core.Path.{◌≡◌, refl, sym, ap, subst}
use mathlib.Core.Logic.{◌≢◌, ◌↔◌, ◌⊎◌, inl, inr}
use mathlib.Core.Bool.{Bool, true, false, ◌||◌}
use mathlib.Core.Option.{Option, none, some}
use mathlib.Core.List.{List, [], ◌∷◌, ◌++◌}
use native.Mathlib.Omega.{arith}
use text.Mathlib.Text.{◌==◌}
use text.Mathlib.TextEquality.{eq_iff}
use text.Mathlib.TextPositions.{eq_refl}
use bandmaster.Base.Tests.{if◌then◌else◌, Bool-cases, text_cases, eq_false}
use bandmaster.Base.Lists.{All-at, All-of_in, Distinct, In, length}

-- `_, ok := set[key]`
unfoldable pub member : String → List String → Bool
member k [] = false
member k (j ∷ js) = j == k || member k js

pub member_iff : (k : String) (js : List String) → (member k js ≡ true) ↔ In k js
unfolding member
member_iff k [] = (λ e. cc, λ m. absurd m)
member_iff k (j ∷ js) = ground (arith, eq_iff j k, member_iff k js)

-- A text is in a list or not.
pub in_cases : (k : String) (js : List String) → In k js ⊎ (¬ In k js)
in_cases k js = elim (Bool-cases (member k js)) [
  | inl e ↦ inl ((member_iff k js).0 e)
  | inr e ↦ inr (λ i. cc (e, (member_iff k js).1 i))
]

module _ {ℓ} {V : Type ℓ} where
  abbrev pub keys : List (String × V) → List String
  keys [] = []
  keys ((k, v) ∷ m) = k ∷ keys m

  abbrev pub values : List (String × V) → List V
  values [] = []
  values ((k, v) ∷ m) = v ∷ values m

  unfoldable pub lookup : String → List (String × V) → Option V
  lookup key [] = none
  lookup key ((name, value) ∷ rest) = if name == key then some value else lookup key rest

  unfoldable pub insert : String → V → List (String × V) → List (String × V)
  insert key new [] = (key, new) ∷ []
  insert key new ((name, value) ∷ rest) =
      if name == key then (key, new) ∷ rest else (name, value) ∷ insert key new rest

  pub lookup-insert :
      (key other : String) (new : V) (entries : List (String × V))
      → lookup other (insert key new entries)
        ≡ (if key == other then some new else lookup other entries)
  unfolding lookup insert
  lookup-insert key other new [] = refl
  lookup-insert key other new ((name, value) ∷ rest) = ground (
    arith,
    lookup-insert key other new rest,
    eq_iff name other,
    eq_iff name key,
    eq_iff key other,
  )

  pub lookup-eq-none : (k : String) (m : List (String × V)) → lookup k m ≡ none → ¬ In k (keys m)
  unfolding lookup
  lookup-eq-none k [] h i = absurd i
  lookup-eq-none k ((j, v) ∷ m) h i = ground (arith, eq_iff j k, lookup-eq-none k m)

  pub lookup-of_keys :
      (k : String) (m : List (String × V)) → In k (keys m) → (v : V) × (lookup k m ≡ some v)
  unfolding lookup
  lookup-of_keys k [] i = absurd i
  lookup-of_keys k ((j, v) ∷ m) i = elim (text_cases j k) [
    | inl e ↦ (v, rw (e, eq_refl))
    | inr ne ↦ elim i [
      | inl e ↦ absurd (ne (sym e))
      | inr i' ↦ rw (eq_false j k ne) (lookup-of_keys k m i')
    ]
  ]

  pub keys-of_lookup :
      (k : String) (m : List (String × V)) (v : V) → lookup k m ≡ some v → In k (keys m)
  unfolding lookup
  keys-of_lookup k [] v h = cc
  keys-of_lookup k ((j, w) ∷ m) v h = elim (text_cases j k) [
    | inl e ↦ inl (sym e)
    | inr ne ↦ inr (keys-of_lookup k m v (rw (eq_false j k ne) at h))
  ]

  pub length-keys : (m : List (String × V)) → length (keys m) ≡ length m
  length-keys [] = refl
  length-keys ((k, v) ∷ m) = ap suc (length-keys m)

  pub length-values : (m : List (String × V)) → length m ≡ length (values m)
  length-values [] = refl
  length-values ((k, v) ∷ m) = ap suc (length-values m)

  pub insert-new :
      (k : String) (v : V) (m : List (String × V))
      → ¬ In k (keys m)
      → insert k v m ≡ m ++ (k, v) ∷ []
  unfolding insert
  insert-new k v [] h = refl
  insert-new k v ((j, w) ∷ m) h =
      rw (eq_false j k (λ e. h (inl (sym e))))
        (ap (λ r. (j, w) ∷ r) (insert-new k v m (λ i. h (inr i))))

  pub keys-append : (m n : List (String × V)) → keys (m ++ n) ≡ keys m ++ keys n
  keys-append [] n = refl
  keys-append ((k, v) ∷ m) n = ap (λ r. k ∷ r) (keys-append m n)

  pub values-append : (m n : List (String × V)) → values (m ++ n) ≡ values m ++ values n
  values-append [] n = refl
  values-append ((k, v) ∷ m) n = ap (λ r. v ∷ r) (values-append m n)

module _ {V : Type 0} where
  entry_eq : (j k : String) (w v : V) → j ≡ k → some w ≡ some v → ◌≡◌ {A = String × V} (k, v) (j, w)
  entry_eq j k w v e h = cc

  pub lookup-in : (k : String) (m : List (String × V)) (v : V) → lookup k m ≡ some v → In (k, v) m
  unfolding lookup
  lookup-in k [] v h = cc
  lookup-in k ((j, w) ∷ m) v h = elim (text_cases j k) [
    | inl e ↦ let found : some w ≡ some v = rw (e, eq_refl) at h in inl (entry_eq j k w v e found)
    | inr ne ↦ inr (lookup-in k m v (rw (eq_false j k ne) at h))
  ]

  pub keys_of_in : (k : String) (m : List (String × V)) (v : V) → In (k, v) m → In k (keys m)
  keys_of_in k [] v i = i
  keys_of_in k ((j, w) ∷ m) v (inl e) = inl (ap (λ r. r.0) e)
  keys_of_in k ((j, w) ∷ m) v (inr i) = inr (keys_of_in k m v i)

  pub in-lookup :
      (k : String) (m : List (String × V)) (v : V)
      → Distinct (keys m)
      → In (k, v) m
      → lookup k m ≡ some v
  unfolding lookup
  in-lookup k [] v d i = absurd i
  in-lookup k ((j, w) ∷ m) v d (inl e) =
      let same : (j == k) ≡ true = (eq_iff j k).1 (ap (λ r. r.0) (sym e)) in
      rw same (ap (λ r. some r.1) (sym e))
  in-lookup k ((j, w) ∷ m) v d (inr i) =
      rw (eq_false j k (λ e. All-at (λ y. j ≢ y) (keys m) d.0 k (keys_of_in k m v i) e))
        (in-lookup k m v d.1 i)

  pair_ap : (j : String) (v w : V) → v ≡ w → ◌≡◌ {A = String × V} (j, v) (j, w)
  pair_ap j v w e = cc

  pub values_of_in : (k : String) (m : List (String × V)) (v : V) → In (k, v) m → In v (values m)
  values_of_in k [] v i = i
  values_of_in k ((j, w) ∷ m) v (inl e) = inl (ap (λ r. r.1) e)
  values_of_in k ((j, w) ∷ m) v (inr i) = inr (values_of_in k m v i)

  pub in-values : (m : List (String × V)) (v : V) → In v (values m) → (k : String) × In (k, v) m
  in-values [] v i = absurd i
  in-values ((j, w) ∷ m) v (inl e) = (j, inl (pair_ap j v w e))
  in-values ((j, w) ∷ m) v (inr i) = let (k, at) = in-values m v i in (k, inr at)

-- No name stands twice in a list, as a test.
unfoldable pub are_distinct : List String → Bool
are_distinct [] = true
are_distinct (x ∷ xs) = if member x xs then false else are_distinct xs

pub not_in_by_test : (x : String) (xs : List String) → member x xs ≡ false → ¬ In x xs
not_in_by_test x xs off m = let on = (member_iff x xs).1 m in cc

pub are_distinct-Distinct : (xs : List String) → are_distinct xs ≡ true → Distinct xs
unfolding are_distinct
are_distinct-Distinct [] h = tt
are_distinct-Distinct (x ∷ xs) h = elim (Bool-cases (member x xs)) [
  | inl on ↦ absurd (ground (arith, on, h))
  | inr off ↦ (
    All-of_in (λ y. x ≢ y) xs (λ y m e. not_in_by_test x xs off (subst (λ z. In z xs) (sym e) m)),
    are_distinct-Distinct xs (ground (arith, off, h)),
  )
]
