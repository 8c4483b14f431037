-- ===== src/Base/Lists.antt =====
-- Lists measured by native numbers, and a universal predicate and membership by recursion.
use Prim.Native.Nat.{ℕ, suc, ◌+◌}
use mathlib.Core.Path.{◌≡◌, refl}
use mathlib.Core.Logic.{◌≢◌, ◌⊎◌, inl, inr}
use mathlib.Core.List.{List, [], ◌∷◌, ◌++◌}
use native.Mathlib.Omega.{arith}

module _ {ℓ} {A : Type ℓ} where
  abbrev pub length : List A → ℕ
  length [] = 0
  length (x ∷ xs) = suc (length xs)

  pub length-append : (xs ys : List A) → length (xs ++ ys) ≡ length xs + length ys
  length-append [] ys = omega arith
  length-append (x ∷ xs) ys = omega (arith, length-append xs ys)

  abbrev pub All {κ} : (A → Type κ) → List A → Type κ
  All P [] = Unit
  All P (x ∷ xs) = P x × All P xs

module _ {ℓ} {A : Type ℓ} where
  pub All-append {κ} : (P : A → Type κ) (xs ys : List A) → All P xs → All P ys → All P (xs ++ ys)
  All-append P [] ys hx hy = hy
  All-append P (x ∷ xs) ys hx hy = (hx.0, All-append P xs ys hx.1 hy)

  pub All-map {κ μ} :
      (P : A → Type κ) (Q : A → Type μ) (xs : List A) → ((a : A) → P a → Q a) → All P xs → All Q xs
  All-map P Q [] f h = tt
  All-map P Q (x ∷ xs) f h = (f x h.0, All-map P Q xs f h.1)

  pub All-map₂ {κ μ ν} :
      (P : A → Type κ) (Q : A → Type μ) (R : A → Type ν) (xs : List A)
      → ((a : A) → P a → Q a → R a)
      → All P xs
      → All Q xs
      → All R xs
  All-map₂ P Q R [] f h k = tt
  All-map₂ P Q R (x ∷ xs) f h k = (f x h.0 k.0, All-map₂ P Q R xs f h.1 k.1)

  -- No element stands twice.
  abbrev pub Distinct : List A → Type ℓ
  Distinct [] = Unit
  Distinct (x ∷ xs) = All (λ y. x ≢ y) xs × Distinct xs

  pub Distinct-append :
      (xs : List A) (a : A) → Distinct xs → All (λ x. x ≢ a) xs → Distinct (xs ++ a ∷ [])
  Distinct-append [] a d h = (tt, tt)
  Distinct-append (x ∷ xs) a d h =
      (All-append (λ y. x ≢ y) xs (a ∷ []) d.0 (h.0, tt), Distinct-append xs a d.1 h.1)

-- Membership, by recursion.
module _ {A : Type 0} where
  abbrev pub In : A → List A → Type 0
  In a [] = ⊥
  In a (x ∷ xs) = (a ≡ x) ⊎ In a xs

  pub All-at {κ} : (P : A → Type κ) (xs : List A) → All P xs → (a : A) → In a xs → P a
  All-at P [] h a m = absurd m
  All-at P (x ∷ xs) h a (inl e) = rw e h.0
  All-at P (x ∷ xs) h a (inr m) = All-at P xs h.1 a m

  pub All-of_in {κ} : (P : A → Type κ) (xs : List A) → ((a : A) → In a xs → P a) → All P xs
  All-of_in P [] f = tt
  All-of_in P (x ∷ xs) f = (f x (inl refl), All-of_in P xs (λ a m. f a (inr m)))

  pub in-append_left : (a : A) (xs ys : List A) → In a xs → In a (xs ++ ys)
  in-append_left a [] ys m = absurd m
  in-append_left a (x ∷ xs) ys (inl e) = inl e
  in-append_left a (x ∷ xs) ys (inr m) = inr (in-append_left a xs ys m)

  pub in-append_right : (a : A) (xs ys : List A) → In a ys → In a (xs ++ ys)
  in-append_right a [] ys m = m
  in-append_right a (x ∷ xs) ys m = inr (in-append_right a xs ys m)

  pub in-append_cases : (a : A) (xs ys : List A) → In a (xs ++ ys) → In a xs ⊎ In a ys
  in-append_cases a [] ys m = inr m
  in-append_cases a (x ∷ xs) ys (inl e) = inl (inl e)
  in-append_cases a (x ∷ xs) ys (inr m) = elim (in-append_cases a xs ys m) [
    | inl l ↦ inl (inr l)
    | inr r ↦ inr r
  ]
