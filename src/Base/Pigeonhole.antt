-- ===== src/Base/Pigeonhole.antt =====
-- A list without repetition is no longer than a list that holds all its elements.
use Prim.Native.Nat.{suc, ◌≤◌}
use mathlib.Core.Path.{◌≡◌, refl, sym, ap}
use mathlib.Core.Logic.{◌≢◌, inl, inr}
use mathlib.Core.List.{List, [], ◌∷◌}
use native.Mathlib.Omega.{arith}
use bandmaster.Base.Lists.{length, All-at, In, Distinct}

module _ {A : Type 0} where
  -- A list with one occurrence of `x` taken out.
  record Without (x : A) (ys : List A) : Type 0 where
    rest : List A
    shorter : length ys ≡ suc (length rest)
    others : (y : A) → In y ys → y ≢ x → In y rest

  without : (x : A) (ys : List A) → In x ys → Without x ys
  without x [] i = absurd i
  without x (y ∷ ys) (inl e) = record {
    rest = ys;
    shorter = refl;
    others = λ z i ne. elim i [ inl same ↦ absurd (ne (cc)) | inr i' ↦ i' ];
  }
  without x (y ∷ ys) (inr i) =
      let w = without x ys i in
      record {
        rest = y ∷ w.rest;
        shorter = ap suc w.shorter;
        others = λ z j ne. elim j [ inl same ↦ inl same | inr j' ↦ inr (w.others z j' ne) ];
      }

  pub length-le_of_distinct :
      (xs ys : List A) → Distinct xs → ((x : A) → In x xs → In x ys) → length xs ≤ length ys
  length-le_of_distinct [] ys d sub = omega arith
  length-le_of_distinct (x ∷ xs) ys d sub =
      let w = without x ys (sub x (inl refl)) in
      omega (
        arith,
        w.shorter,
        length-le_of_distinct xs w.rest d.1
            (λ y i. w.others y (sub y (inr i)) (λ e. All-at (λ z. x ≢ z) xs d.0 y i (sym e))),
      )
