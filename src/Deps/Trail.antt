-- ===== src/Deps/Trail.antt =====
-- maestro.go: the map `met` of hasCircularDepsRec holds the names on the way, numbered from 0.
use bandmaster.Base.{
  ℕ, zero, suc, ◌+◌, ◌≡◌, refl, ap, sym, ◌∙◌, String, none, some, List, [], ◌∷◌, ◌++◌, In, length,
  Option-cases, inl, inr, arith, length-append,
}
use mathlib.Core.List.{append_assoc}
use mathlib.Core.Option
use bandmaster.Base.Dict.{insert, lookup, keys, insert-new, keys-of_lookup, lookup-of_keys}
use bandmaster.Deps.Defs.{set_at, empty_strings, fill, circular_deps}

abbrev pub trail : ℕ → List String → List (String × ℕ)
trail n [] = []
trail n (x ∷ xs) = (x, n) ∷ trail (suc n) xs

pub keys-trail : (n : ℕ) (xs : List String) → keys (trail n xs) ≡ xs
keys-trail n [] = refl
keys-trail n (x ∷ xs) = ap (λ r. x ∷ r) (keys-trail (suc n) xs)

length-trail : (n : ℕ) (xs : List String) → length (trail n xs) ≡ length xs
length-trail n [] = refl
length-trail n (x ∷ xs) = ap suc (length-trail (suc n) xs)

trail-snoc :
    (n m : ℕ) (xs : List String) (k : String)
    → m ≡ n + length xs
    → trail n (xs ++ k ∷ []) ≡ trail n xs ++ (k, m) ∷ []
trail-snoc n m [] k e = let same : n ≡ m = omega arith in rw same
trail-snoc n m (x ∷ xs) k e = ap (λ r. (x, n) ∷ r) (trail-snoc (suc n) m xs k (omega arith))

-- Going on from a new name numbers it next.
pub insert-trail :
    (xs : List String) (k : String)
    → ¬ In k xs
    → insert k (length xs) (trail 0 xs) ≡ trail 0 (xs ++ k ∷ [])
insert-trail xs k new =
    insert-new k (length xs) (trail 0 xs) (rw (keys-trail 0 xs) new)
    ∙ sym (trail-snoc 0 (length xs) xs k (omega arith))

set_at-append :
    (pre : List String) (x v : String) (post : List String) (n : ℕ)
    → length pre ≡ n
    → set_at (pre ++ x ∷ post) n v ≡ some (pre ++ v ∷ post)
unfolding set_at
set_at-append [] x v post zero e = refl
set_at-append [] x v post (suc n) e = absurd (omega arith)
set_at-append (y ∷ pre) x v post zero e = absurd (omega arith)
set_at-append (y ∷ pre) x v post (suc n) e = rw (set_at-append pre x v post n (omega arith))

fill-trail :
    (pre xs : List String) (n : ℕ)
    → length pre ≡ n
    → fill (trail n xs) (pre ++ empty_strings (suc (length xs))) ≡ some (pre ++ (xs ++ "" ∷ []))
unfolding fill empty_strings Option.bind
fill-trail pre [] n e = refl
fill-trail pre (x ∷ xs) n e =
    rw (set_at-append pre "" x (empty_strings (suc (length xs))) n e)
      (simp append_assoc at (fill-trail (pre ++ x ∷ []) xs (suc n) longer))
  where
    longer : length (pre ++ x ∷ []) ≡ suc n
    longer = omega (arith, length-append pre (x ∷ []))

-- The array of the report holds the names met in order, and last the one met again.
pub circular_deps-trail :
    (xs : List String) (cur : String)
    → circular_deps (trail 0 xs) cur (length xs) ≡ some (xs ++ cur ∷ [])
unfolding circular_deps Option.bind
circular_deps-trail xs cur =
    let size : length (trail 0 xs) + 1 ≡ suc (length xs) = omega (arith, length-trail 0 xs) in
    rw (size, fill-trail [] xs 0 refl) (set_at-append xs "" cur [] (length xs) refl)

pub lookup-trail_new : (xs : List String) (k : String) → ¬ In k xs → lookup k (trail 0 xs) ≡ none
lookup-trail_new xs k new = elim (Option-cases (lookup k (trail 0 xs))) [
  | inl e ↦ e
  | inr (v, e) ↦ absurd (new (rw (keys-trail 0 xs) at (keys-of_lookup k (trail 0 xs) v e)))
]

pub lookup-trail_again :
    (xs : List String) (k : String) → In k xs → (n : ℕ) × (lookup k (trail 0 xs) ≡ some n)
lookup-trail_again xs k i = lookup-of_keys k (trail 0 xs) (rw keys-trail i)
