-- ===== src/Goroutines/Ranks.antt =====
-- maestro.go: how many steps the goroutines of StartAll, or those of StopAll, still have before them
-- at most.
use bandmaster.Base.{ℕ, ◌+◌, ◌<◌, ◌≤◌, ◌≡◌, ap, ◌∙◌, subst, inl, inr, List, [], ◌∷◌, In, arith}
use native.Mathlib.Decide.{ℕ_discrete}
use bandmaster.Base.Family.{update, update_self, update_ne}
use bandmaster.ServiceBase.{Object}

-- The sum of a number for each goroutine.
pub sum : (ℕ → ℕ) → List ℕ → ℕ
sum f [] = 0
sum f (i ∷ is) = f i + sum f is

pub sum_mono : (f g : ℕ → ℕ) (is : List ℕ) → ((k : ℕ) → g k ≤ f k) → sum g is ≤ sum f is
unfolding sum
sum_mono f g [] h = omega arith
sum_mono f g (i ∷ is) h = omega (arith, h i, sum_mono f g is h)

pub sum_less :
    (f g : ℕ → ℕ) (is : List ℕ) (i : ℕ)
    → In i is
    → ((k : ℕ) → g k ≤ f k)
    → g i < f i
    → sum g is < sum f is
unfolding sum
sum_less f g [] i m h less = absurd m
sum_less f g (j ∷ is) i (inl e) h less =
    let here : g j < f j = subst (λ x. g x < f x) e less in omega (arith, here, sum_mono f g is h)
sum_less f g (j ∷ is) i (inr m) h less = omega (arith, h j, sum_less f g is i m h less)

-- `rank m d pc` is what a goroutine has left at `pc`, with `m` retries and `d` services to wait for at
-- most, which `size` counts.
module _ {Pc : Type 0} (rank : ℕ → ℕ → Pc → ℕ) (size : Object → ℕ) where
  abbrev pub rank_at : (ℕ → Object) → (ℕ → Pc) → ℕ → ℕ
  rank_at objects pcs k = rank (objects k).retries (size (objects k)) (pcs k)

  abbrev pub steps_left : List ℕ → (ℕ → Object) → (ℕ → Pc) → ℕ
  steps_left is objects pcs = sum (rank_at objects pcs) is

  module _ (objects objects' : ℕ → Object) (sizes : (k : ℕ) → size (objects' k) ≡ size (objects k))
      (retry : (k : ℕ) → (objects' k).retries ≡ (objects k).retries) where
    rank_at-same : (pcs : ℕ → Pc) (k : ℕ) → rank_at objects' pcs k ≡ rank_at objects pcs k
    rank_at-same pcs k =
        ap (λ m. rank m (size (objects' k)) (pcs k)) (retry k)
        ∙ ap (λ d. rank (objects k).retries d (pcs k)) (sizes k)

    pub steps_left-same :
        (is : List ℕ) (pcs : ℕ → Pc) → steps_left is objects' pcs ≤ steps_left is objects pcs
    steps_left-same is pcs =
        sum_mono (rank_at objects pcs) (rank_at objects' pcs) is
          (λ k. let e = rank_at-same pcs k in omega (arith, e))

    -- One goroutine takes a step that lowers its rank.
    pub steps_left-less :
        (is : List ℕ) (pcs : ℕ → Pc) (i : ℕ) (pc : Pc)
        → In i is
        → rank (objects i).retries (size (objects i)) pc
          < rank (objects i).retries (size (objects i)) (pcs i)
        → steps_left is objects' (update pcs i pc) < steps_left is objects pcs
    steps_left-less is pcs i pc m less =
        sum_less (rank_at objects pcs) (rank_at objects' (update pcs i pc)) is i m
          (λ k. elim (ℕ_discrete i k) [
            | yes e ↦
                let lt =
                  subst (λ x. rank_at objects' (update pcs i pc) x < rank_at objects pcs x) e
                    at_i in
                omega (arith, lt)
            | no n ↦
                let same = rank_at-same (update pcs i pc) k in
                let old =
                  ap (rank (objects k).retries (size (objects k))) (update_ne pcs i pc k n) in
                omega (arith, same, old)
          ])
          at_i
      where
        at_i : rank_at objects' (update pcs i pc) i < rank_at objects pcs i
        at_i =
            let same = rank_at-same (update pcs i pc) i in
            let new = ap (rank (objects i).retries (size (objects i))) (update_self pcs i pc) in
            omega (arith, same, new, less)
