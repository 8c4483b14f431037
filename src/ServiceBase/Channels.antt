-- ===== src/ServiceBase/Channels.antt =====
-- Closing and sending over a list of channels, as `start` and `stop` do.
use bandmaster.Base.{
  ℕ, ◌≡◌, refl, sym, ap, ◌∙◌, ◌≢◌, false, List, [], ◌∷◌, All, All-at, All-map₂, In, Distinct,
  Outcome, returned, panicked, blocked, inl, inr, ◌⊎◌,
}
use bandmaster.Base.Family.{update, update_self, update_ne, update_keeps}
use bandmaster.Errors.{Err}
use bandmaster.Channel.{Chan}
use bandmaster.ServiceBase.Defs.{Object, at_channel, each}

abbrev pub IsOpen : Object → ℕ → Type 0
IsOpen o c = (o.chans c).closed ≡ false

abbrev put : Object → ℕ → Chan → Object
put o c ch = record o { chans = update o.chans c ch }

module _ (f : Chan → Outcome Err Chan) (c : ℕ) (cs : List ℕ) (o : Object) where
  each-returned :
      (ch : Chan) → f (o.chans c) ≡ returned ch → each f (c ∷ cs) o ≡ each f cs (put o c ch)
  unfolding each at_channel
  each-returned ch e = rw (e, at_channel)

  each-panicked : (x : Err) → f (o.chans c) ≡ panicked x → each f (c ∷ cs) o ≡ (panicked x, o)
  unfolding each at_channel
  each-panicked x e = rw (e, at_channel)

  each-blocked : f (o.chans c) ≡ blocked → each f (c ∷ cs) o ≡ (blocked, o)
  unfolding each at_channel
  each-blocked e = rw (e, at_channel)

Outcome-cases :
    (r : Outcome Err Chan)
    → ((ch : Chan) × (r ≡ returned ch)) ⊎ ((x : Err) × (r ≡ panicked x)) ⊎ (r ≡ blocked)
Outcome-cases (returned ch) = inl (ch, refl)
Outcome-cases (panicked x) = inr (inl (x, refl))
Outcome-cases blocked = inr (inr refl)

-- What every run of `each` leaves alone: all but channels, and a property of channels that `f` keeps.
pub each-keeps :
    (f : Chan → Outcome Err Chan) (P : Chan → Type 0)
    → ((a b : Chan) → P a → f a ≡ returned b → P b)
    → (cs : List ℕ) (o : Object) (d : ℕ) → P (o.chans d)
    → P ((each f cs o).1.chans d)
unfolding each
each-keeps f P keep [] o d p = p
each-keeps f P keep (c ∷ cs) o d p = elim (Outcome-cases (f (o.chans c))) [
  | inl (ch, e) ↦ rw (each-returned f c cs o ch e) (
      each-keeps f P keep cs (put o c ch) d
        (update_keeps o.chans c ch P d (λ at_c. keep (o.chans c) ch (rw at_c p) e) p))
  | inr (inl (x, e)) ↦ rw (each-panicked f c cs o x e) p
  | inr (inr e) ↦ rw (each-blocked f c cs o e) p
]

pub base-each :
    (f : Chan → Outcome Err Chan) (cs : List ℕ) (o : Object)
    → ((each f cs o).1.base ≡ o.base) × ((each f cs o).1.next ≡ o.next)
unfolding each
base-each f [] o = (refl, refl)
base-each f (c ∷ cs) o = elim (Outcome-cases (f (o.chans c))) [
  | inl (ch, e) ↦ rw (each-returned f c cs o ch e) (base-each f cs (put o c ch))
  | inr (inl (x, e)) ↦ rw (each-panicked f c cs o x e) (refl, refl)
  | inr (inr e) ↦ rw (each-blocked f c cs o e) (refl, refl)
]

-- A channel that is not listed stays as it is.
pub each-apart :
    (f : Chan → Outcome Err Chan) (cs : List ℕ) (o : Object) (d : ℕ)
    → ¬ In d cs
    → (each f cs o).1.chans d ≡ o.chans d
unfolding each
each-apart f [] o d n = refl
each-apart f (c ∷ cs) o d n = elim (Outcome-cases (f (o.chans c))) [
  | inl (ch, e) ↦ rw (each-returned f c cs o ch e) (
      each-apart f cs (put o c ch) d (λ m. n (inr m))
      ∙ update_ne o.chans c ch d (λ same. n (inl (sym same))))
  | inr (inl (x, e)) ↦ rw (each-panicked f c cs o x e) refl
  | inr (inr e) ↦ rw (each-blocked f c cs o e) refl
]

-- Where `f` turns each listed channel into its image under `g`, so does `each`, and no other channel
-- changes.
pub each-returns :
    (f : Chan → Outcome Err Chan) (g : Chan → Chan) (cs : List ℕ) (o : Object)
    → All (λ c. f (o.chans c) ≡ returned (g (o.chans c))) cs
    → Distinct cs
    → ((each f cs o).0 ≡ returned tt)
      × ((c : ℕ) → In c cs → (each f cs o).1.chans c ≡ g (o.chans c))
      × ((c : ℕ) → ¬ In c cs → (each f cs o).1.chans c ≡ o.chans c)
unfolding each
each-returns f g [] o h d = (refl, λ c m. absurd m, λ c m. refl)
each-returns f g (x ∷ cs) o h d =
    let o' = put o x (g (o.chans x)) in
    let same = λ (c : ℕ) (ne : x ≢ c). update_ne o.chans x (g (o.chans x)) c ne in
    let ih =
      each-returns f g cs o'
        (All-map₂ (λ c. x ≢ c) (λ c. f (o.chans c) ≡ returned (g (o.chans c)))
          (λ c. f (o'.chans c) ≡ returned (g (o'.chans c))) cs (λ c ne e. rw (same c ne) e) d.0 h.1)
        d.1 in
    rw (each-returned f x cs o (g (o.chans x)) h.0) (
      ih.0,
      λ c m. elim m [
        | inl e ↦ rw e (
            ih.2 x (λ m'. All-at (λ y. x ≢ y) cs d.0 x m' refl)
            ∙ update_self o.chans x (g (o.chans x)))
        | inr m' ↦ ih.1 c m' ∙ ap g (same c (All-at (λ y. x ≢ y) cs d.0 c m'))
      ],
      λ c m. ih.2 c (λ m'. m (inr m')) ∙ same c (λ e. m (inl (sym e))),
    )

-- A property `P` of channels that `f` keeps, and under which `f` does not panic.
module _ (f : Chan → Outcome Err Chan) (P : Chan → Type 0)
    (keep : (a b : Chan) → P a → f a ≡ returned b → P b)
    (calm : (a : Chan) (x : Err) → P a → f a ≢ panicked x) where
  abbrev Holds : Object → List ℕ → Type 0
  Holds o cs = All (λ c. P (o.chans c)) cs

  put-Holds :
      (cs : List ℕ) (o : Object) (c : ℕ) (ch : Chan)
      → P (o.chans c)
      → f (o.chans c) ≡ returned ch
      → Holds o cs
      → Holds (put o c ch) cs
  put-Holds [] o c ch p e h = tt
  put-Holds (d ∷ cs) o c ch p e h = (
    update_keeps o.chans c ch P d (λ _. keep (o.chans c) ch p e) h.0,
    put-Holds cs o c ch p e h.1,
  )

  pub each-ne-panicked :
      (cs : List ℕ) (o : Object) (y : Err) → Holds o cs → (each f cs o).0 ≢ panicked y
  unfolding each
  each-ne-panicked [] o y h = λ e. cc
  each-ne-panicked (c ∷ cs) o y h = elim (Outcome-cases (f (o.chans c))) [
    | inl (ch, e) ↦
        rw (each-returned f c cs o ch e)
          (each-ne-panicked cs (put o c ch) y (put-Holds cs o c ch h.0 e h.1))
    | inr (inl (x, e)) ↦ absurd (calm (o.chans c) x h.0 e)
    | inr (inr e) ↦ rw (each-blocked f c cs o e) (λ q. cc)
  ]

  pub each-eq-blocked :
      (cs : List ℕ) (o : Object) (full : ℕ)
      → Holds o cs
      → Distinct cs
      → In full cs
      → f (o.chans full) ≡ blocked
      → (each f cs o).0 ≡ blocked
  unfolding each
  each-eq-blocked [] o full h d m b = absurd m
  each-eq-blocked (c ∷ cs) o full h d m b = elim (Outcome-cases (f (o.chans c))) [
    | inl (ch, e) ↦ elim m [
      | inl same ↦ cc
      | inr m' ↦ rw (each-returned f c cs o ch e) (
          each-eq-blocked cs (put o c ch) full (put-Holds cs o c ch h.0 e h.1) d.1 m'
            (rw (update_ne o.chans c ch full (All-at (λ y. c ≢ y) cs d.0 full m')) b))
    ]
    | inr (inl (x, e)) ↦ absurd (calm (o.chans c) x h.0 e)
    | inr (inr e) ↦ rw (each-blocked f c cs o e)
  ]
