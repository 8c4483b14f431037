-- ===== src/Services/Client.antt =====
-- services/: what the services with one client have in common, the shape
-- `if s.c == nil { s.c, err = create(); if err != nil { return err }; check }; return nil`.
use bandmaster.Services.Assertions.{of_package, field_of}
use bandmaster.Base.{
  ap, sym, ◌∙◌, String, Outcome, returned, pure, ◌>>=◌, ◌>>◌, Option, none, some, ◌≡◌, refl, ◌⊎◌,
  inl, inr, Option-cases,
}
use bandmaster.Services.Calls.{Call, Code, run, set_service, deref}

-- What Go functions that return a value and an error promise: one of the two is nil.
unfoldable pub IsEither : {W A : Type 0} → Call W (Option A × Option String) → Type 0
IsEither {W} {A} create =
    (w : W)
    → ((a : A) × ((create w).0 ≡ (some a, none))) ⊎ ((e : String) × ((create w).0 ≡ (none, some e)))

module _ {W S C : Type 0} (client : S → Option C) where
  -- The result and the client agree: nil and a client, or an error and none.
  unfoldable pub IsSettled : Outcome String (Option String) × (S × W) → Type 0
  IsSettled (r, st) =
      ((r ≡ returned none) × ((c : C) × (client st.0 ≡ some c)))
      ⊎ ((e : String) × (r ≡ returned (some e)) × (client st.0 ≡ none))

module _ {W S C : Type 0} (client : S → Option C) (set_client : Option C → S → S) where
  -- Behind the creation of the client, with its error.
  unfoldable pub opened :
      (C → Code W S (Option String)) → Option C → Option String → Code W S (Option String)
  opened check c (some err) = pure (some err)
  opened check c none = deref c >>= check

  unfoldable pub create_if_nil :
      Option C
      → Call W (Option C × Option String)
      → (C → Code W S (Option String))
      → Code W S (Option String)
  create_if_nil (some c) create check = pure none
  create_if_nil none create check =
      run create >>= λ r. do set_service (set_client r.0); opened check r.0 r.1

  unfoldable pub start_client :
      Call W (Option C × Option String) → (C → Code W S (Option String)) → Code W S (Option String)
  start_client create check st = create_if_nil (client st.0) create check st

  -- A service that has a client keeps it, and nothing is called.
  pub start_client-again :
      (create : Call W (Option C × Option String)) (check : C → Code W S (Option String)) (s : S)
      (w : W) (c : C)
      → client s ≡ some c
      → start_client create check (s, w) ≡ (returned none, (s, w))
  unfolding start_client create_if_nil
  start_client-again create check s w c has = rw (has, create_if_nil)

  opened-made :
      (r : Option C × Option String) (check : C → Code W S (Option String)) (s : S) (w : W) (c : C)
      → r ≡ (some c, none)
      → opened check r.0 r.1 (set_client r.0 s, w) ≡ check c (set_client (some c) s, w)
  unfolding opened
  opened-made r check s w c made = rw made refl

  -- A service without one, when the client is created.
  pub start_client-made :
      (create : Call W (Option C × Option String)) (check : C → Code W S (Option String)) (s : S)
      (w : W) (c : C)
      → client s ≡ none
      → (create w).0 ≡ (some c, none)
      → start_client create check (s, w) ≡ check c (set_client (some c) s, (create w).1)
  unfolding start_client create_if_nil
  start_client-made create check s w c empty made =
      rw (empty, create_if_nil) (opened-made (create w).0 check s (create w).1 c made)

  module _ (client-set : (c : Option C) (s : S) → client (set_client c s) ≡ c)
      (create : Call W (Option C × Option String)) (check : C → Code W S (Option String))
      (either : IsEither create)
      (settles : (c : C) (s : S) (w : W)
        → client s ≡ some c
        → IsSettled client (check c (s, w))) where
    created-IsSettled :
        (r : Option C × Option String) (s : S) (w : W)
        → ((c : C) × (r ≡ (some c, none))) ⊎ ((e : String) × (r ≡ (none, some e)))
        → IsSettled client (opened check r.0 r.1 (set_client r.0 s, w))
    unfolding IsSettled opened
    created-IsSettled r s w (inl (c, made)) =
        rw made (settles c (set_client (some c) s) w (client-set (some c) s))
    created-IsSettled r s w (inr (e, failed)) = rw failed (inr (e, refl, client-set none s))

    pub start_client-IsSettled :
        (s : S) (w : W) → IsSettled client (start_client create check (s, w))
    unfolding start_client create_if_nil IsSettled IsEither opened
    start_client-IsSettled s w = elim (Option-cases (client s)) [
      | inl e ↦ rw (e, create_if_nil) (created-IsSettled (create w).0 s (create w).1 (either w))
      | inr (c, e) ↦ rw (e, create_if_nil) (inl (refl, (c, e)))
    ]

module _ {W S C : Type 0} (client : S → Option C) where
  -- A service that has started, and is settled, has a client for those who ask.
  pub field_of-IsSettled :
      (r : Outcome String (Option String) × (S × W))
      → IsSettled client r
      → r.0 ≡ returned none
      → (c : C) × (field_of client (of_package r.1.0) ≡ returned (some c))
  unfolding IsSettled field_of
  field_of-IsSettled r (inl (ok, (c, has))) started = (c, ap returned has)
  field_of-IsSettled r (inr (e, failed, empty)) started =
      let q : ◌≡◌ {A = Outcome String (Option String)} (returned none) (returned (some e)) =
        sym started ∙ failed in
      cc
