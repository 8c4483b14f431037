-- ===== src/Example/Lines.antt =====
-- example/main.go: what the loop over the errors of StopAll prints.
use bandmaster.Base.{ℕ, ◌≡◌, refl, inl, inr, String, List, [], ◌∷◌, In, returned}
use bandmaster.Errors.{Err, foreign, plain, with_stack}
use bandmaster.Errors.Panics.{error-returned}
use bandmaster.Channel.{Chan}
use bandmaster.ServiceBase.{Object, name}
use bandmaster.Registry.{Maestro}
use bandmaster.Goroutines.Ledger.{Blames}
use bandmaster.Shutdown.StopAll.{StopAll}
use bandmaster.Shutdown.Returns.{StopAll-Blames}
use bandmaster.Example.Defs.{message, cons_line, add_line, print_all}

module _ (objects : ℕ → Object) where
  -- The lines `ts` are the texts of the errors `es`, in their order.
  pub data AreTexts : List Err → List String → Type 0 where
    no_line : AreTexts [] []
    one_line :
        (e : Err) (t : String) (es : List Err) (ts : List String)
        → message objects e ≡ returned t
        → AreTexts es ts
        → AreTexts (e ∷ es) (t ∷ ts)

module _ (objects : ℕ → Object) (ctx_err : String) where
  message-returned :
      (e : Err) (i : ℕ) → Blames ctx_err i e → (t : String) × (message objects e ≡ returned t)
  unfolding message
  message-returned (foreign text) i b = (text, refl)
  message-returned (plain e) i (inl named) = error-returned (λ j. name (objects j)) e i named
  message-returned (plain e) i (inr own) = absurd (cc)
  message-returned (with_stack e) i (inl named) = error-returned (λ j. name (objects j)) e i named
  message-returned (with_stack e) i (inr own) = absurd (cc)

  print_all-AreTexts :
      (es : List Err)
      → ((e : Err) → In e es → (i : ℕ) × Blames ctx_err i e)
      → (ts : List String) × (print_all objects es ≡ returned ts) × AreTexts objects es ts
  unfolding print_all add_line cons_line
  print_all-AreTexts [] blames = ([], refl, no_line)
  print_all-AreTexts (e ∷ es) blames =
      let (i, b) = blames e (inl refl) in
      let (t, told) = message-returned e i b in
      let (ts, rest, texts) = print_all-AreTexts es (λ x m. blames x (inr m)) in
      (t ∷ ts, rw (told, rest) refl, one_line e t es ts told texts)

-- Whatever the services were before it: main gets through its loop over the errors of a StopAll that
-- returns, without a nil dereference, and prints the text of each error, in their order.
pub StopAll-AreTexts :
    (m : Maestro) (ctx_err : String) (objects objects' : ℕ → Object) (d : Chan)
    → StopAll m ctx_err objects objects' d
    → (ts : List String) × (print_all objects' d.buffer ≡ returned ts)
      × AreTexts objects' d.buffer ts
StopAll-AreTexts m ctx_err objects objects' d run =
    print_all-AreTexts objects' ctx_err d.buffer (StopAll-Blames m ctx_err objects objects' d run)
