-- ===== src/Services/Environment.antt =====
-- services/*/env.go: NewEnv, over the package envconfig.
use bandmaster.Base.{String, Option, none, some, ◌≡◌, refl, ◌⊎◌, inl, inr}
use bandmaster.Services.Calls.{Call}
use bandmaster.Services.Client.{IsEither}

-- `envconfig.Process` with a prefix, on a structure, in the world that holds the environment: the
-- structure behind it, and an error.
abbrev pub Process : Type 0 → Type 0 → Type 0
Process W Env = String → Env → Call W (Env × Option String)

-- Behind the call; `errors.WithStack` keeps the text of an error.
unfoldable pub processed : {Env : Type 0} → Env × Option String → Option Env × Option String
processed (e, some err) = (none, some err)
processed (e, none) = (some e, none)

processed_cases :
    {Env : Type 0} (r : Env × Option String)
    → ((e : Env) × (processed r ≡ (some e, none)))
      ⊎ ((err : String) × (processed r ≡ (none, some err)))
unfolding processed
processed_cases (e, some err) = inr (err, refl)
processed_cases (e, none) = inl (e, refl)

module _ {W Env : Type 0} where
  -- `zero` is the zero value of the structure.
  unfoldable pub new_env : Process W Env → Env → String → Call W (Option Env × Option String)
  new_env process zero prefix w = let (r, w') = process prefix zero w in (processed r, w')

  -- Whatever envconfig does.
  pub new_env-IsEither :
      (process : Process W Env) (zero : Env) (prefix : String)
      → IsEither (new_env process zero prefix)
  unfolding new_env IsEither
  new_env-IsEither process zero prefix w = processed_cases (process prefix zero w).0
