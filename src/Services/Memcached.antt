-- ===== src/Services/Memcached.antt =====
-- services/memcached/service.go and env.go, on the memcache package.
use bandmaster.Services.Assertions.{Interface, AssertionPanic, field_of}
use bandmaster.Services.Environment.{Process}
use bandmaster.Services.Environment
use bandmaster.Base.{
  ℕ, String, returned, pure, ◌>>=◌, ◌>>◌, Option, none, some, ◌≡◌, refl, List, inl, inr,
  Option-cases, subst, sym, Outcome, [],
}
use bandmaster.Services.Calls.{Call, Code, run, set_service}
use bandmaster.Services.Client.{start_client, start_client-made}

-- The error of `Get`: nil, `ErrCacheMiss`, or another one.
pub data Reply : Type 0 where
  found : Reply
  cache_miss : Reply
  failed : String → Reply

-- What the service uses of memcache.
pub record Library (W Client : Type 0) : Type 0 where
  pub new_client : List String → Call W (Option Client × Option String)
  pub set_timeout : Client → ℕ → Call W (Unit {0})
  pub get : Client → String → Call W Reply
  pub close : Client → Call W (Option String)

pub record Config : Type 0 where
  pub addrs : List String
  pub timeout_rw : ℕ

pub record Env : Type 0 where
  pub addrs : List String
  pub timeout_rw : ℕ

-- The zero value.
abbrev zero_env : Env
zero_env = record { addrs = []; timeout_rw = 0 }

-- NewEnv, over `envconfig.Process`.
unfoldable pub new_env : {W : Type 0} → Process W Env → String → Call W (Option Env × Option String)
new_env process prefix = Environment.new_env process zero_env prefix

unfoldable pub config : Env → Config
config e = record { addrs = e.addrs; timeout_rw = e.timeout_rw }

pub record Service (Client : Type 0) : Type 0 where
  pub conf : Config
  pub c : Option Client

module _ {Client : Type 0} where
  unfoldable pub new : Config → Service Client
  new conf = record { conf = conf; c = none }

  abbrev pub set_client : Option Client → Service Client → Service Client
  set_client c service = record service { c = c }

module _ {Client : Type 0} where
  unfoldable pub client : Interface (Service Client) → Outcome AssertionPanic (Option Client)
  client = field_of (λ s. s.c)

module _ {W Client : Type 0} (lib : Library W Client) where
  -- Behind `Close`.
  unfoldable pub closed_with : Option String → Code W (Service Client) (Option String)
  closed_with (some err) = pure (some err)
  closed_with none = do set_service (set_client none); pure none

  unfoldable pub stop_client : Option Client → Code W (Service Client) (Option String)
  stop_client none = pure none
  stop_client (some c) = run (lib.close c) >>= closed_with

  unfoldable pub stop : Code W (Service Client) (Option String)
  stop st = stop_client st.0.c st

  unfoldable pub check_reply : Reply → Code W (Service Client) (Option String)
  check_reply cache_miss = pure none
  check_reply found = do stop; pure none
  check_reply (failed err) = do stop; pure (some err)

  abbrev pub test : ℕ → Client → Code W (Service Client) (Option String)
  test timeout c =
      run (lib.set_timeout c timeout) >>= λ _. run (lib.get c "random_key") >>= check_reply

  unfoldable pub start : Code W (Service Client) (Option String)
  start st =
      start_client (λ s. s.c) set_client (lib.new_client st.0.conf.addrs)
        (test st.0.conf.timeout_rw) st

  -- What is left of the client that answered with a reply, given the result of closing it.
  unfoldable pub kept : Client → Reply → Option String → Option Client
  kept c cache_miss closing = some c
  kept c found none = none
  kept c found (some err) = some c
  kept c (failed e) none = none
  kept c (failed e) (some err) = some c

  unfoldable pub reply_error : Reply → Option String
  reply_error cache_miss = none
  reply_error found = none
  reply_error (failed err) = some err

  module _ (s : Service Client) (c : Client) where
    -- The world behind the calls of `Start` before the reply, and the reply in it.
    unfoldable pub at_get : W → W
    at_get w = (lib.set_timeout c s.conf.timeout_rw (lib.new_client s.conf.addrs w).1).1

    unfoldable pub reply : W → Reply × W
    reply w = lib.get c "random_key" (at_get w)

    check_reply-ends :
        (r : Reply) (t : Service Client) (w : W)
        → t.c ≡ some c
        → ((check_reply r (t, w)).0 ≡ returned (reply_error r))
          × ((check_reply r (t, w)).1.0.c ≡ kept c r (lib.close c w).0)
    unfolding check_reply reply_error kept stop stop_client closed_with
    check_reply-ends cache_miss t w e = (refl, e)
    check_reply-ends found t w e =
        rw (e, stop_client)
          (elim (Option-cases (lib.close c w).0) [
            | inl ok ↦ rw (ok, closed_with) (refl, refl)
            | inr (err, bad) ↦ rw (bad, closed_with) (refl, refl)
          ])
    check_reply-ends (failed err) t w e =
        rw (e, stop_client)
          (elim (Option-cases (lib.close c w).0) [
            | inl ok ↦ rw (ok, closed_with) (refl, refl)
            | inr (_, bad) ↦ rw (bad, closed_with) (refl, refl)
          ])

    -- `Start` of a service without a client, when the client is created: the result is nil unless
    -- the test request failed, and the client stays exactly when the request answered with a cache
    -- miss or closing it failed.
    pub start-replied :
        (w : W)
        → s.c ≡ none
        → (lib.new_client s.conf.addrs w).0 ≡ (some c, none)
        → ((start (s, w)).0 ≡ returned (reply_error (reply w).0))
          × ((start (s, w)).1.0.c ≡ kept c (reply w).0 (lib.close c (reply w).1).0)
    unfolding start reply at_get
    start-replied w empty made =
        subst
          (λ r.
            (r.0 ≡ returned (reply_error (reply w).0))
            × (r.1.0.c ≡ kept c (reply w).0 (lib.close c (reply w).1).0))
          (sym (
            start_client-made (λ s. s.c) set_client (lib.new_client s.conf.addrs)
              (test s.conf.timeout_rw) s w c empty made))
          (check_reply-ends (reply w).0 (set_client (some c) s) (reply w).1 refl)
