-- ===== src/Tests/Data.antt =====
-- The services of the tests.
use bandmaster.Base.{
  ℕ, zero, suc, String, Option, none, some, List, [], ◌∷◌, ◌≡◌, refl, ◌≢◌, ◌==◌, eq_iff, true,
  false, inl, inr, arith,
}
use bandmaster.Errors.{Err, foreign}
use bandmaster.ServiceBase.{Object, new_service_base, start, started_channel, stopped_channel}
use bandmaster.ServiceBase.Invariant.{
  IsValid, new-IsValid, started_channel-IsValid, stopped_channel-IsValid,
}
use bandmaster.ServiceBase.Flow.{start-IsValid}
use bandmaster.Registry.{Program}
use bandmaster.Registry.Valid.{IsRegistry}

abbrev pub oops : Err
oops = foreign "oops"

-- A new service with a subscriber to its start.
abbrev pub watched : Object
watched = (started_channel new_service_base).1

pub watched-IsValid : IsValid watched
watched-IsValid = started_channel-IsValid new_service_base new-IsValid

-- The same service once it is started, with a subscriber to its stop.
abbrev pub running : Object
running = (stopped_channel (start none watched).1).1

pub running-IsValid : IsValid running
running-IsValid =
    stopped_channel-IsValid (start none watched).1 (start-IsValid none watched watched-IsValid tt)

abbrev pub named : String → List String → Object
named name deps = record new_service_base {
  base = record new_service_base.base { name = name; direct_deps = deps };
}

pub named-IsValid : (name : String) (deps : List String) → IsValid (named name deps)
unfolding new_service_base
named-IsValid name deps = record {
  exclusive = refl;
  none_started = λ e. refl;
  none_stopped = λ e. refl;
  open_started = tt;
  open_stopped = tt;
  distinct_started = tt;
  distinct_stopped = tt;
}

-- `a` depends on `b`, and `b` on the dependencies given.
abbrev pub pair_objects : List String → ℕ → Option Object
pair_objects deps zero = some (named "a" ("b" ∷ []))
pair_objects deps (suc zero) = some (named "b" deps)
pair_objects deps (suc (suc i)) = none

abbrev pub pair : List String → Program
pair deps = record { services = ("a", 0) ∷ ("b", 1) ∷ []; objects = pair_objects deps }

pub ne_by_test : (s t : String) → (s == t) ≡ false → s ≢ t
ne_by_test s t h e = let h' : true ≡ false = rw (← (eq_iff s t).1 e) h in cc

pub pair-IsRegistry : (d : String) → ("b" == d) ≡ false → IsRegistry (pair (d ∷ []))
pair-IsRegistry d h = record {
  entries = (
    record {
      object = named "a" ("b" ∷ []);
      stored = refl;
      named = refl;
      others = λ i. elim i [ inl e ↦ ne_by_test "a" "b" refl e | inr x ↦ x ];
      once = (tt, tt);
    },
    (
      record {
        object = named "b" (d ∷ []);
        stored = refl;
        named = refl;
        others = λ i. elim i [ inl e ↦ ne_by_test "b" d h e | inr x ↦ x ];
        once = (tt, tt);
      },
      tt,
    ),
  );
  names = ((ne_by_test "a" "b" refl, tt), (tt, tt));
  addresses = ((λ e. omega (arith, e), tt), (tt, tt));
}

-- `a` depends on `b`, and `b` on nothing.
pub two-IsRegistry : IsRegistry (pair [])
two-IsRegistry = record {
  entries = (
    record {
      object = named "a" ("b" ∷ []);
      stored = refl;
      named = refl;
      others = λ i. elim i [ inl e ↦ ne_by_test "a" "b" refl e | inr x ↦ x ];
      once = (tt, tt);
    },
    (record { object = named "b" []; stored = refl; named = refl; others = λ i. i; once = tt }, tt),
  );
  names = ((ne_by_test "a" "b" refl, tt), (tt, tt));
  addresses = ((λ e. omega (arith, e), tt), (tt, tt));
}
