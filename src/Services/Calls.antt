-- ===== src/Services/Calls.antt =====
-- services/: calls of a client library, which change the world outside the program, from code that
-- changes a service. Errors are known by their texts; a panic is one of the Go runtime.
use bandmaster.Base.{String, returned, Exec, pure, panic, Option, none, some}
use bandmaster.Errors.Text.{nil_dereference}

-- A function of a client library: its result and the world behind it.
abbrev pub Call : Type 0 → Type 0 → Type 0
Call W A = W → A × W

-- Code of a service of type `S` in a world of type `W`.
abbrev pub Code : Type 0 → Type 0 → Type 0 → Type 0
Code W S A = Exec String (S × W) A

module _ {W S : Type 0} where
  abbrev pub run : {A : Type 0} → Call W A → Code W S A
  run f st = let (a, w) = f st.1 in (returned a, (st.0, w))

  abbrev pub set_service : (S → S) → Code W S (Unit {0})
  set_service f st = (returned tt, (f st.0, st.1))

  -- A method call on a pointer that may be nil.
  abbrev pub deref : {A : Type 0} → Option A → Code W S A
  deref none = panic nil_dereference
  deref (some a) = pure a
