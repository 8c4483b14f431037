-- ===== src/Services/Assertions.antt =====
-- services/*/service.go: the functions that return a field of a service, behind a type assertion.
use bandmaster.Base.{Outcome, returned, panicked}

-- A value of the interface bandmaster.Service, as a package of a service sees it.
pub data Interface (S : Type 0) : Type 0 where
  of_package : S → Interface S  -- a *Service of the package
  of_others : Interface S  -- a service of another type, or nil

-- The panic of a type assertion.
pub data AssertionPanic : Type 0 where
  other_type : AssertionPanic

-- `s.(*Service).field`
unfoldable pub field_of : {S A : Type 0} → (S → A) → Interface S → Outcome AssertionPanic A
field_of field (of_package s) = returned (field s)
field_of field of_others = panicked other_type
