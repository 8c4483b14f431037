-- ===== src/Errors/Text.antt =====
-- errors.go: the method `Error` of an error.
use Prim.Native.String.{◌++◌ as str_append}
use bandmaster.Base.{ℕ, String, Option, none, some, List, [], ◌∷◌, Outcome, returned, panicked}
use bandmaster.Errors.Defs.{
  ErrorKind, unknown, service_already_exists, service_without_base, service_depends_on_itself,
  service_duplicate_dependency, dependency_missing, dependency_circular, dependency_unavailable,
  service_start_failure, service_stop_failure, Error,
}

-- `fmt.Sprintf` with `%s` for texts: the pieces in order.
unfoldable pub sprintf : List String → String
sprintf [] = ""
sprintf (s ∷ rest) = str_append s (sprintf rest)

-- `strings.Join`
join : List String → String → String
join [] sep = ""
join (s ∷ []) sep = s
join (s ∷ t ∷ rest) sep = str_append s (str_append sep (join (t ∷ rest) sep))

-- `%s` of an `error`
unfoldable pub err_text : Option String → String
err_text none = "%!s(<nil>)"
err_text (some t) = t

abbrev pub nil_dereference : String
nil_dereference = "invalid memory address or nil pointer dereference"

-- `e.Service.Name()` inside a text: the call panics at a nil service.
unfoldable pub with_name : (ℕ → String) → Option ℕ → (String → List String) → Outcome String String
unfolding sprintf
with_name name_of none pieces = panicked nil_dereference
with_name name_of (some s) pieces = returned (sprintf (pieces (name_of s)))

-- `name_of s` is the name that the service at address `s` has now.
unfoldable pub by_kind : (ℕ → String) → ErrorKind → Error → Outcome String String
unfolding sprintf with_name err_text join
by_kind name_of unknown e = returned "error: unknown"
by_kind name_of service_already_exists e =
    returned (sprintf ("`" ∷ e.service_name ∷ "`: service already exists" ∷ []))
by_kind name_of service_without_base e =
    returned (sprintf ("`" ∷ e.service_name ∷ "`: service *must* inherit from `ServiceBase`" ∷ []))
by_kind name_of service_depends_on_itself e =
    returned (sprintf ("`" ∷ e.service_name ∷ "`: service depends on its own self" ∷ []))
by_kind name_of service_duplicate_dependency e =
    returned
      (sprintf ("`" ∷ e.service_name ∷ "`: service already depends on `" ∷ e.dependency ∷ "`" ∷ []))
by_kind name_of dependency_missing e =
    with_name name_of e.service
      λ name. "`" ∷ name ∷ "`: missing dependency `" ∷ e.dependency ∷ "`" ∷ []
by_kind name_of dependency_circular e = with_name name_of e.service λ name.
    "`" ∷ name ∷ "`: circular dependencies detected: {" ∷ join e.circular_deps " -> " ∷ "}" ∷ []
by_kind name_of dependency_unavailable e =
    with_name name_of e.service
      λ name. "`" ∷ name ∷ "`: dependency `" ∷ e.dependency ∷ "` failed to start" ∷ []
by_kind name_of service_start_failure e =
    with_name name_of e.service
      λ name. "`" ∷ name ∷ "`: service failed to start: " ∷ err_text e.service_err ∷ []
by_kind name_of service_stop_failure e =
    with_name name_of e.service
      λ name. "`" ∷ name ∷ "`: service failed to stop: " ∷ err_text e.service_err ∷ []
by_kind name_of _ e = returned "error: undefined"

unfoldable pub error : (ℕ → String) → Error → Outcome String String
unfolding by_kind
error name_of e = by_kind name_of e.kind e
