-- ===== src/Errors/Defs.antt =====
-- errors.go: ErrorKind, Error, and the error values that travel on channels.
use bandmaster.Base.{ℕ, String, Option, none, List, []}

-- The constants of `ErrorKind`; it is an `int`, and `other` stands for every other value of it.
pub data ErrorKind : Type 0 where
  unknown : ErrorKind
  service_already_exists : ErrorKind
  service_without_base : ErrorKind
  service_depends_on_itself : ErrorKind
  service_duplicate_dependency : ErrorKind
  dependency_missing : ErrorKind
  dependency_circular : ErrorKind
  dependency_unavailable : ErrorKind
  parent_unavailable : ErrorKind
  service_start_failure : ErrorKind
  service_stop_failure : ErrorKind
  other : ℕ → ErrorKind

-- A `Service` value is a pointer: an address, or `none` for nil. An error that comes from outside
-- the package (a client library, a context) is known by its text.
pub record Error : Type 0 where
  pub kind : ErrorKind
  pub service : Option ℕ
  pub service_name : String
  pub service_err : Option String
  pub dependency : String
  pub parent : String
  pub circular_deps : List String

-- A non-nil value of Go's `error`: a foreign one, `&Error{…}`, or `errors.WithStack(&Error{…})`.
pub data Err : Type 0 where
  foreign : String → Err
  plain : Error → Err
  with_stack : Error → Err

-- `Error{Kind: k}`, the other fields zero.
abbrev pub error_of : ErrorKind → Error
error_of k = record {
  kind = k;
  service = none;
  service_name = "";
  service_err = none;
  dependency = "";
  parent = "";
  circular_deps = [];
}
