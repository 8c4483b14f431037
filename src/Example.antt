-- ===== src/Example.antt =====
-- example/main.go: a program on two kinds of services.
mod Defs
pub mod Reports
pub mod Registered
pub mod Lines
unfoldable pub use Defs.*
