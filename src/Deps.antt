-- ===== src/Deps.antt =====
-- maestro.go: the checks that StartAll makes of the dependencies before it starts anything.
mod Defs
pub mod Missing
pub mod Graph
pub mod Trail
pub mod Circular
pub mod Decide
pub mod Walks
unfoldable pub use Defs.*
