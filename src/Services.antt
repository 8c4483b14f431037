-- ===== src/Services.antt =====
-- services/: the services that the repository provides, each on a client library.
mod Calls
pub mod Assertions
pub mod Client
pub mod Environment
pub mod Memcached
pub mod Cql
pub mod Nats
pub mod Es
pub mod Es2
pub mod Es5
pub mod Redis
pub mod Sql
pub mod Kafka
unfoldable pub use Calls.*
