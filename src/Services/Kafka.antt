-- ===== src/Services/Kafka.antt =====
-- services/kafka/: the service, its configuration from the environment, and the texts of versions
-- and compression codecs, on the packages sarama and sarama-cluster.
mod Defs
pub mod Watch
pub mod Deliveries
pub mod Lifecycle
pub mod Env
pub mod Texts
unfoldable pub use Defs.*
