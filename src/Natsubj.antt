-- ===== src/Natsubj.antt =====
-- internal/natsubj: names of handles and pipes, NATS subjects and JetStream streams.
pub mod Names
pub mod Uuids
pub mod Builders
pub mod Paths
pub mod Streams
pub mod Decimal
mod Tests
