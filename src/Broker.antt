-- ===== src/Broker.antt =====
-- The crate pmind-broker.
pub mod Types
pub mod Ports
pub mod Monitor
pub mod Router
pub mod Node
pub mod Hub
pub mod Cli
