-- ===== src/Net.antt =====
-- engine/net: the negotiation and policy logic of the network layer, one module for each file.
pub mod Transport
pub mod Preference
pub mod HttpsOnly
pub mod Upgrades
pub mod Pqc
pub mod Groups
pub mod Tls
pub mod Tracking
pub mod Partitions
mod Tests
