-- ===== src/Mpc.antt =====
-- pkg/mpc: the registry of peers and the scope of the key exchange.
pub mod Session
pub mod Registry
pub mod Gates
pub mod Counts
pub mod Readiness
pub mod Ready
pub mod Removal
pub mod Ceremony
pub mod Scope
pub mod Presence
pub mod Registered
pub mod Rebroadcast
pub mod Watch
