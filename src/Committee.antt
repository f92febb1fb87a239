-- ===== src/Committee.antt =====
-- pkg/committee: the policy that picks the committee of a wallet, for keygen and for reshare.
pub mod Policy
pub mod Select
pub mod Pool
pub mod Choose
pub mod Tiers
pub mod Plan
pub mod Members
pub mod Determinism
pub mod Settings
