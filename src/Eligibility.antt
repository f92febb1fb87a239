-- ===== src/Eligibility.antt =====
-- pkg/eligibility: who may join the network, and who may initiate a ceremony.
pub mod Keys
pub mod Membership
pub mod Members
pub mod Initiators
pub mod Accepted
pub mod Verifiers
