-- ===== src/Orchestrator.antt =====
-- pkg/orchestrator: the process that watches wallet committees and publishes reshares.
pub mod Trigger
pub mod Wallets
pub mod Urgency
pub mod Confirm
pub mod KeyTypes
pub mod Publisher
pub mod Delivery
pub mod Families
pub mod Lock
pub mod Sweeper
pub mod Backoff
pub mod Exclusion
pub mod Race
pub mod Freeze
pub mod StringSets
pub mod Progress
pub mod Authorizers
pub mod Inventory
pub mod Inventoried
pub mod Liveness
pub mod Candidates
pub mod Settings
pub mod Durations
pub mod Collected
pub mod Verify
pub mod Immutability
pub mod Reconcile
pub mod RunReshare
pub mod Endings
pub mod Launches
pub mod Pass
