-- ===== src/Recovery.antt =====
-- pkg/recovery/recovery.go: the peers of a node through a restart.
pub mod Manager
pub mod Restored
