-- ===== src/Examples.antt =====
-- Concrete inputs on which the theorems are applied.
mod World
mod Committees
mod Locks
mod Scans
mod Reshares
mod Endings
mod Nodes
mod Messages
mod Signers
mod Peers
mod Members
mod Network
mod Races
mod Presences
mod Restarts
mod Intervals
