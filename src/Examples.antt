-- ===== src/Examples.antt =====
-- The theorems at concrete inputs.
pub mod World
mod Nodes
mod Stores
mod Fetches
mod Segments
mod Loops
mod Faults
mod Epochs
mod Clusters
mod Snapshots
mod Stages
mod QuorumFiles
mod Checks
