-- ===== src/Etcd.antt =====
-- The in-memory etcd cluster (etcdsim/etcdsim.go).
pub mod Types
pub mod Build
pub mod Faults
pub mod Client
pub mod Members
pub mod Sorting
pub mod Invariant
pub mod Election
pub mod Transfer
pub mod Reach
pub mod Calls
pub mod Defrag
pub mod FailNext
pub mod Order
