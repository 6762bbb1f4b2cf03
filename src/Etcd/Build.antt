-- ===== src/Etcd/Build.antt =====
-- etcdsim/etcdsim.go: the constructors of a cluster.
pub mod Defs
pub mod Accepted
pub mod Healthy
