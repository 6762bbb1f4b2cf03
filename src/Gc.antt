-- ===== src/Gc.antt =====
-- ctrltest/gc.go: the garbage collector of the simulated data plane.
pub mod Types
pub mod Collect
pub mod Safe
pub mod Sweep
pub mod Strip
