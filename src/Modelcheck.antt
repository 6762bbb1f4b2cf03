-- ===== src/Modelcheck.antt =====
-- The explicit-state model checker (modelcheck/).
pub mod Index
pub mod System
pub mod Explore
pub mod Trap
pub mod Replay
pub mod Result
