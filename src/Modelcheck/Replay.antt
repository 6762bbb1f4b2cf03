-- ===== src/Modelcheck/Replay.antt =====
-- modelcheck/replay.go: the states that the search did not keep.
pub mod Defs
pub mod Chain
pub mod Path
pub mod Diff
