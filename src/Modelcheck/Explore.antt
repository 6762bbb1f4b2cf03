-- ===== src/Modelcheck/Explore.antt =====
-- modelcheck/explore.go: the breadth-first search.
pub mod Defs
pub mod Search
pub mod Cases
pub mod Counts
pub mod Chunks
pub mod Workers
pub mod Kept
pub mod Sound
pub mod Ends
pub mod Parents
pub mod Tree
