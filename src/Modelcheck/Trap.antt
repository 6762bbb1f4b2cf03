-- ===== src/Modelcheck/Trap.antt =====
-- modelcheck/explore.go: findTrap.
pub mod Defs
pub mod Graph
pub mod Mark
pub mod Edges
pub mod Starts
pub mod Filled
pub mod Reverse
pub mod Loop
pub mod Start
pub mod Correct
