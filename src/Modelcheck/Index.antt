-- ===== src/Modelcheck/Index.antt =====
-- modelcheck/index.go: the index of the states found so far.
pub mod Defs
pub mod Probe
pub mod Table
pub mod Lookup
pub mod Insert
