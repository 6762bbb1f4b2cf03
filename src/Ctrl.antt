-- ===== src/Ctrl.antt =====
-- ctrltest: the record of what controllers write and reconcile, and what tests read from it.
pub mod Op
pub mod Kind
pub mod Suffix
pub mod Recorder
pub mod Cursor
pub mod Client
pub mod Wait
pub mod Stream
pub mod Refine
pub mod Tally
pub mod Served
pub mod Quiet
pub mod Multiset
pub mod Matched
pub mod Gate
pub mod Intercept
pub mod Passes
pub mod Gates
pub mod GateRun
pub mod Filed
pub mod Clamp
pub mod Sequence
pub mod Traffic
pub mod Attributed
pub mod Doors
pub mod Admission
pub mod Unconverged
pub mod LastWord
pub mod Converged
pub mod Report
pub mod Quiescence
pub mod Settled
pub mod Verdict
