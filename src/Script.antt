-- ===== src/Script.antt =====
-- ctrltest/script.go: a test as steps, each of which says all that it permits.
pub mod Allow
pub mod Assign
pub mod Taken
pub mod Augment
pub mod Fit
pub mod Assigned
pub mod Step
pub mod Closed
pub mod Meaning
pub mod Walk
pub mod Passing
pub mod Search
pub mod Count
pub mod Exact
pub mod Blame
