-- ===== src/Fakeapi.antt =====
-- fakeapi/tracker.go: the tracker that keeps metadata.generation.
pub mod Types
pub mod Tracker
pub mod Content
pub mod Generation
pub mod History
pub mod Applied
pub mod WriteBack
