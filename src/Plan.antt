-- ===== src/Plan.antt =====
-- pkg/plan: the delta between two worlds, and the rules on it.
pub mod Diff
pub mod Comment
pub mod Manifest
pub mod Destructive
pub mod ImmutableChange
