-- ===== src/Types.antt =====
-- The data that the passes share: pkg/types/types.go and the decoded YAML values.
pub mod Values
pub mod Locations
pub mod Argo
pub mod World
pub mod Facts
