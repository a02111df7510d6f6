-- ===== src/Ir.antt =====
-- pkg/ir: paths into decoded values and sync waves.
pub mod Paths
pub mod Groups
pub mod Indices
pub mod Extract
pub mod Pods
pub mod Leaves
pub mod Enrich
pub mod Owners
