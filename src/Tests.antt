-- ===== src/Tests.antt =====
-- The theorems at concrete inputs, and runs of the modelled functions.
mod Plan
mod Paths
mod Config
mod Waiver
mod Bisect
mod Audit
mod Trajectory
mod AppSet
mod Schemas
mod Checker
mod ConfigFile
mod Comment
mod Enrich
mod Owners
