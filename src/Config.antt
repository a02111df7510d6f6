-- ===== src/Config.antt =====
-- pkg/config: the overlays of xpc.yaml over the built-in registries.
pub mod Bypass
pub mod Immutable
pub mod StateBearing
pub mod Names
pub mod Validate
