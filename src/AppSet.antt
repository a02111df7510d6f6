-- ===== src/AppSet.antt =====
-- pkg/ir/appset_expand.go and appset_template.go: the Applications of an ApplicationSet.
pub mod Template
pub mod Generators
pub mod Instantiate
