-- ===== src/Kit.antt =====
-- internal/kit: the specification of a kit, its schemes and its validation.
pub mod Spec
pub mod Patterns
pub mod Size
pub mod Schemes
pub mod V1
pub mod Validate
pub mod Parse
