-- ===== src/Policy.antt =====
-- internal/policy: which destinations a sandbox may reach.
pub mod Error
pub mod Target
pub mod Pattern
pub mod Ports
pub mod Rule
pub mod Evaluate
pub mod Preset
pub mod Store
pub mod Resolve
pub mod Log
pub mod Engine
