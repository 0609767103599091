-- ===== src/Ports.antt =====
-- internal/ports: publishing a sandbox's port on the host.
pub mod Spec
pub mod Forward
