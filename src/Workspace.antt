-- ===== src/Workspace.antt =====
-- internal/workspace: where a host directory appears in the guest.
pub mod GuestPath
pub mod Mode
