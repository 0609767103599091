-- ===== src/Enforce.antt =====
-- internal/enforce: the supervisor that serves a running sandbox; here, how it reloads a policy.
pub mod Reload
