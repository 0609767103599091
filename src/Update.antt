-- ===== src/Update.antt =====
-- internal/update: whether a newer release exists.
pub mod Version
