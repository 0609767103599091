-- ===== src/Secret.antt =====
-- internal/secret: credentials that are stored on the host, by name.
pub mod Scope
pub mod Inject
pub mod Oauth
pub mod Credential
pub mod Service
pub mod Injector
