-- ===== src/Proxy.antt =====
-- internal/proxy: the forward proxy.
pub mod Sni
pub mod Server
pub mod Dial
pub mod Http
pub mod Connect
