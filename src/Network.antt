-- ===== src/Network.antt =====
-- internal/network: the host's side of a sandbox's network.
pub mod Stack
pub mod Forward
pub mod Gateway
