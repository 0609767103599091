-- ===== src/Samples.antt =====
-- Small examples: what the definitions compute on concrete inputs, and the theorems at them.
mod Kits
mod Proxying
mod Credentials
mod Networking
mod Link
mod Addresses
mod Rules
mod Records
mod Layers
mod Publishing
mod Stores
mod Injection
mod Legacy
mod Services
