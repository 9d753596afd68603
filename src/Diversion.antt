-- ===== src/Diversion.antt =====
-- src/te/httpengine/mitm/diversion: which packets are diverted to the proxy, and how.
pub mod Socks
pub mod State
pub mod Process
pub mod Packets
pub mod Translation
pub mod Flows
pub mod Lifecycle
pub mod Loop
pub mod Bounds
