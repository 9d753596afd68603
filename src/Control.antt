-- ===== src/Control.antt =====
-- The parts that run the proxy: the acceptors, the engine, and its C interface.
pub mod Reporting
pub mod Acceptor
pub mod Diverting
pub mod Engine
pub mod Process
pub mod Defaults
pub mod RootCa
