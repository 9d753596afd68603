-- ===== src/Tests.antt =====
-- Runs of the model at concrete inputs, and the theorems applied there.
pub mod Library
pub mod Headers
pub mod Messages
pub mod Packets
pub mod Bridges
mod Hellos
mod Certificates
mod Sharing
mod Streams
mod Engine
mod Trust
