-- ===== src/Bridge.antt =====
-- TlsCapableHttpBridge: what joins a client's connection to a server's and relays transactions.
pub mod State
pub mod Judgement
pub mod Streaming
pub mod Reading
pub mod Answers
pub mod Requests
pub mod Preview
pub mod Connecting
pub mod Handshakes
pub mod ClientContexts
pub mod TlsPeek
pub mod Passthrough
pub mod Outcomes
pub mod Steps
pub mod Asking
pub mod ShortReads
pub mod Hosts
pub mod Hidden
pub mod Reuse
