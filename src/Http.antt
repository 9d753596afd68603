-- ===== src/Http.antt =====
-- src/te/httpengine/mitm/http: HTTP transactions.
pub mod Headers
pub mod Names
pub mod State
pub mod Results
pub mod Edit
pub mod Status
pub mod Head
pub mod Payload
pub mod Codec
pub mod Callbacks
