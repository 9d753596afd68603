-- ===== src/Certificates.antt =====
-- BaseInMemoryCertificateStore: the certificates that the proxy shows to its clients.
pub mod Store
pub mod Issue
pub mod Server
pub mod Entering
pub mod Hosts
pub mod Again
pub mod Shown
pub mod Destroy
pub mod Windows
pub mod Pem
pub mod Extension
