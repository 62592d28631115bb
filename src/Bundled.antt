-- ===== src/Bundled.antt =====
-- src/librabbitmq, the client library that the repository bundles and has extended (IPv6, TLS,
-- returned messages).
pub mod Buffer
pub mod Frame
pub mod Publish
pub mod OpenSocket
pub mod Pool
pub mod Encoder
pub mod Reader
pub mod Table
pub mod Fields
pub mod Methods
pub mod Properties
pub mod Tls
pub mod Input
pub mod Link
pub mod Calls
pub mod Lifecycle
pub mod Receive
pub mod Login
