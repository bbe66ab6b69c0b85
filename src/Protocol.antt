-- ===== src/Protocol.antt =====
-- core/internal/protocol: the wire formats.
pub mod Quic
pub mod Errors
pub mod Varint
pub mod Fill
pub mod Reader
pub mod Tcp
pub mod Udp
pub mod Padding
pub mod Plain
pub mod Runs
