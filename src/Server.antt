-- ===== src/Server.antt =====
-- The server side of the protocol: core/server.
pub mod Udp
mod Runs
