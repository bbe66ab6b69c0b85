-- ===== src/Session.antt =====
-- The UDP sessions of core/client/udp.go, the send path that core/server/udp.go shares with them,
-- and the reconnecting client of core/client/reconnect.go.
pub mod Send
pub mod Client
pub mod Reconnect
pub mod Runs
