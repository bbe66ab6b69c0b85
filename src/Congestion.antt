-- ===== src/Congestion.antt =====
-- core/internal/congestion, besides the BBR containers: the pacer of the senders.
pub mod Pacer
pub mod Runs
