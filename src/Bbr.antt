-- ===== src/Bbr.antt =====
-- core/internal/congestion/bbr: the containers of the BBR sender, and its bandwidth sampler.
pub mod Ring
pub mod Runs
pub mod Queue
pub mod Filter
pub mod AckPoints
pub mod AckHeight
pub mod Sampler
