-- ===== src/Frag.antt =====
-- core/internal/frag/frag.go: splitting a UDP message into fragments, and putting it together.
pub mod Split
pub mod Defragger
pub mod RoundTrip
pub mod Runs
