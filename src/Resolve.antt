-- ===== src/Resolve.antt =====
-- internal/resolve/resolve.go: short and long tags, and the values that plain scalars stand for.
pub mod Tags
pub mod Value
pub mod Round
pub mod Honest
pub mod Base64
pub mod Samples
pub mod Examples
