-- ===== src/Encoder.antt =====
-- The Encoder of encode.go on nodes.
pub mod State
pub mod Scalar
pub mod Node
pub mod Trees
pub mod Collections
pub mod Whole
pub mod Documents
pub mod Stream
pub mod Replay
pub mod Alike
pub mod Drives
pub mod Mirror
pub mod Decoded
pub mod Writer
pub mod Examples
