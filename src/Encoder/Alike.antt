-- ===== src/Encoder/Alike.antt =====
-- The methods of the Encoder of encode.go over any emitter.
pub mod Scalar
pub mod Content
pub mod Tree
