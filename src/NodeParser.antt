-- ===== src/NodeParser.antt =====
-- The type parser of decode.go, which builds nodes from the events of the parser.
pub mod State
pub mod Build
pub mod Collection
pub mod Pending
pub mod Shape
pub mod Memory
pub mod Made
pub mod Leaf
pub mod Feet
pub mod Loops
pub mod Sound
pub mod Documents
pub mod Stream
pub mod Examples
