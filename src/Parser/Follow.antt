-- ===== src/Parser/Follow.antt =====
-- Every handler of the parser's states ends with an event that the grammar accepts.
pub mod Ready
pub mod Node
pub mod Entry
pub mod Block
pub mod Flow
pub mod Directives
pub mod Document
pub mod Machine
