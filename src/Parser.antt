-- ===== src/Parser.antt =====
-- internal/parserc: the parser, which turns the tokens of the scanner into events.
pub mod State
pub mod Tokens
pub mod Directives
pub mod Node
pub mod Block
pub mod Flow
pub mod Document
pub mod Machine
pub mod Grammar
pub mod Stack
pub mod Steps
pub mod Moves
pub mod Joined
pub mod Comments
pub mod Follow
pub mod Phrase
pub mod Trace
pub mod Examples
