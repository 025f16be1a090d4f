-- ===== src/Emitter.antt =====
-- internal/emitter: the state of an emitter, its output primitives, the analysis of events, the
-- writers of scalars and comments, and the state machine.
pub mod State
pub mod Output
pub mod Write
pub mod Analyze
pub mod Node
pub mod Document
pub mod Collection
pub mod Machine
pub mod Samples
pub mod Style
pub mod Bind
pub mod Queue
pub mod Frame
pub mod Indent
pub mod Sound
pub mod OpenEnded
pub mod Level
pub mod Anchor
pub mod Collected
pub mod Directives
pub mod Escape
pub mod Flow
pub mod Returns
pub mod Examples
