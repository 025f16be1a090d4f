-- ===== src/Parser/Stack.antt =====
-- The invariant of the parser's stacks of states and marks.
use yaml.Common.{◌≡◌, ◌≢◌, true, List, [], ◌∷◌, ◌++◌, some}
use yaml.Event.{Event, Position}
use yaml.Parser.State.{
  Parser, ParserState, stream_start_state, implicit_document_start_state, document_start_state,
  document_content_state, document_end_state, block_node_state,
  block_node_or_indentless_sequence_state, flow_node_state, block_sequence_first_entry_state,
  block_sequence_entry_state, indentless_sequence_entry_state, block_mapping_first_key_state,
  block_mapping_key_state, block_mapping_value_state, flow_sequence_first_entry_state,
  flow_sequence_entry_state, flow_sequence_entry_mapping_key_state,
  flow_sequence_entry_mapping_value_state, flow_sequence_entry_mapping_end_state,
  flow_mapping_first_key_state, flow_mapping_key_state, flow_mapping_value_state,
  flow_mapping_empty_value_state, end_state,
}
use yaml.Parser.Grammar.{Goal, accept, own, below}

-- The states that have nothing below them.
pub data Top : ParserState → Type 0 where
  stream_start_top : Top stream_start_state
  implicit_document_top : Top implicit_document_start_state
  document_top : Top document_start_state
  document_end_top : Top document_end_state
  end_top : Top end_state

-- The states inside a collection that has pushed its mark.
pub data Marked : ParserState → Type 0 where
  block_sequence_marked : Marked block_sequence_entry_state
  block_key_marked : Marked block_mapping_key_state
  block_value_marked : Marked block_mapping_value_state
  flow_sequence_marked : Marked flow_sequence_entry_state
  entry_key_marked : Marked flow_sequence_entry_mapping_key_state
  entry_value_marked : Marked flow_sequence_entry_mapping_value_state
  entry_end_marked : Marked flow_sequence_entry_mapping_end_state
  flow_key_marked : Marked flow_mapping_key_state
  flow_value_marked : Marked flow_mapping_value_state
  flow_empty_marked : Marked flow_mapping_empty_value_state

-- The states of a node, and of a collection that has no mark, or none yet.
pub data Unmarked : ParserState → Type 0 where
  block_node_unmarked : Unmarked block_node_state
  indentless_node_unmarked : Unmarked block_node_or_indentless_sequence_state
  flow_node_unmarked : Unmarked flow_node_state
  block_sequence_unmarked : Unmarked block_sequence_first_entry_state
  indentless_unmarked : Unmarked indentless_sequence_entry_state
  block_mapping_unmarked : Unmarked block_mapping_first_key_state
  flow_sequence_unmarked : Unmarked flow_sequence_first_entry_state
  flow_mapping_unmarked : Unmarked flow_mapping_first_key_state

-- The states and marks below a node.
pub data Below : List ParserState → List Position → Type 0 where
  document_below : Below (document_end_state ∷ []) []
  marked_below :
      {s : ParserState} {K : List ParserState} {m : Position} {ms : List Position}
      → Marked s
      → Below K ms
      → Below (s ∷ K) (m ∷ ms)
  indentless_below :
      {K : List ParserState} {ms : List Position}
      → Below K ms
      → Below (indentless_sequence_entry_state ∷ K) ms

-- A state with the states and marks below it.
pub data Valid : ParserState → List ParserState → List Position → Type 0 where
  top : {s : ParserState} → Top s → Valid s [] []
  content : Valid document_content_state (document_end_state ∷ []) []
  unmarked :
      {s : ParserState} {K : List ParserState} {ms : List Position}
      → Unmarked s
      → Below K ms
      → Valid s K ms
  marked :
      {s : ParserState} {K : List ParserState} {m : Position} {ms : List Position}
      → Marked s
      → Below K ms
      → Valid s K (m ∷ ms)

-- The stacks of the parser; no tail comment is pending, and an available token is there.
pub record At (s : ParserState) (K : List ParserState) (ms : List Position) (p : Parser)
    : Type 0 where
  pub state : p.state ≡ s
  pub states : p.states ≡ K
  pub marks : p.marks ≡ ms
  pub tail : p.tail_comment ≡ []
  pub available : p.token_available ≡ true → p.deliveries ≢ []

-- The parser returns an event that the goals accept, and its stacks are valid and stand for the goals
-- behind the event.
pub record Follows (gs : List Goal) (event : Event) (p : Parser) : Type 0 where
  pub next_state : ParserState
  pub next_states : List ParserState
  pub next_marks : List Position
  pub at : At next_state next_states next_marks p
  pub valid : Valid next_state next_states next_marks
  pub accepted : accept gs event.event_type ≡ some (own next_state ++ below next_states)
