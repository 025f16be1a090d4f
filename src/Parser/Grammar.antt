-- ===== src/Parser/Grammar.antt =====
-- The grammar of events, as a machine with a stack of goals: what a consumer of the parser's events
-- expects next. The comment at the head of internal/parserc/parserc.go gives the productions.
use yaml.Common.{Option, none, some, List, [], ◌∷◌, ◌++◌}
use yaml.Event.{
  EventType, stream_start, stream_end, document_start, document_end, alias, scalar, sequence_start,
  sequence_end, mapping_start, mapping_end,
}
use yaml.Parser.State.{
  ParserState, stream_start_state, implicit_document_start_state, document_start_state,
  document_content_state, document_end_state, block_node_state,
  block_node_or_indentless_sequence_state, flow_node_state, block_sequence_first_entry_state,
  block_sequence_entry_state, indentless_sequence_entry_state, block_mapping_first_key_state,
  block_mapping_key_state, block_mapping_value_state, flow_sequence_first_entry_state,
  flow_sequence_entry_state, flow_sequence_entry_mapping_key_state,
  flow_sequence_entry_mapping_value_state, flow_sequence_entry_mapping_end_state,
  flow_mapping_first_key_state, flow_mapping_key_state, flow_mapping_value_state,
  flow_mapping_empty_value_state, end_state,
}

-- The start of the stream; documents up to the end of the stream; the end of a document; a node; the
-- items of a sequence up to its end; the pairs of a mapping up to its end.
pub data Goal : Type 0 where
  whole_stream documents document_closing node items pairs : Goal

-- The first event of a node, with the goals behind the node.
abbrev pub accept_node : EventType → List Goal → Option (List Goal)
accept_node alias gs = some gs
accept_node scalar gs = some gs
accept_node sequence_start gs = some (items ∷ gs)
accept_node mapping_start gs = some (pairs ∷ gs)
accept_node _ gs = none

abbrev accept_stream : EventType → List Goal → Option (List Goal)
accept_stream stream_start gs = some (documents ∷ gs)
accept_stream _ gs = none

abbrev accept_document : EventType → List Goal → Option (List Goal)
accept_document document_start gs = some (node ∷ document_closing ∷ documents ∷ gs)
accept_document stream_end gs = some gs
accept_document _ gs = none

abbrev accept_closing : EventType → List Goal → Option (List Goal)
accept_closing document_end gs = some gs
accept_closing _ gs = none

abbrev accept_item : EventType → List Goal → Option (List Goal)
accept_item sequence_end gs = some gs
accept_item t gs = accept_node t (items ∷ gs)

abbrev accept_pair : EventType → List Goal → Option (List Goal)
accept_pair mapping_end gs = some gs
accept_pair t gs = accept_node t (node ∷ pairs ∷ gs)

-- The goals behind an event, if it may come next.
abbrev pub accept : List Goal → EventType → Option (List Goal)
accept [] t = none
accept (whole_stream ∷ gs) t = accept_stream t gs
accept (documents ∷ gs) t = accept_document t gs
accept (document_closing ∷ gs) t = accept_closing t gs
accept (node ∷ gs) t = accept_node t gs
accept (items ∷ gs) t = accept_item t gs
accept (pairs ∷ gs) t = accept_pair t gs

-- What a state of the parser stands for.
abbrev pub own : ParserState → List Goal
own stream_start_state = whole_stream ∷ []
own implicit_document_start_state = documents ∷ []
own document_start_state = documents ∷ []
own document_content_state = node ∷ []
own document_end_state = document_closing ∷ documents ∷ []
own block_node_state = node ∷ []
own block_node_or_indentless_sequence_state = node ∷ []
own flow_node_state = node ∷ []
own block_sequence_first_entry_state = items ∷ []
own block_sequence_entry_state = items ∷ []
own indentless_sequence_entry_state = items ∷ []
own block_mapping_first_key_state = pairs ∷ []
own block_mapping_key_state = pairs ∷ []
own block_mapping_value_state = node ∷ pairs ∷ []
own flow_sequence_first_entry_state = items ∷ []
own flow_sequence_entry_state = items ∷ []
own flow_sequence_entry_mapping_key_state = pairs ∷ items ∷ []
own flow_sequence_entry_mapping_value_state = node ∷ pairs ∷ items ∷ []
own flow_sequence_entry_mapping_end_state = pairs ∷ items ∷ []
own flow_mapping_first_key_state = pairs ∷ []
own flow_mapping_key_state = pairs ∷ []
own flow_mapping_value_state = node ∷ pairs ∷ []
own flow_mapping_empty_value_state = node ∷ pairs ∷ []
own end_state = []

-- What the stack of states stands for.
abbrev pub below : List ParserState → List Goal
below [] = []
below (s ∷ states) = own s ++ below states
