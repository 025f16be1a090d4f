-- ===== src/Parser/Machine.antt =====
-- yaml_parser_state_machine and Parse of internal/parserc/parserc.go.
use yaml.Common.{Bool, true, false, ◌||◌, if◌then◌else◌}
use yaml.Event.{Event, no_event, bare_event, origin}
use yaml.Run.{ok, panic}
use yaml.Parser.State.{
  ParserState, M, stream_start_state, implicit_document_start_state, document_start_state,
  document_content_state, document_end_state, block_node_state,
  block_node_or_indentless_sequence_state, flow_node_state, block_sequence_first_entry_state,
  block_sequence_entry_state, indentless_sequence_entry_state, block_mapping_first_key_state,
  block_mapping_key_state, block_mapping_value_state, flow_sequence_first_entry_state,
  flow_sequence_entry_state, flow_sequence_entry_mapping_key_state,
  flow_sequence_entry_mapping_value_state, flow_sequence_entry_mapping_end_state,
  flow_mapping_first_key_state, flow_mapping_key_state, flow_mapping_value_state,
  flow_mapping_empty_value_state, end_state,
}
use yaml.Parser.Node.{parse_node}
use yaml.Parser.Block.{
  parse_block_sequence_entry, parse_indentless_sequence_entry, parse_block_mapping_key,
  parse_block_mapping_value,
}
use yaml.Parser.Flow.{
  parse_flow_sequence_entry, parse_flow_sequence_entry_mapping_key,
  parse_flow_sequence_entry_mapping_value, parse_flow_sequence_entry_mapping_end,
  parse_flow_mapping_key, parse_flow_mapping_value,
}
use yaml.Parser.Document.{
  parse_stream_start, parse_document_start, parse_document_content, parse_document_end,
}

-- The handler of a state; END has none, which is the panic of the `default` case.
unfoldable pub handle : ParserState → M Event
unfolding parse_stream_start parse_document_start parse_document_content parse_document_end
    parse_node parse_block_sequence_entry parse_indentless_sequence_entry parse_block_mapping_key
    parse_block_mapping_value parse_flow_sequence_entry parse_flow_sequence_entry_mapping_key
    parse_flow_sequence_entry_mapping_value parse_flow_sequence_entry_mapping_end
    parse_flow_mapping_key parse_flow_mapping_value
handle stream_start_state = parse_stream_start
handle implicit_document_start_state = parse_document_start true
handle document_start_state = parse_document_start false
handle document_content_state = parse_document_content
handle document_end_state = parse_document_end
handle block_node_state = parse_node true false
handle block_node_or_indentless_sequence_state = parse_node true true
handle flow_node_state = parse_node false false
handle block_sequence_first_entry_state = parse_block_sequence_entry true
handle block_sequence_entry_state = parse_block_sequence_entry false
handle indentless_sequence_entry_state = parse_indentless_sequence_entry
handle block_mapping_first_key_state = parse_block_mapping_key true
handle block_mapping_key_state = parse_block_mapping_key false
handle block_mapping_value_state = parse_block_mapping_value
handle flow_sequence_first_entry_state = parse_flow_sequence_entry true
handle flow_sequence_entry_state = parse_flow_sequence_entry false
handle flow_sequence_entry_mapping_key_state = parse_flow_sequence_entry_mapping_key
handle flow_sequence_entry_mapping_value_state = parse_flow_sequence_entry_mapping_value
handle flow_sequence_entry_mapping_end_state = parse_flow_sequence_entry_mapping_end
handle flow_mapping_first_key_state = parse_flow_mapping_key true
handle flow_mapping_key_state = parse_flow_mapping_key false
handle flow_mapping_value_state = parse_flow_mapping_value false
handle flow_mapping_empty_value_state = parse_flow_mapping_value true
handle end_state = λ p. panic

-- yaml_parser_state_machine
unfoldable pub state_machine : M Event
unfolding handle
state_machine p = handle p.state p

abbrev pub is_end : ParserState → Bool
is_end end_state = true
is_end _ = false

-- Parse
unfoldable pub parse : M Event
unfolding state_machine
parse p =
    if p.stream_end_produced || is_end p.state
    then ok (bare_event no_event origin origin) p
    else state_machine p
