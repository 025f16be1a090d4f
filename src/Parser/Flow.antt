-- ===== src/Parser/Flow.antt =====
-- Flow sequences and mappings in internal/parserc/parserc.go.
use yaml.Common.{Bool, true, false, not, List, [], ◌∷◌, Bytes, codes, if◌then◌else◌}
use yaml.Event.{
  Event, EventType, bare_event, sequence_end, mapping_start, mapping_end, flow_mapping_style,
}
use yaml.Token.{
  YamlToken, TokenType, ◌is_token◌, flow_sequence_end_token, flow_mapping_end_token,
  flow_entry_token, key_token, value_token,
}
use yaml.Run.{◌>>=◌, ◌>>◌, pure}
use yaml.Parser.State.{
  ParserState, M, set_state, push_state, flow_sequence_entry_state,
  flow_sequence_entry_mapping_key_state, flow_sequence_entry_mapping_value_state,
  flow_sequence_entry_mapping_end_state, flow_mapping_key_state, flow_mapping_value_state,
  flow_mapping_empty_value_state,
}
use yaml.Parser.Tokens.{peek_token, skip_token, next_token, set_event_comments}
use yaml.Parser.Node.{empty_scalar, parse_node}
use yaml.Parser.Block.{enter, leave, fail_in, node_or_empty, one_of_types}

-- The `,` before every entry but the first, and the token behind it.
unfoldable pub flow_separator : Bool → Bytes → YamlToken → (YamlToken → M Event) → M Event
unfolding next_token fail_in
flow_separator first problem token entry =
    if first
    then entry token
    else if token.token_type is_token flow_entry_token
    then (do token' ← next_token; entry token')
    else fail_in problem token

-- The end of a flow collection.
unfoldable pub flow_end : EventType → YamlToken → M Event
unfolding leave set_event_comments skip_token
flow_end type token = do
  leave
  event ← set_event_comments (bare_event type token.start_mark token.end_mark)
  skip_token
  pure event

-- A node in a flow collection, to whose state the parser returns.
unfoldable pub flow_node : ParserState → M Event
unfolding parse_node
flow_node state = do push_state state; parse_node false false

-- An entry of a flow sequence, which may be a mapping of one pair.
unfoldable pub flow_sequence_item : YamlToken → M Event
unfolding skip_token flow_node flow_end
flow_sequence_item token =
    if token.token_type is_token key_token
    then (do
      set_state flow_sequence_entry_mapping_key_state
      skip_token
      pure (record (bare_event mapping_start token.start_mark token.end_mark) {
        implicit = true;
        style = flow_mapping_style;
      }))
    else if not (token.token_type is_token flow_sequence_end_token)
    then flow_node flow_sequence_entry_state
    else flow_end sequence_end token

-- yaml_parser_parse_flow_sequence_entry
unfoldable pub parse_flow_sequence_entry : Bool → M Event
unfolding enter peek_token flow_separator flow_sequence_item flow_end
parse_flow_sequence_entry first = do
  enter first
  token ← peek_token
  if not (token.token_type is_token flow_sequence_end_token)
      then flow_separator first (codes "did not find expected ',' or ']'") token flow_sequence_item
      else flow_end sequence_end token

-- yaml_parser_parse_flow_sequence_entry_mapping_key
unfoldable pub parse_flow_sequence_entry_mapping_key : M Event
unfolding peek_token flow_node skip_token empty_scalar
parse_flow_sequence_entry_mapping_key = do
  token ← peek_token
  if not (one_of_types (value_token ∷ flow_entry_token ∷ flow_sequence_end_token ∷ []) token)
      then flow_node flow_sequence_entry_mapping_value_state
      else (do
        skip_token
        set_state flow_sequence_entry_mapping_value_state
        pure (empty_scalar token.end_mark))

-- The value behind a `:`, or an empty scalar, with the state that follows it.
unfoldable pub flow_value : List TokenType → ParserState → M Event
unfolding peek_token next_token node_or_empty empty_scalar
flow_value empties state = do
  token ← peek_token
  if token.token_type is_token value_token
      then (do
        token' ← next_token
        node_or_empty (not (one_of_types empties token')) false false state token'.start_mark)
      else (do set_state state; pure (empty_scalar token.start_mark))

-- yaml_parser_parse_flow_sequence_entry_mapping_value
unfoldable pub parse_flow_sequence_entry_mapping_value : M Event
unfolding flow_value
parse_flow_sequence_entry_mapping_value =
    flow_value (flow_entry_token ∷ flow_sequence_end_token ∷ [])
      flow_sequence_entry_mapping_end_state

-- yaml_parser_parse_flow_sequence_entry_mapping_end
unfoldable pub parse_flow_sequence_entry_mapping_end : M Event
unfolding peek_token
parse_flow_sequence_entry_mapping_end = do
  token ← peek_token
  set_state flow_sequence_entry_state
  pure (bare_event mapping_end token.start_mark token.start_mark)

-- An entry of a flow mapping.
unfoldable pub flow_mapping_item : YamlToken → M Event
unfolding next_token node_or_empty flow_node flow_end
flow_mapping_item token =
    if token.token_type is_token key_token
    then (do
      token' ← next_token
      node_or_empty
          (not (one_of_types (value_token ∷ flow_entry_token ∷ flow_mapping_end_token ∷ []) token'))
          false false flow_mapping_value_state token'.start_mark)
    else if not (token.token_type is_token flow_mapping_end_token)
    then flow_node flow_mapping_empty_value_state
    else flow_end mapping_end token

-- yaml_parser_parse_flow_mapping_key
unfoldable pub parse_flow_mapping_key : Bool → M Event
unfolding enter peek_token flow_separator flow_mapping_item flow_end
parse_flow_mapping_key first = do
  enter first
  token ← peek_token
  if not (token.token_type is_token flow_mapping_end_token)
      then flow_separator first (codes "did not find expected ',' or '}'") token flow_mapping_item
      else flow_end mapping_end token

-- yaml_parser_parse_flow_mapping_value
unfoldable pub parse_flow_mapping_value : Bool → M Event
unfolding peek_token empty_scalar flow_value
parse_flow_mapping_value empty =
    if empty
    then (do
      token ← peek_token
      set_state flow_mapping_key_state
      pure (empty_scalar token.start_mark))
    else flow_value (flow_entry_token ∷ flow_mapping_end_token ∷ []) flow_mapping_key_state
