-- ===== src/Parser/Block.antt =====
-- Block sequences and mappings in internal/parserc/parserc.go.
use yaml.Common.{
  Bool, true, false, not, ◌||◌, List, [], ◌∷◌, Bytes, codes, length, is_empty, if◌then◌else◌,
}
use yaml.Event.{Event, Position, bare_event, sequence_end, mapping_end, tail_comment_event}
use yaml.Token.{
  YamlToken, TokenType, ◌is_token◌, block_entry_token, block_end_token, key_token, value_token,
}
use yaml.Run.{◌>>=◌, ◌>>◌, pure, get, modify, when}
use yaml.Parser.State.{
  ParserState, M, fail_at, set_state, push_state, pop_state, push_mark, pop_mark,
  block_sequence_entry_state, indentless_sequence_entry_state, block_mapping_key_state,
  block_mapping_value_state,
}
use yaml.Parser.Tokens.{peek_token, skip_token, next_token, set_event_comments, split_stem_comment}
use yaml.Parser.Node.{empty_scalar, parse_node}

-- What a collection does first: the mark of its start token is pushed.
unfoldable pub enter : Bool → M (Unit {0})
unfolding peek_token skip_token
enter first = when first (do token ← peek_token; push_mark token.start_mark; skip_token)

-- A node in the collection of the state, to which the parser returns; without a node an empty scalar.
unfoldable pub node_or_empty : Bool → Bool → Bool → ParserState → Position → M Event
unfolding parse_node empty_scalar
node_or_empty present block indentless state mark =
    if present
    then (do push_state state; parse_node block indentless)
    else (do set_state state; pure (empty_scalar mark))

-- The end of a collection that keeps a mark.
unfoldable pub leave : M (Unit {0})
unfolding pop_state pop_mark
leave = do pop_state; _ ← pop_mark; pure tt

-- `did not find expected …`, with the mark of the collection, which is removed.
unfoldable pub fail_in : Bytes → YamlToken → M Event
unfolding pop_mark fail_at
fail_in problem token = do context ← pop_mark; fail_at problem token.start_mark.line context.line

-- A token of the types that end an entry or a key.
abbrev pub one_of_types : List TokenType → YamlToken → Bool
one_of_types [] token = false
one_of_types (t ∷ ts) token = token.token_type is_token t || one_of_types ts token

-- Behind the `-` of an entry; the tokens of the types mean that it is empty.
unfoldable pub block_entry : List TokenType → ParserState → YamlToken → M Event
unfolding skip_token split_stem_comment peek_token node_or_empty
block_entry empties state token = do
  p ← get
  skip_token
  split_stem_comment (length p.head_comment)
  token' ← peek_token
  node_or_empty (not (one_of_types empties token')) true false state token.end_mark

-- yaml_parser_parse_block_sequence_entry
unfoldable pub parse_block_sequence_entry : Bool → M Event
unfolding enter peek_token block_entry leave skip_token fail_in
parse_block_sequence_entry first = do
  enter first
  token ← peek_token
  if token.token_type is_token block_entry_token
      then block_entry (block_entry_token ∷ block_end_token ∷ []) block_sequence_entry_state token
      else if token.token_type is_token block_end_token
      then (do leave; skip_token; pure (bare_event sequence_end token.start_mark token.end_mark))
      else fail_in (codes "did not find expected '-' indicator") token

-- yaml_parser_parse_indentless_sequence_entry
unfoldable pub parse_indentless_sequence_entry : M Event
unfolding peek_token block_entry pop_state
parse_indentless_sequence_entry = do
  token ← peek_token
  if token.token_type is_token block_entry_token
      then block_entry (block_entry_token ∷ key_token ∷ value_token ∷ block_end_token ∷ [])
          indentless_sequence_entry_state token
      else (do pop_state; pure (bare_event sequence_end token.start_mark token.start_mark))

-- Behind the `?` or `:` of a key or a value.
unfoldable pub block_half : ParserState → YamlToken → M Event
unfolding next_token node_or_empty
block_half state token = do
  token' ← next_token
  node_or_empty (not (one_of_types (key_token ∷ value_token ∷ block_end_token ∷ []) token')) true
      true state token.end_mark

-- The event for a tail comment: the comment is cleared before it is read.
unfoldable tail_event : YamlToken → M Event
tail_event token = do
  modify (λ p. record p { tail_comment = [] })
  p ← get
  pure (record (bare_event tail_comment_event token.start_mark token.end_mark) {
    foot_comment = p.tail_comment;
  })

-- yaml_parser_parse_block_mapping_key
unfoldable pub parse_block_mapping_key : Bool → M Event
unfolding enter peek_token tail_event block_half leave set_event_comments skip_token fail_in
parse_block_mapping_key first = do
  enter first
  token ← peek_token
  p ← get
  if not (is_empty p.tail_comment)
      then tail_event token
      else if token.token_type is_token key_token
      then block_half block_mapping_value_state token
      else if token.token_type is_token block_end_token
      then (do
        leave
        event ← set_event_comments (bare_event mapping_end token.start_mark token.end_mark)
        skip_token
        pure event)
      else fail_in (codes "did not find expected key") token

-- yaml_parser_parse_block_mapping_value
unfoldable pub parse_block_mapping_value : M Event
unfolding peek_token block_half empty_scalar
parse_block_mapping_value = do
  token ← peek_token
  if token.token_type is_token value_token
      then block_half block_mapping_key_state token
      else (do set_state block_mapping_key_state; pure (empty_scalar token.start_mark))
