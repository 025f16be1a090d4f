-- ===== src/Parser/Node.antt =====
-- yaml_parser_parse_node of internal/parserc/parserc.go.
use yaml.Common.{
  ℕ, Bool, true, false, not, ◌&&◌, ◌||◌, Option, none, some, List, [], ◌∷◌, ◌++◌, Bytes, bytes_eq,
  codes, is_empty, ◌==◌, if◌then◌else◌,
}
use yaml.Event.{
  Event, EventType, Position, TagDirective, bare_event, alias, scalar, sequence_start,
  mapping_start, plain_scalar_style, block_sequence_style, block_mapping_style, flow_sequence_style,
  flow_mapping_style, origin,
}
use yaml.Token.{
  YamlToken, ◌is_token◌, alias_token, anchor_token, tag_token, scalar_token, block_entry_token,
  flow_sequence_start_token, flow_mapping_start_token, block_sequence_start_token,
  block_mapping_start_token,
}
use yaml.Run.{ok, ◌>>=◌, ◌>>◌, pure, get}
use yaml.Parser.State.{
  ParserState, M, fail_at, set_state, pop_state, indentless_sequence_entry_state,
  flow_sequence_first_entry_state, flow_mapping_first_key_state, block_sequence_first_entry_state,
  block_mapping_first_key_state,
}
use yaml.Parser.Tokens.{peek_token, skip_token, next_token, set_event_comments}

-- yaml_parser_process_empty_scalar
unfoldable pub empty_scalar : Position → Event
empty_scalar mark = record (bare_event scalar mark mark) {
  implicit = true;
  style = plain_scalar_style;
}

-- The local variables that the anchor and the tag of a node set.
pub record Properties : Type 0 where
  pub anchor : Bytes
  pub has_tag : Bool
  pub tag_handle : Bytes
  pub tag_suffix : Bytes
  pub start_mark : Position
  pub end_mark : Position
  pub tag_mark : Position

abbrev pub no_properties : YamlToken → Properties
no_properties token = record {
  anchor = [];
  has_tag = false;
  tag_handle = [];
  tag_suffix = [];
  start_mark = token.start_mark;
  end_mark = token.start_mark;
  tag_mark = origin;
}

abbrev pub with_anchor : YamlToken → Properties → Properties
with_anchor token props = record props { anchor = token.value; end_mark = token.end_mark }

abbrev pub with_tag : YamlToken → Properties → Properties
with_tag token props = record props {
  has_tag = true;
  tag_handle = token.value;
  tag_suffix = token.suffix;
  tag_mark = token.start_mark;
  end_mark = token.end_mark;
}

-- One property, if the token is of the type, and the token behind it.
unfoldable pub read_property :
    Bool → (Properties → Properties) → Properties → YamlToken → M (Properties × YamlToken)
unfolding next_token
read_property given set props token =
    if given then (do token' ← next_token; pure (set props, token')) else pure (props, token)

-- The anchor and the tag, in either order, and the token behind them.
unfoldable pub read_properties : YamlToken → M (Properties × YamlToken)
unfolding read_property
read_properties token =
    if token.token_type is_token anchor_token
    then (do
      (props, second) ← read_property true (with_anchor token) (no_properties token) token
      read_property (second.token_type is_token tag_token) (with_tag second) props second)
    else if token.token_type is_token tag_token
    then (do
      (props, second) ← read_property true (with_tag token) (no_properties token) token
      read_property (second.token_type is_token anchor_token) (with_anchor second) props second)
    else pure (no_properties token, token)

-- The prefix of the first directive with the handle.
unfoldable prefix_of : Bytes → List TagDirective → Option Bytes
prefix_of handle [] = none
prefix_of handle (d ∷ ds) = if bytes_eq d.handle handle then some d.prefix else prefix_of handle ds

-- The tag for the handle and the suffix: empty for an undefined handle.
unfoldable pub expand_tag : Bytes → Bytes → List TagDirective → Bytes
unfolding prefix_of
expand_tag handle suffix ds =
    if is_empty handle
    then suffix
    else elim (prefix_of handle ds) [ none ↦ [] | some prefix ↦ prefix ++ suffix ]

unfoldable pub resolve_tag : Properties → M Bytes
unfolding expand_tag
resolve_tag props = do
  p ← get
  let tag = expand_tag props.tag_handle props.tag_suffix p.tag_directives
  if not props.has_tag
      then pure []
      else if not (is_empty props.tag_handle) && is_empty tag
      then fail_at (codes "found undefined tag handle") props.tag_mark.line props.start_mark.line
      else pure tag

-- The start of a sequence or a mapping of a style.
abbrev pub start_event : EventType → ℕ → Properties → Bytes → YamlToken → Event
start_event type style props tag token = record (bare_event type props.start_mark token.end_mark) {
  anchor = props.anchor;
  tag = tag;
  implicit = is_empty tag;
  style = style;
}

-- `event.Head_comment = parser.Stem_comment`, unless that is nil.
unfoldable pub take_stem : Event → M Event
take_stem event p = elim p.stem_comment [
  | none ↦ ok event p
  | some stem ↦ ok (record event { head_comment = stem }) (record p { stem_comment = none })
]

unfoldable pub parse_alias : YamlToken → M Event
unfolding pop_state set_event_comments skip_token
parse_alias token = do
  pop_state
  event ←
      set_event_comments
        (record (bare_event alias token.start_mark token.end_mark) { anchor = token.value })
  skip_token
  pure event

-- `!` alone, the tag that makes a scalar plain.
abbrev non_specific : Bytes → Bool
non_specific tag = bytes_eq tag (b'!' ∷ [])

unfoldable pub scalar_event : Properties → Bytes → YamlToken → Event
scalar_event props tag token =
    let plain_implicit = (is_empty tag && token.style == plain_scalar_style) || non_specific tag in
    record (bare_event scalar props.start_mark token.end_mark) {
      anchor = props.anchor;
      tag = tag;
      value = token.value;
      implicit = plain_implicit;
      quoted_implicit = not plain_implicit && is_empty tag;
      style = token.style;
    }

unfoldable pub parse_scalar : Properties → Bytes → YamlToken → M Event
unfolding pop_state scalar_event set_event_comments skip_token
parse_scalar props tag token = do
  pop_state
  event ← set_event_comments (scalar_event props tag token)
  skip_token
  pure event

unfoldable pub parse_flow_start :
    EventType → ℕ → ParserState → Properties → Bytes → YamlToken → M Event
unfolding set_event_comments
parse_flow_start type style state props tag token = do
  set_state state
  set_event_comments (start_event type style props tag token)

unfoldable pub parse_block_start :
    EventType → ℕ → ParserState → Properties → Bytes → YamlToken → M Event
unfolding take_stem
parse_block_start type style state props tag token = do
  set_state state
  take_stem (start_event type style props tag token)

-- A node with properties and no content.
unfoldable pub parse_empty_node : Properties → Bytes → YamlToken → M Event
unfolding pop_state
parse_empty_node props tag token =
    if not (is_empty props.anchor) || not (is_empty tag)
    then (do
      pop_state
      pure (record (bare_event scalar props.start_mark props.end_mark) {
        anchor = props.anchor;
        tag = tag;
        implicit = is_empty tag;
        style = plain_scalar_style;
      }))
    else fail_at (codes "did not find expected node content") token.start_mark.line
        props.start_mark.line

-- The content of a node, behind its properties.
unfoldable pub parse_content : Bool → Bool → Properties → Bytes → YamlToken → M Event
unfolding parse_scalar parse_flow_start parse_block_start parse_empty_node
parse_content block indentless props tag token =
    if indentless && token.token_type is_token block_entry_token
    then (do
      set_state indentless_sequence_entry_state
      pure (start_event sequence_start block_sequence_style props tag token))
    else if token.token_type is_token scalar_token
    then parse_scalar props tag token
    else if token.token_type is_token flow_sequence_start_token
    then parse_flow_start sequence_start flow_sequence_style flow_sequence_first_entry_state props
        tag token
    else if token.token_type is_token flow_mapping_start_token
    then parse_flow_start mapping_start flow_mapping_style flow_mapping_first_key_state props tag
        token
    else if block && token.token_type is_token block_sequence_start_token
    then parse_block_start sequence_start block_sequence_style block_sequence_first_entry_state
        props tag token
    else if block && token.token_type is_token block_mapping_start_token
    then parse_block_start mapping_start block_mapping_style block_mapping_first_key_state props tag
        token
    else parse_empty_node props tag token

-- yaml_parser_parse_node
unfoldable pub parse_node : Bool → Bool → M Event
unfolding peek_token parse_alias read_properties resolve_tag parse_content
parse_node block indentless = do
  token ← peek_token
  if token.token_type is_token alias_token then parse_alias token else (do
    (props, content) ← read_properties token
    tag ← resolve_tag props
    parse_content block indentless props tag content)
