-- ===== src/Parser/Document.antt =====
-- Streams and documents in internal/parserc/parserc.go.
use yaml.Common.{
  ℕ, zero, suc, ◌-◌, Bool, true, false, not, ◌&&◌, none, some, [], ◌∷◌, Bytes, codes, length,
  is_empty, get_elem?, take, drop, ◌==◌, if◌then◌else◌,
}
use yaml.Event.{Event, bare_event, stream_start, stream_end, document_start, document_end}
use yaml.Token.{
  YamlToken, ◌is_token◌, stream_start_token, stream_end_token, version_directive_token,
  tag_directive_token, document_start_token, document_end_token,
}
use yaml.Run.{Outcome, ok, exhausted, ◌>>=◌, ◌>>◌, pure, get, modify, when}
use yaml.Parser.State.{
  Parser, M, fail_at, set_state, push_state, pop_state, implicit_document_start_state,
  document_start_state, document_content_state, document_end_state, block_node_state, end_state,
}
use yaml.Parser.Tokens.{peek_token, skip_token, next_token, set_event_comments}
use yaml.Parser.Directives.{process_directives}
use yaml.Parser.Node.{empty_scalar, parse_node}
use yaml.Parser.Block.{one_of_types}

-- yaml_parser_parse_stream_start
unfoldable pub parse_stream_start : M Event
unfolding peek_token fail_at skip_token
parse_stream_start = do
  token ← peek_token
  if not (token.token_type is_token stream_start_token)
      then fail_at (codes "did not find expected <stream-start>") token.start_mark.line 0
      else (do
        set_state implicit_document_start_state
        skip_token
        pure (record (bare_event stream_start token.start_mark token.end_mark) {
          encoding = token.encoding;
        }))

-- The loop over extra DOCUMENT-END tokens; it ends with the token behind them. The tokens that the
-- scanner still delivers bound its rounds.
unfoldable pub skip_document_ends : ℕ → YamlToken → M YamlToken
unfolding next_token
skip_document_ends zero token p =
    if token.token_type is_token document_end_token then exhausted else ok token p
skip_document_ends (suc fuel) token p =
    let round : Outcome Parser _ YamlToken =
      (do token' ← next_token; skip_document_ends fuel token') p in
    if token.token_type is_token document_end_token then round else ok token p

-- The loop back over the head comment, from the index `i`: the part for the document, and the part
-- that is left.
unfoldable split_header : ℕ → Bytes → Bytes × Bytes
split_header zero head = ([], head)
split_header (suc i) head =
    let rest = split_header i head in
    elim (get_elem? head (suc i)) [
      | none ↦ rest
      | some c ↦
          if not (c == 0x0A)
          then rest
          else if suc i == length head - 1
          then (take (suc i) head, drop (suc (suc i)) head)
          else elim (get_elem? head i) [
            | none ↦ rest
            | some b ↦ if b == 0x0A then (take i head, drop (suc (suc i)) head) else rest
          ]
    ]

-- An implicit document.
unfoldable pub parse_implicit_document : YamlToken → M Event
unfolding process_directives split_header
parse_implicit_document token = do
  _ ← process_directives
  push_state document_end_state
  set_state block_node_state
  p ← get
  let (header, head) = split_header (length p.head_comment - 1) p.head_comment
  modify (λ p. record p { head_comment = head })
  pure
      (record (bare_event document_start token.start_mark token.end_mark) { head_comment = header })

-- An explicit document.
unfoldable pub parse_explicit_document : YamlToken → M Event
unfolding process_directives peek_token fail_at skip_token
parse_explicit_document token = do
  (version, tags) ← process_directives
  token' ← peek_token
  if not (token'.token_type is_token document_start_token)
      then fail_at (codes "did not find expected <document start>") token'.start_mark.line 0
      else (do
        push_state document_end_state
        set_state document_content_state
        skip_token
        pure (record (bare_event document_start token.start_mark token'.end_mark) {
          version_directive = version;
          tag_directives = tags;
        }))

-- The end of the stream.
unfoldable pub parse_stream_end : YamlToken → M Event
unfolding skip_token
parse_stream_end token = do
  set_state end_state
  skip_token
  pure (bare_event stream_end token.start_mark token.end_mark)

-- yaml_parser_parse_document_start
unfoldable pub parse_document_start : Bool → M Event
unfolding peek_token skip_document_ends parse_implicit_document parse_explicit_document
    parse_stream_end
parse_document_start implicit = do
  first ← peek_token
  p ← get
  token ← if implicit then pure first else skip_document_ends (length p.deliveries) first
  if implicit
        && not (
            one_of_types
              (version_directive_token ∷ tag_directive_token ∷ document_start_token
                ∷ stream_end_token ∷ [])
              token)
      then parse_implicit_document token
      else if not (token.token_type is_token stream_end_token)
      then parse_explicit_document token
      else parse_stream_end token

-- yaml_parser_parse_document_content
unfoldable pub parse_document_content : M Event
unfolding peek_token pop_state empty_scalar parse_node
parse_document_content = do
  token ← peek_token
  if one_of_types
        (version_directive_token ∷ tag_directive_token ∷ document_start_token ∷ document_end_token
          ∷ stream_end_token ∷ [])
        token
      then (do pop_state; pure (empty_scalar token.start_mark))
      else parse_node true false

-- The head comment of a document end is its foot comment, if it has no other.
unfoldable pub head_to_foot : Event → Event
head_to_foot event =
    if not (is_empty event.head_comment) && is_empty event.foot_comment
    then record event { foot_comment = event.head_comment; head_comment = [] }
    else event

-- yaml_parser_parse_document_end
unfoldable pub parse_document_end : M Event
unfolding peek_token skip_token set_event_comments head_to_foot
parse_document_end = do
  token ← peek_token
  let explicit = token.token_type is_token document_end_token
  when explicit skip_token
  modify (λ p. record p { tag_directives = []; state = document_start_state })
  event ←
      set_event_comments
        (record (bare_event document_end token.start_mark
          (if explicit then token.end_mark else token.start_mark)) { implicit = not explicit })
  pure (head_to_foot event)
