-- ===== src/Parser/Follow/Document.antt =====
-- The handlers of streams and documents end with an event that the grammar accepts.
use yaml.Common.{◌≡◌, refl, ap, ◌∙◌, Bool, true, false, not, [], ◌∷◌, length, if◌then◌else◌, arith}
use yaml.Event.{Event, bare_event, document_end}
use yaml.Token.{
  YamlToken, ◌is_token◌, stream_start_token, stream_end_token, version_directive_token,
  tag_directive_token, document_start_token, document_end_token,
}
use yaml.Run.{◌>>=◌, pure, when, Ends, returns, raises, Ends-bind, Ends-if}
use yaml.Parser.State.{
  Parser, ParserState, fail_at, pop_state, implicit_document_start_state, document_start_state,
  document_content_state, document_end_state, block_node_state, end_state,
}
use yaml.Parser.Tokens.{peek_token, skip_token, set_event_comments}
use yaml.Parser.Directives.{process_directives}
use yaml.Parser.Node.{empty_scalar}
use yaml.Parser.Block.{one_of_types}
use yaml.Parser.Document.{
  parse_stream_start, skip_document_ends, parse_implicit_document, parse_explicit_document,
  parse_stream_end, parse_document_start, parse_document_content, head_to_foot, parse_document_end,
}
use yaml.Parser.Grammar.{accept, whole_stream, documents, document_closing, node}
use yaml.Parser.Stack.{
  At, document_below, top, content, unmarked, block_node_unmarked, implicit_document_top,
  document_top, end_top, Follows,
}
use yaml.Parser.Steps.{Over, At-core, peek_token-Over, skip_token-At, set_event_comments-At}
use yaml.Parser.Moves.{At-set, Over-set, Over-push, pop_state-Ready}
use yaml.Parser.Follow.Ready.{At-Follows, Ready-Follows}
use yaml.Parser.Follow.Node.{parse_node-Follows}
use yaml.Parser.Follow.Directives.{process_directives-Over, skip_document_ends-Over}

module _ {s : ParserState} where
  pub parse_stream_start-Follows :
      {p : Parser} → At s [] [] p → Ends (Follows (whole_stream ∷ [])) (parse_stream_start p)
  unfolding parse_stream_start fail_at
  parse_stream_start-Follows {p} a = Ends-bind peek_token _ p (peek_token-Over a) (λ token q o.
      Ends-if (not (token.token_type is_token stream_start_token)) _ _ q (λ _. raises)
        (λ _.
          Ends-bind skip_token _ (record q { state = implicit_document_start_state })
            (skip_token-At (Over-set implicit_document_start_state o))
            (λ _ r x. returns (At-Follows (top implicit_document_top) refl x))))

  module _ (token : YamlToken) {p : Parser} (o : Over s [] [] p) where
    parse_implicit_document-Follows :
        Ends (Follows (documents ∷ [])) (parse_implicit_document token p)
    unfolding parse_implicit_document
    parse_implicit_document-Follows =
        Ends-bind process_directives _ p (process_directives-Over o.at) (λ _ q x. returns (
          At-Follows (unmarked block_node_unmarked document_below) refl (
            At-core
              {p = record q { states = document_end_state ∷ q.states; state = block_node_state }}
              refl (At-set block_node_state (Over-push document_end_state x).at))))

    parse_explicit_document-Follows :
        Ends (Follows (documents ∷ [])) (parse_explicit_document token p)
    unfolding parse_explicit_document fail_at
    parse_explicit_document-Follows =
        Ends-bind process_directives _ p (process_directives-Over o.at) (λ _ q x.
          Ends-bind peek_token _ q (peek_token-Over x.at) (λ token' r y.
            Ends-if (not (token'.token_type is_token document_start_token)) _ _ r (λ _. raises)
              (λ _.
                Ends-bind skip_token _
                  (record r {
                    states = document_end_state ∷ r.states;
                    state = document_content_state;
                  })
                  (skip_token-At (Over-set document_content_state (Over-push document_end_state y)))
                  (λ _ r' z. returns (At-Follows content refl z)))))

    parse_stream_end-Follows : Ends (Follows (documents ∷ [])) (parse_stream_end token p)
    unfolding parse_stream_end
    parse_stream_end-Follows =
        Ends-bind skip_token _ (record p { state = end_state })
          (skip_token-At (Over-set end_state o))
          (λ _ q x. returns (At-Follows (top end_top) refl x))

    -- A document, with or without its start, or the end of the stream.
    document_or_end-Follows :
        (b c : Bool)
        → Ends (Follows (documents ∷ [])) (
            (if b
                then parse_implicit_document token
                else if c
                then parse_explicit_document token
                else parse_stream_end token)
              p)
    document_or_end-Follows true c = parse_implicit_document-Follows
    document_or_end-Follows false true = parse_explicit_document-Follows
    document_or_end-Follows false false = parse_stream_end-Follows

  pub parse_document_start-Follows :
      (implicit : Bool) {p : Parser}
      → At s [] [] p
      → Ends (Follows (documents ∷ [])) (parse_document_start implicit p)
  unfolding parse_document_start
  parse_document_start-Follows true {p} a =
      Ends-bind peek_token _ p (peek_token-Over a)
        (λ first q o. document_or_end-Follows first o _ _)
  parse_document_start-Follows false {p} a =
      Ends-bind peek_token _ p (peek_token-Over a) (λ first q o.
        Ends-bind (skip_document_ends (length q.deliveries) first) _ q
          (skip_document_ends-Over (length q.deliveries) first (omega arith) o)
          (λ token r x. document_or_end-Follows token x false _))

  pub parse_document_content-Follows :
      {p : Parser}
      → At s (document_end_state ∷ []) [] p
      → Ends (Follows (node ∷ document_closing ∷ documents ∷ [])) (parse_document_content p)
  unfolding parse_document_content empty_scalar
  parse_document_content-Follows {p} a = Ends-bind peek_token _ p (peek_token-Over a) (λ token q o.
      Ends-if
        (one_of_types
          (version_directive_token ∷ tag_directive_token ∷ document_start_token ∷ document_end_token
            ∷ stream_end_token ∷ [])
          token)
        _ _ q
        (λ _.
          Ends-bind pop_state _ q (pop_state-Ready document_below o)
            (λ _ r x. returns (Ready-Follows (empty_scalar token.start_mark) refl x)))
        (λ _. parse_node-Follows document_below true false o.at))

event_type-head_to_foot : (event : Event) → (head_to_foot event).event_type ≡ event.event_type
unfolding head_to_foot
event_type-head_to_foot event = ground arith

pub parse_document_end-Follows :
    {s : ParserState} {p : Parser}
    → At s [] [] p
    → Ends (Follows (document_closing ∷ documents ∷ [])) (parse_document_end p)
unfolding parse_document_end
parse_document_end-Follows {s} {p} a = Ends-bind peek_token _ p (peek_token-Over a) (λ token q o.
    Ends-bind (when (token.token_type is_token document_end_token) skip_token) _ q
      (skipped (token.token_type is_token document_end_token) o)
      (λ _ r x. closed (token.token_type is_token document_end_token) token x))
  where
    skipped :
        (b : Bool) {q : Parser} → Over s [] [] q → Ends (λ _. At s [] []) (when b skip_token q)
    skipped true o = skip_token-At o
    skipped false o = returns o.at

    closed :
        (b : Bool) (token : YamlToken) {r : Parser}
        → At s [] [] r
        → Ends (Follows (document_closing ∷ documents ∷ [])) (
            (do
              event ←
                  set_event_comments
                    (record (bare_event document_end token.start_mark
                      (if b then token.end_mark else token.start_mark)) { implicit = not b })
              pure (head_to_foot event))
              (record r { tag_directives = []; state = document_start_state }))
    closed b token {r} x =
        let event =
          record (bare_event document_end token.start_mark
            (if b then token.end_mark else token.start_mark)) { implicit = not b } in
        Ends-bind (set_event_comments event) (λ e. pure (head_to_foot e))
          (record r { tag_directives = []; state = document_start_state })
          (set_event_comments-At event (
            At-core {p = record r { state = document_start_state }}
              {q = record r { tag_directives = []; state = document_start_state }} refl
              (At-set document_start_state x)))
          (λ e q (t, y, _). returns (
            At-Follows (top document_top)
              (ap (accept (document_closing ∷ documents ∷ [])) (event_type-head_to_foot e ∙ t)) y))
