-- ===== src/Parser/Follow/Node.antt =====
-- yaml_parser_parse_node ends with the first event of a node.
use yaml.Common.{
  ℕ, ◌≡◌, refl, Bool, true, false, not, ◌&&◌, ◌||◌, Option, none, some, List, ◌∷◌, ◌++◌, Bytes,
  is_empty,
}
use yaml.Event.{
  EventType, Position, alias, sequence_start, mapping_start, bare_event, block_sequence_style,
  block_mapping_style, flow_sequence_style, flow_mapping_style,
}
use yaml.Token.{
  YamlToken, ◌is_token◌, alias_token, anchor_token, tag_token, scalar_token, block_entry_token,
  flow_sequence_start_token, flow_mapping_start_token, block_sequence_start_token,
  block_mapping_start_token,
}
use yaml.Run.{ok, pure, Ends, returns, raises, Ends-bind, Ends-if}
use yaml.Parser.State.{
  Parser, ParserState, Error, fail_at, pop_state, flow_sequence_first_entry_state,
  flow_mapping_first_key_state, block_sequence_first_entry_state, block_mapping_first_key_state,
}
use yaml.Parser.Tokens.{peek_token, next_token}
use yaml.Parser.Node.{
  Properties, read_property, read_properties, expand_tag, resolve_tag, start_event, take_stem,
  parse_alias, scalar_event, parse_scalar, parse_flow_start, parse_block_start, parse_empty_node,
  parse_content, parse_node, no_properties, with_anchor, with_tag,
}
use yaml.Parser.Grammar.{node, accept_node, own, below}
use yaml.Parser.Stack.{
  At, Below, unmarked, Unmarked, indentless_unmarked, flow_sequence_unmarked, flow_mapping_unmarked,
  block_sequence_unmarked, block_mapping_unmarked, Follows,
}
use yaml.Parser.Steps.{Over, peek_token-Over, next_token-Over, Over-core}
use yaml.Parser.Moves.{Over-set, pop_state-Ready, Ready}
use yaml.Parser.Follow.Ready.{Ready-Follows, set_event_comments-Follows, comments_skip-Follows}

module _ {s : ParserState} {K : List ParserState} {ms : List Position} where
  read_property-Over :
      (given : Bool) (set : Properties → Properties) (props : Properties) (token : YamlToken)
      {p : Parser}
      → Over s K ms p
      → Ends (λ _. Over s K ms) (read_property given set props token p)
  unfolding read_property
  read_property-Over true set props token {p} o =
      Ends-bind next_token (λ token'. pure (set props, token')) p (next_token-Over o)
        (λ _ q x. returns x)
  read_property-Over false set props token o = returns o

  read_properties-Over :
      (token : YamlToken) {p : Parser}
      → Over s K ms p
      → Ends (λ _. Over s K ms) (read_properties token p)
  unfolding read_properties
  read_properties-Over token {p} o =
      Ends-if (token.token_type is_token anchor_token) _ _ p
        (λ _.
          Ends-bind (read_property true (with_anchor token) (no_properties token) token) _ p
            (read_property-Over true (with_anchor token) (no_properties token) token o)
            (λ r q x.
              read_property-Over (r.1.token_type is_token tag_token) (with_tag r.1) r.0 r.1 x))
        (λ _.
          Ends-if (token.token_type is_token tag_token) _ _ p
            (λ _.
              Ends-bind (read_property true (with_tag token) (no_properties token) token) _ p
                (read_property-Over true (with_tag token) (no_properties token) token o)
                (λ r q x.
                  read_property-Over (r.1.token_type is_token anchor_token) (with_anchor r.1) r.0
                    r.1 x))
            (λ _. returns o))

  resolve_tag-Over :
      (props : Properties) {p : Parser}
      → Over s K ms p
      → Ends (λ _. Over s K ms) (resolve_tag props p)
  unfolding resolve_tag fail_at
  resolve_tag-Over props {p} o =
      Ends-if (not props.has_tag) _ _ p (λ _. returns o)
        (λ _.
          Ends-if
            (not (is_empty props.tag_handle)
              && is_empty (expand_tag props.tag_handle props.tag_suffix p.tag_directives))
            _ _ p (λ _. raises) (λ _. returns o))

-- The end of a node: its event has type `t`, and the parser returns to the state on top of its stack,
-- or it enters the state of the collection that the event starts.
module _ {s : ParserState} {K : List ParserState} {ms : List Position} (b : Below K ms) where
  entered :
      {t : ParserState} (u : Unmarked t) {p : Parser}
      → Over s K ms p
      → Ready (own t ++ below K) (record p { state = t })
  entered {t} u o = record {
    next_state = t;
    next_states = K;
    next_marks = ms;
    over = Over-set t o;
    valid = unmarked u b;
    stands = refl;
  }

  parse_alias-Follows :
      (token : YamlToken) {p : Parser}
      → Over s K ms p
      → Ends (Follows (node ∷ below K)) (parse_alias token p)
  unfolding parse_alias
  parse_alias-Follows token {p} o = Ends-bind pop_state _ p (pop_state-Ready b o) (λ _ q r.
      comments_skip-Follows
        (record (bare_event alias token.start_mark token.end_mark) { anchor = token.value }) refl r)

  module _ (props : Properties) (tag : Bytes) (token : YamlToken) {p : Parser}
      (o : Over s K ms p) where
    parse_scalar-Follows : Ends (Follows (node ∷ below K)) (parse_scalar props tag token p)
    unfolding parse_scalar scalar_event
    parse_scalar-Follows =
        Ends-bind pop_state _ p (pop_state-Ready b o)
          (λ _ q r. comments_skip-Follows (scalar_event props tag token) refl r)

    parse_empty_node-Follows : Ends (Follows (node ∷ below K)) (parse_empty_node props tag token p)
    unfolding parse_empty_node fail_at
    parse_empty_node-Follows =
        Ends-if (not (is_empty props.anchor) || not (is_empty tag)) _ _ p
          (λ _.
            Ends-bind pop_state _ p (pop_state-Ready b o)
              (λ _ q r. returns (Ready-Follows _ refl r)))
          (λ _. raises)

    module _ (t : ParserState) (u : Unmarked t) (type : EventType) (style : ℕ)
        (e : accept_node type (below K) ≡ some (own t ++ below K)) where
      parse_flow_start-Follows :
          Ends (Follows (node ∷ below K)) (parse_flow_start type style t props tag token p)
      unfolding parse_flow_start
      parse_flow_start-Follows =
          set_event_comments-Follows (start_event type style props tag token) e (entered u o)

      parse_block_start-Follows :
          Ends (Follows (node ∷ below K)) (parse_block_start type style t props tag token p)
      unfolding parse_block_start take_stem
      parse_block_start-Follows = go p.stem_comment
        where
          go :
              (stem : Option Bytes)
              → Ends {E = Error} (Follows (node ∷ below K)) (elim stem [
                | none ↦ ok (start_event type style props tag token) (record p { state = t })
                | some c ↦
                    ok
                      (record (start_event type style props tag token) { head_comment = c })
                      (record p { state = t; stem_comment = none })
              ])
          go none = returns (Ready-Follows _ e (entered u o))
          go (some c) = returns (Ready-Follows _ e (entered u (Over-core refl o)))

    parse_content-Follows :
        (block indentless : Bool)
        → Ends (Follows (node ∷ below K)) (parse_content block indentless props tag token p)
    unfolding parse_content
    parse_content-Follows block indentless =
        Ends-if (indentless && token.token_type is_token block_entry_token) _ _ p
          (λ _. returns (
            Ready-Follows (start_event sequence_start block_sequence_style props tag token) refl
              (entered indentless_unmarked o)))
          (λ _.
            Ends-if (token.token_type is_token scalar_token) _ _ p (λ _. parse_scalar-Follows)
              (λ _.
                Ends-if (token.token_type is_token flow_sequence_start_token) _ _ p
                  (λ _.
                    parse_flow_start-Follows flow_sequence_first_entry_state flow_sequence_unmarked
                      sequence_start flow_sequence_style refl)
                  (λ _.
                    Ends-if (token.token_type is_token flow_mapping_start_token) _ _ p
                      (λ _.
                        parse_flow_start-Follows flow_mapping_first_key_state flow_mapping_unmarked
                          mapping_start flow_mapping_style refl)
                      (λ _.
                        Ends-if (block && token.token_type is_token block_sequence_start_token) _ _
                          p
                          (λ _.
                            parse_block_start-Follows block_sequence_first_entry_state
                              block_sequence_unmarked sequence_start block_sequence_style refl)
                          (λ _.
                            Ends-if (block && token.token_type is_token block_mapping_start_token) _
                              _ p
                              (λ _.
                                parse_block_start-Follows block_mapping_first_key_state
                                  block_mapping_unmarked mapping_start block_mapping_style refl)
                              (λ _. parse_empty_node-Follows))))))

  pub parse_node-Follows :
      (block indentless : Bool) {p : Parser}
      → At s K ms p
      → Ends (Follows (node ∷ below K)) (parse_node block indentless p)
  unfolding parse_node
  parse_node-Follows block indentless {p} a =
      Ends-bind peek_token _ p (peek_token-Over a) (λ token q o.
        Ends-if (token.token_type is_token alias_token) _ _ q (λ _. parse_alias-Follows token o)
          (λ _. Ends-bind (read_properties token) _ q (read_properties-Over token o) (λ r q' o'.
            Ends-bind (resolve_tag r.0) _ q' (resolve_tag-Over r.0 o')
              (λ tag q'' o''. parse_content-Follows r.0 tag r.1 o'' block indentless))))
