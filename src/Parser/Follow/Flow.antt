-- ===== src/Parser/Follow/Flow.antt =====
-- The handlers of flow collections end with an event of an item or a pair, or with the end of the
-- collection.
use yaml.Common.{◌≡◌, refl, Bool, true, false, not, some, List, [], ◌∷◌, ◌++◌, Bytes, codes}
use yaml.Event.{Event, EventType, Position, bare_event, sequence_end, mapping_end}
use yaml.Token.{
  YamlToken, TokenType, ◌is_token◌, flow_sequence_end_token, flow_mapping_end_token,
  flow_entry_token, key_token, value_token,
}
use yaml.Run.{Ends, returns, Ends-bind, Ends-map, Ends-if}
use yaml.Parser.State.{
  Parser, ParserState, M, flow_sequence_entry_state, flow_sequence_entry_mapping_key_state,
  flow_sequence_entry_mapping_value_state, flow_mapping_key_state,
}
use yaml.Parser.Tokens.{peek_token, skip_token, next_token}
use yaml.Parser.Block.{enter, leave, one_of_types}
use yaml.Parser.Flow.{
  flow_separator, flow_end, flow_node, flow_sequence_item, parse_flow_sequence_entry,
  parse_flow_sequence_entry_mapping_key, flow_value, parse_flow_sequence_entry_mapping_value,
  parse_flow_sequence_entry_mapping_end, flow_mapping_item, parse_flow_mapping_key,
  parse_flow_mapping_value,
}
use yaml.Parser.Grammar.{Goal, node, items, pairs, accept, own, below}
use yaml.Parser.Stack.{
  At, Below, Valid, marked_below, marked, flow_sequence_marked, entry_key_marked,
  entry_value_marked, entry_end_marked, flow_key_marked, flow_value_marked, flow_empty_marked,
  Follows,
}
use yaml.Parser.Steps.{Over, peek_token-Over, skip_token-At, next_token-Over}
use yaml.Parser.Moves.{At-set, Over-set, leave-Ready, fail_in-Ends}
use yaml.Parser.Follow.Ready.{node-Item, node-Pair, At-Follows, comments_skip-Follows}
use yaml.Parser.Follow.Entry.{
  parse_pushed-Follows, node_or_empty-Follows, empty-Follows, Opening, enter-Inside,
}

flow_separator-Ends :
    {Q : Event → Parser → Type 0} {s : ParserState} {K : List ParserState} {m : Position}
    {ms : List Position} (first : Bool) (problem : Bytes) (token : YamlToken)
    (entry : YamlToken → M Event) {p : Parser}
    → ((t : YamlToken) (q : Parser) → Over s K (m ∷ ms) q → Ends Q (entry t q))
    → Over s K (m ∷ ms) p
    → Ends Q (flow_separator first problem token entry p)
unfolding flow_separator
flow_separator-Ends true problem token entry {p} h o = h token p o
flow_separator-Ends false problem token entry {p} h o =
    Ends-if (token.token_type is_token flow_entry_token) _ _ p
      (λ _. Ends-bind next_token _ p (next_token-Over o) (λ t q x. h t q x))
      (λ _. fail_in-Ends problem token o)

flow_end-Follows :
    {gs : List Goal} {s : ParserState} {K : List ParserState} {m : Position} {ms : List Position}
    (type : EventType) (token : YamlToken) {p : Parser}
    → accept gs type ≡ some (below K)
    → Below K ms
    → Over s K (m ∷ ms) p
    → Ends (Follows gs) (flow_end type token p)
unfolding flow_end
flow_end-Follows type token {p} e b o =
    Ends-bind leave _ p (leave-Ready b o)
      (λ _ q r. comments_skip-Follows (bare_event type token.start_mark token.end_mark) e r)

module _ {s t : ParserState} {K : List ParserState} {ms : List Position} (b : Below (t ∷ K) ms)
    (v : Valid t K ms) {p : Parser} (a : At s K ms p) where
  flow_value-Follows :
      (empties : List TokenType) → Ends (Follows (node ∷ own t ++ below K)) (flow_value empties t p)
  unfolding flow_value
  flow_value-Follows empties = Ends-bind peek_token _ p (peek_token-Over a) (λ token q o.
      Ends-if (token.token_type is_token value_token) _ _ q
        (λ _. Ends-bind next_token _ q (next_token-Over o) (λ token' q' o'.
          node_or_empty-Follows b v (not (one_of_types empties token')) false false
            token'.start_mark o'))
        (λ _. returns (empty-Follows v token.start_mark (Over-set t o).at)))

module _ {K : List ParserState} {ms : List Position} (b : Below K ms) {s : ParserState}
    {m : Position} where
  flow_sequence_item-Follows :
      (token : YamlToken) (p : Parser)
      → Over s K (m ∷ ms) p
      → Ends (Follows (items ∷ below K)) (flow_sequence_item token p)
  unfolding flow_sequence_item flow_node
  flow_sequence_item-Follows token p o =
      Ends-if (token.token_type is_token key_token) _ _ p
        (λ _.
          Ends-bind skip_token _ (record p { state = flow_sequence_entry_mapping_key_state })
            (skip_token-At (Over-set flow_sequence_entry_mapping_key_state o))
            (λ _ q a. returns (At-Follows (marked entry_key_marked b) refl a)))
        (λ _.
          Ends-if (not (token.token_type is_token flow_sequence_end_token)) _ _ p
            (λ _. Ends-map node-Item (
              parse_pushed-Follows (marked_below flow_sequence_marked b)
                (marked flow_sequence_marked b) false false o))
            (λ _. flow_end-Follows sequence_end token refl b o))

  flow_mapping_item-Follows :
      (token : YamlToken) (p : Parser)
      → Over s K (m ∷ ms) p
      → Ends (Follows (pairs ∷ below K)) (flow_mapping_item token p)
  unfolding flow_mapping_item flow_node
  flow_mapping_item-Follows token p o =
      Ends-if (token.token_type is_token key_token) _ _ p
        (λ _. Ends-bind next_token _ p (next_token-Over o) (λ token' q o'. Ends-map node-Pair (
          node_or_empty-Follows (marked_below flow_value_marked b) (marked flow_value_marked b)
            (not
              (one_of_types (value_token ∷ flow_entry_token ∷ flow_mapping_end_token ∷ []) token'))
            false false token'.start_mark o')))
        (λ _.
          Ends-if (not (token.token_type is_token flow_mapping_end_token)) _ _ p
            (λ _. Ends-map node-Pair (
              parse_pushed-Follows (marked_below flow_empty_marked b) (marked flow_empty_marked b)
                false false o))
            (λ _. flow_end-Follows mapping_end token refl b o))

  pub parse_flow_sequence_entry_mapping_key-Follows :
      {p : Parser}
      → At s K (m ∷ ms) p
      → Ends (Follows (pairs ∷ items ∷ below K)) (parse_flow_sequence_entry_mapping_key p)
  unfolding parse_flow_sequence_entry_mapping_key flow_node
  parse_flow_sequence_entry_mapping_key-Follows {p} a =
      Ends-bind peek_token _ p (peek_token-Over a) (λ token q o.
        Ends-if
          (not (one_of_types (value_token ∷ flow_entry_token ∷ flow_sequence_end_token ∷ []) token))
          _ _ q
          (λ _. Ends-map node-Pair (
            parse_pushed-Follows (marked_below entry_value_marked b) (marked entry_value_marked b)
              false false o))
          (λ _. Ends-bind skip_token _ q (skip_token-At o) (λ _ q' x. returns (
            node-Pair _ _ (
              empty-Follows (marked entry_value_marked b) token.end_mark
                (At-set flow_sequence_entry_mapping_value_state x))))))

  pub parse_flow_sequence_entry_mapping_value-Follows :
      {p : Parser}
      → At s K (m ∷ ms) p
      → Ends (Follows (node ∷ pairs ∷ items ∷ below K)) (parse_flow_sequence_entry_mapping_value p)
  unfolding parse_flow_sequence_entry_mapping_value
  parse_flow_sequence_entry_mapping_value-Follows a =
      flow_value-Follows (marked_below entry_end_marked b) (marked entry_end_marked b) a
        (flow_entry_token ∷ flow_sequence_end_token ∷ [])

  pub parse_flow_sequence_entry_mapping_end-Follows :
      {p : Parser}
      → At s K (m ∷ ms) p
      → Ends (Follows (pairs ∷ items ∷ below K)) (parse_flow_sequence_entry_mapping_end p)
  unfolding parse_flow_sequence_entry_mapping_end
  parse_flow_sequence_entry_mapping_end-Follows {p} a =
      Ends-bind peek_token _ p (peek_token-Over a) (λ token q o.
        returns (
          At-Follows (marked flow_sequence_marked b) refl
            (Over-set flow_sequence_entry_state o).at))

  pub parse_flow_mapping_value-Follows :
      (empty : Bool) {p : Parser}
      → At s K (m ∷ ms) p
      → Ends (Follows (node ∷ pairs ∷ below K)) (parse_flow_mapping_value empty p)
  unfolding parse_flow_mapping_value
  parse_flow_mapping_value-Follows true {p} a =
      Ends-bind peek_token _ p (peek_token-Over a) (λ token q o. returns (
        empty-Follows (marked flow_key_marked b) token.start_mark
          (Over-set flow_mapping_key_state o).at))
  parse_flow_mapping_value-Follows false a =
      flow_value-Follows (marked_below flow_key_marked b) (marked flow_key_marked b) a
        (flow_entry_token ∷ flow_mapping_end_token ∷ [])

module _ {K : List ParserState} {ms : List Position} (b : Below K ms) (first : Bool) {p : Parser}
    (x : Opening K ms first p) where
  pub parse_flow_sequence_entry-Follows :
      Ends (Follows (items ∷ below K)) (parse_flow_sequence_entry first p)
  unfolding parse_flow_sequence_entry
  parse_flow_sequence_entry-Follows = Ends-bind (enter first) _ p (enter-Inside x) (λ _ q i.
      Ends-bind peek_token _ q (peek_token-Over i.at) (λ token q' o.
        Ends-if (not (token.token_type is_token flow_sequence_end_token)) _ _ q'
          (λ _.
            flow_separator-Ends first (codes "did not find expected ',' or ']'") token
              flow_sequence_item (flow_sequence_item-Follows b) o)
          (λ _. flow_end-Follows sequence_end token refl b o)))

  pub parse_flow_mapping_key-Follows :
      Ends (Follows (pairs ∷ below K)) (parse_flow_mapping_key first p)
  unfolding parse_flow_mapping_key
  parse_flow_mapping_key-Follows = Ends-bind (enter first) _ p (enter-Inside x) (λ _ q i.
      Ends-bind peek_token _ q (peek_token-Over i.at) (λ token q' o.
        Ends-if (not (token.token_type is_token flow_mapping_end_token)) _ _ q'
          (λ _.
            flow_separator-Ends first (codes "did not find expected ',' or '}'") token
              flow_mapping_item (flow_mapping_item-Follows b) o)
          (λ _. flow_end-Follows mapping_end token refl b o)))
