-- ===== src/Parser/Follow/Block.antt =====
-- The handlers of block collections end with an event of an item or a pair, or with the end of the
-- collection.
use yaml.Common.{
  ◌≡◌, ◌≢◌, refl, Bool, true, false, not, List, [], ◌∷◌, ◌++◌, Bytes, codes, length, is_empty,
  arith,
}
use yaml.Event.{Position, bare_event, sequence_end, mapping_end}
use yaml.Token.{
  YamlToken, TokenType, ◌is_token◌, block_entry_token, block_end_token, key_token, value_token,
}
use yaml.Run.{Ends, returns, Ends-bind, Ends-map, Ends-if}
use yaml.Parser.State.{Parser, ParserState, pop_state, block_mapping_key_state}
use yaml.Parser.Tokens.{peek_token, skip_token, next_token, split_stem_comment}
use yaml.Parser.Block.{
  enter, leave, one_of_types, block_entry, parse_block_sequence_entry,
  parse_indentless_sequence_entry, block_half, parse_block_mapping_key, parse_block_mapping_value,
}
use yaml.Parser.Grammar.{node, items, pairs, own, below}
use yaml.Parser.Stack.{
  At, Below, Valid, marked_below, indentless_below, marked, unmarked, block_sequence_marked,
  block_key_marked, block_value_marked, indentless_unmarked, Follows,
}
use yaml.Parser.Steps.{Over, peek_token-Over, skip_token-Skipped, next_token-Over}
use yaml.Parser.Moves.{Over-set, pop_state-Ready, leave-Ready, fail_in-Ends}
use yaml.Parser.Follow.Ready.{
  node-Item, node-Pair, Ready-Follows, skip_token-Follows, comments_skip-Follows,
}
use yaml.Parser.Follow.Entry.{
  split_stem_comment-At, node_or_empty-Follows, empty-Follows, Opening, enter-Inside,
}

no_tail : (tail : Bytes) → tail ≡ [] → not (is_empty tail) ≢ true
no_tail [] e h = cc
no_tail (c ∷ tail) e h = cc

module _ {s t : ParserState} {K : List ParserState} {ms : List Position} (b : Below (t ∷ K) ms)
    (v : Valid t K ms) (token : YamlToken) {p : Parser} (o : Over s K ms p) where
  block_entry-Follows :
      (empties : List TokenType)
      → Ends (Follows (node ∷ own t ++ below K)) (block_entry empties t token p)
  unfolding block_entry
  block_entry-Follows empties = Ends-bind skip_token _ p (skip_token-Skipped o) (λ _ q x.
      Ends-bind (split_stem_comment (length p.head_comment)) _ q
        (split_stem_comment-At (length p.head_comment) (rw x.head (omega arith)) x.at)
        (λ _ q' a. Ends-bind peek_token _ q' (peek_token-Over a) (λ token' q'' o'.
          node_or_empty-Follows b v (not (one_of_types empties token')) true false token.end_mark
            o')))

  block_half-Follows : Ends (Follows (node ∷ own t ++ below K)) (block_half t token p)
  unfolding block_half
  block_half-Follows = Ends-bind next_token _ p (next_token-Over o) (λ token' q o'.
      node_or_empty-Follows b v
        (not (one_of_types (key_token ∷ value_token ∷ block_end_token ∷ []) token')) true true
        token.end_mark o')

module _ {K : List ParserState} {ms : List Position} (b : Below K ms) where
  pub parse_block_sequence_entry-Follows :
      (first : Bool) {p : Parser}
      → Opening K ms first p
      → Ends (Follows (items ∷ below K)) (parse_block_sequence_entry first p)
  unfolding parse_block_sequence_entry
  parse_block_sequence_entry-Follows first {p} x =
      Ends-bind (enter first) _ p (enter-Inside x) (λ _ q i.
        Ends-bind peek_token _ q (peek_token-Over i.at) (λ token q' o.
          Ends-if (token.token_type is_token block_entry_token) _ _ q'
            (λ _. Ends-map node-Item (
              block_entry-Follows (marked_below block_sequence_marked b)
                (marked block_sequence_marked b) token o
                (block_entry_token ∷ block_end_token ∷ [])))
            (λ _.
              Ends-if (token.token_type is_token block_end_token) _ _ q'
                (λ _. Ends-bind leave _ q' (leave-Ready b o) (λ _ r y.
                  skip_token-Follows (bare_event sequence_end token.start_mark token.end_mark) refl
                    y))
                (λ _. fail_in-Ends (codes "did not find expected '-' indicator") token o))))

  pub parse_indentless_sequence_entry-Follows :
      {s : ParserState} {p : Parser}
      → At s K ms p
      → Ends (Follows (items ∷ below K)) (parse_indentless_sequence_entry p)
  unfolding parse_indentless_sequence_entry
  parse_indentless_sequence_entry-Follows {s} {p} a =
      Ends-bind peek_token _ p (peek_token-Over a) (λ token q o.
        Ends-if (token.token_type is_token block_entry_token) _ _ q
          (λ _. Ends-map node-Item (
            block_entry-Follows (indentless_below b) (unmarked indentless_unmarked b) token o
              (block_entry_token ∷ key_token ∷ value_token ∷ block_end_token ∷ [])))
          (λ _. Ends-bind pop_state _ q (pop_state-Ready b o) (λ _ r y.
            returns
              (Ready-Follows (bare_event sequence_end token.start_mark token.start_mark) refl y))))

  pub parse_block_mapping_key-Follows :
      (first : Bool) {p : Parser}
      → Opening K ms first p
      → Ends (Follows (pairs ∷ below K)) (parse_block_mapping_key first p)
  unfolding parse_block_mapping_key
  parse_block_mapping_key-Follows first {p} x =
      Ends-bind (enter first) _ p (enter-Inside x) (λ _ q i.
        Ends-bind peek_token _ q (peek_token-Over i.at) (λ token q' o.
          Ends-if (not (is_empty q'.tail_comment)) _ _ q'
            (λ h. absurd (no_tail q'.tail_comment o.at.tail h))
            (λ _.
              Ends-if (token.token_type is_token key_token) _ _ q'
                (λ _. Ends-map node-Pair (
                  block_half-Follows (marked_below block_value_marked b)
                    (marked block_value_marked b) token o))
                (λ _.
                  Ends-if (token.token_type is_token block_end_token) _ _ q'
                    (λ _. Ends-bind leave _ q' (leave-Ready b o) (λ _ r y.
                      comments_skip-Follows (bare_event mapping_end token.start_mark token.end_mark)
                        refl y))
                    (λ _. fail_in-Ends (codes "did not find expected key") token o)))))

  pub parse_block_mapping_value-Follows :
      {s : ParserState} {m : Position} {p : Parser}
      → At s K (m ∷ ms) p
      → Ends (Follows (node ∷ pairs ∷ below K)) (parse_block_mapping_value p)
  unfolding parse_block_mapping_value
  parse_block_mapping_value-Follows {s} {m} {p} a =
      Ends-bind peek_token _ p (peek_token-Over a) (λ token q o.
        Ends-if (token.token_type is_token value_token) _ _ q
          (λ _.
            block_half-Follows (marked_below block_key_marked b) (marked block_key_marked b) token
              o)
          (λ _. returns (
            empty-Follows (marked block_key_marked b) token.start_mark
              (Over-set block_mapping_key_state o).at)))
