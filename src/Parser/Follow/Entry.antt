-- ===== src/Parser/Follow/Entry.antt =====
-- The steps that the entries of collections share, and the split of a stem comment, which stays
-- within the head comment.
use yaml.Common.{
  ℕ, ◌≤◌, ◌≡◌, refl, Bool, true, false, not, ◌||◌, some, List, ◌∷◌, ◌++◌, length, leb, ◌==◌, arith,
}
use yaml.Event.{Position}
use yaml.Token.{◌is_token◌, block_sequence_start_token, block_mapping_start_token}
use yaml.Run.{◌>>=◌, ◌>>◌, checked, modify, Ends, returns, Ends-bind, Ends-map, Ends-if}
use yaml.Parser.State.{Parser, ParserState, Error, push_state}
use yaml.Parser.Tokens.{peek_token, cut_head, split_stem_comment}
use yaml.Parser.Node.{empty_scalar, parse_node}
use yaml.Parser.Block.{enter, node_or_empty}
use yaml.Parser.Grammar.{node, own, below}
use yaml.Parser.Stack.{At, Below, Valid, Follows}
use yaml.Parser.Steps.{Over, Over-core, peek_token-Peeked}
use yaml.Parser.Moves.{Over-set, Over-push, enter-At}
use yaml.Parser.Follow.Ready.{At-Follows}
use yaml.Parser.Follow.Node.{parse_node-Follows}

module _ {t : ParserState} {K : List ParserState} {ms : List Position} (v : Valid t K ms) where
  pub empty-Follows :
      (mark : Position) {p : Parser}
      → At t K ms p
      → Follows (node ∷ own t ++ below K) (empty_scalar mark) p
  unfolding empty_scalar
  empty-Follows mark a = At-Follows v refl a

module _ {s : ParserState} {K : List ParserState} {ms : List Position} where
  cut_stem-Over :
      (n : ℕ) {q : Parser}
      → n ≤ length q.head_comment
      → Over s K ms q
      → Ends {E = Error}
          (λ _. Over s K ms)
          ((do
            (stem, head) ← checked (cut_head n q.head_comment)
            modify (λ p. record p { stem_comment = some stem; head_comment = head }))
            q)
  unfolding cut_head
  cut_stem-Over n {q} h o =
      let within : leb n (length q.head_comment) ≡ true = ground (arith, h) in
      rw within (returns (Over-core refl o))

  pub split_stem_comment-At :
      (n : ℕ) {p : Parser}
      → n ≤ length p.head_comment
      → At s K ms p
      → Ends (λ _. At s K ms) (split_stem_comment n p)
  unfolding split_stem_comment
  split_stem_comment-At n {p} h a =
      Ends-if (n == 0) _ _ p (λ _. returns a)
        (λ _. Ends-bind peek_token _ p (peek_token-Peeked a) (λ token q x.
          Ends-if
            (not (
              token.token_type is_token block_sequence_start_token
              || token.token_type is_token block_mapping_start_token))
            _ _ q (λ _. returns x.over.at)
            (λ _. Ends-map (λ _ r o. o.at) (cut_stem-Over n (omega (arith, h, x.grown)) x.over))))

  -- The first event of a node or an empty scalar, in a collection that goes on with the state `t`.
  module _ {t : ParserState} (b : Below (t ∷ K) ms) (v : Valid t K ms) where
    pub parse_pushed-Follows :
        (block indentless : Bool) {p : Parser}
        → Over s K ms p
        → Ends (Follows (node ∷ own t ++ below K)) ((push_state t >> parse_node block indentless) p)
    parse_pushed-Follows block indentless o =
        parse_node-Follows b block indentless (Over-push t o).at

    pub node_or_empty-Follows :
        (present block indentless : Bool) (mark : Position) {p : Parser}
        → Over s K ms p
        → Ends (Follows (node ∷ own t ++ below K)) (node_or_empty present block indentless t mark p)
    unfolding node_or_empty
    node_or_empty-Follows true block indentless mark o = parse_pushed-Follows block indentless o
    node_or_empty-Follows false block indentless mark o =
        returns (empty-Follows v mark (Over-set t o).at)

-- The parser is in a collection that has pushed its mark.
pub record Inside (K : List ParserState) (ms : List Position) (p : Parser) : Type 0 where
  pub state : ParserState
  pub mark : Position
  pub at : At state K (mark ∷ ms) p

-- A collection at its start token, or at a later entry.
pub data Opening (K : List ParserState) (ms : List Position) : Bool → Parser → Type 0 where
  opens : {s : ParserState} {p : Parser} → At s K ms p → Opening K ms true p
  continues :
      {s : ParserState} {m : Position} {p : Parser} → At s K (m ∷ ms) p → Opening K ms false p

pub enter-Inside :
    {K : List ParserState} {ms : List Position} {first : Bool} {p : Parser}
    → Opening K ms first p
    → Ends (λ _. Inside K ms) (enter first p)
unfolding enter
enter-Inside (opens a) =
    Ends-map (λ _ q (m, x). record { state = _; mark = m; at = x }) (enter-At a)
enter-Inside (continues a) = returns (record { state = _; mark = _; at = a })
