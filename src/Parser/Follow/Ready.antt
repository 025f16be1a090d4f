-- ===== src/Parser/Follow/Ready.antt =====
-- How a handler comes to its event.
use yaml.Common.{◌≡◌, ap, ◌∙◌, sym, some, List, ◌∷◌, ◌++◌}
use yaml.Event.{
  Event, EventType, no_event, stream_start, stream_end, document_start, document_end, alias, scalar,
  sequence_start, sequence_end, mapping_start, mapping_end, tail_comment_event, Position,
}
use yaml.Run.{◌>>=◌, ◌>>◌, pure, Ends, returns, Ends-bind, Ends-map}
use yaml.Parser.State.{Parser, ParserState}
use yaml.Parser.Tokens.{skip_token, set_event_comments}
use yaml.Parser.Grammar.{Goal, node, items, pairs, accept, own, below}
use yaml.Parser.Stack.{At, Valid, Follows}
use yaml.Parser.Steps.{skip_token-At, set_event_comments-Over}
use yaml.Parser.Moves.{Ready}

-- Parsers with the goals, and with these stacks.
module _ {s : ParserState} {K : List ParserState} {ms : List Position} where
  pub At-Follows :
      {gs : List Goal} {event : Event} {p : Parser}
      → Valid s K ms
      → accept gs event.event_type ≡ some (own s ++ below K)
      → At s K ms p
      → Follows gs event p
  At-Follows v e a = record {
    next_state = s;
    next_states = K;
    next_marks = ms;
    at = a;
    valid = v;
    accepted = e;
  }

module _ {gs behind : List Goal} (event : Event) (e : accept gs event.event_type ≡ some behind)
    {p : Parser} (r : Ready behind p) where
  pub Ready-Follows : Follows gs event p
  Ready-Follows = At-Follows r.valid (e ∙ ap some (sym r.stands)) r.over.at

  -- The last token of the event is taken.
  pub skip_token-Follows : Ends (Follows gs) ((skip_token >> pure event) p)
  skip_token-Follows =
      Ends-bind skip_token (λ _. pure event) p (skip_token-At r.over)
        (λ _ q a. returns (At-Follows r.valid (e ∙ ap some (sym r.stands)) a))

  pub set_event_comments-Follows : Ends (Follows gs) (set_event_comments event p)
  set_event_comments-Follows =
      Ends-map
        (λ f q (t, o). At-Follows r.valid (ap (accept gs) t ∙ e ∙ ap some (sym r.stands)) o.at)
        (set_event_comments-Over event r.over)

  -- The event takes the comments, and its last token is taken.
  pub comments_skip-Follows :
      Ends (Follows gs) ((set_event_comments event >>= λ f. skip_token >> pure f) p)
  comments_skip-Follows =
      Ends-bind (set_event_comments event) (λ f. skip_token >> pure f) p
        (set_event_comments-Over event r.over)
        (λ f q (t, o).
          Ends-bind skip_token (λ _. pure f) q (skip_token-At o)
            (λ _ q' a.
              returns (At-Follows r.valid (ap (accept gs) t ∙ e ∙ ap some (sym r.stands)) a)))

module _ (gs : List Goal) {behind : List Goal} where
  item_accepted :
      (t : EventType)
      → accept (node ∷ items ∷ gs) t ≡ some behind
      → accept (items ∷ gs) t ≡ some behind
  item_accepted no_event e = cc
  item_accepted stream_start e = cc
  item_accepted stream_end e = cc
  item_accepted document_start e = cc
  item_accepted document_end e = cc
  item_accepted alias e = e
  item_accepted scalar e = e
  item_accepted sequence_start e = e
  item_accepted sequence_end e = cc
  item_accepted mapping_start e = e
  item_accepted mapping_end e = cc
  item_accepted tail_comment_event e = cc

  pair_accepted :
      (t : EventType)
      → accept (node ∷ node ∷ pairs ∷ gs) t ≡ some behind
      → accept (pairs ∷ gs) t ≡ some behind
  pair_accepted no_event e = cc
  pair_accepted stream_start e = cc
  pair_accepted stream_end e = cc
  pair_accepted document_start e = cc
  pair_accepted document_end e = cc
  pair_accepted alias e = e
  pair_accepted scalar e = e
  pair_accepted sequence_start e = e
  pair_accepted sequence_end e = cc
  pair_accepted mapping_start e = e
  pair_accepted mapping_end e = cc
  pair_accepted tail_comment_event e = cc

-- A node may begin an item, and a pair.
pub node-Item :
    {gs : List Goal} (event : Event) (p : Parser)
    → Follows (node ∷ items ∷ gs) event p
    → Follows (items ∷ gs) event p
node-Item {gs} event p f = At-Follows f.valid (item_accepted gs event.event_type f.accepted) f.at

pub node-Pair :
    {gs : List Goal} (event : Event) (p : Parser)
    → Follows (node ∷ node ∷ pairs ∷ gs) event p
    → Follows (pairs ∷ gs) event p
node-Pair {gs} event p f = At-Follows f.valid (pair_accepted gs event.event_type f.accepted) f.at
