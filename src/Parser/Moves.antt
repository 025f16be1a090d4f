-- ===== src/Parser/Moves.antt =====
-- What the moves between states do to the parser's stacks.
use yaml.Common.{◌≡◌, refl, ap, true, List, ◌∷◌, ◌++◌, Bytes}
use yaml.Event.{Event, Position}
use yaml.Token.{YamlToken}
use yaml.Run.{ok, ◌>>=◌, ◌>>◌, Ends, returns, raises, Ends-bind, Ends-map}
use yaml.Parser.State.{Parser, ParserState, fail_at, pop_state, push_mark, pop_mark}
use yaml.Parser.Tokens.{peek_token, skip_token}
use yaml.Parser.Block.{enter, leave, fail_in}
use yaml.Parser.Grammar.{Goal, own, below}
use yaml.Parser.Stack.{
  At, Below, document_below, marked_below, indentless_below, Valid, top, unmarked, marked,
  document_end_top, indentless_unmarked,
}
use yaml.Parser.Steps.{Over, peek_token-Over, skip_token-At}

-- A parser with valid stacks that stand for the goals.
pub record Ready (gs : List Goal) (p : Parser) : Type 0 where
  pub next_state : ParserState
  pub next_states : List ParserState
  pub next_marks : List Position
  pub over : Over next_state next_states next_marks p
  pub valid : Valid next_state next_states next_marks
  pub stands : own next_state ++ below next_states ≡ gs

module _ {s : ParserState} {K : List ParserState} {ms : List Position} where
  pub At-set : {p : Parser} (t : ParserState) → At s K ms p → At t K ms (record p { state = t })
  At-set t a = record {
    state = refl;
    states = a.states;
    marks = a.marks;
    tail = a.tail;
    available = a.available;
  }

  pub Over-set :
      {p : Parser} (t : ParserState) → Over s K ms p → Over t K ms (record p { state = t })
  Over-set t o = record { at = At-set t o.at; there = o.there }

  pub Over-push :
      {p : Parser} (t : ParserState)
      → Over s K ms p
      → Over s (t ∷ K) ms (record p { states = t ∷ p.states })
  Over-push t o = record {
    at = record {
      state = o.at.state;
      states = ap (λ k. t ∷ k) o.at.states;
      marks = o.at.marks;
      tail = o.at.tail;
      available = o.at.available;
    };
    there = o.there;
  }

  Over-mark :
      {p : Parser} (m : Position)
      → Over s K ms p
      → Over s K (m ∷ ms) (record p { marks = m ∷ p.marks })
  Over-mark m o = record {
    at = record {
      state = o.at.state;
      states = o.at.states;
      marks = ap (λ k. m ∷ k) o.at.marks;
      tail = o.at.tail;
      available = o.at.available;
    };
    there = o.there;
  }

pop_state-Over :
    {s t : ParserState} {K : List ParserState} {ms : List Position} {p : Parser}
    → Over s (t ∷ K) ms p
    → Ends (λ _. Over t K ms) (pop_state p)
unfolding pop_state
pop_state-Over {p} o = rw o.at.states (
    returns (record {
      at = record {
        state = refl;
        states = refl;
        marks = o.at.marks;
        tail = o.at.tail;
        available = o.at.available;
      };
      there = o.there;
    }))

pop_mark-Over :
    {s : ParserState} {m : Position} {K : List ParserState} {ms : List Position} {p : Parser}
    → Over s K (m ∷ ms) p
    → Ends (λ _. Over s K ms) (pop_mark p)
unfolding pop_mark
pop_mark-Over {p} o = rw o.at.marks (
    returns (record {
      at = record {
        state = o.at.state;
        states = o.at.states;
        marks = refl;
        tail = o.at.tail;
        available = o.at.available;
      };
      there = o.there;
    }))

-- The state on top of the stack, with the rest of the stacks, is valid.
data Resumes : List ParserState → List Position → Type 0 where
  resumes :
      {t : ParserState} {K : List ParserState} {ms : List Position}
      → Valid t K ms
      → Resumes (t ∷ K) ms

Below-Resumes : {K : List ParserState} {ms : List Position} → Below K ms → Resumes K ms
Below-Resumes document_below = resumes (top document_end_top)
Below-Resumes (marked_below m b) = resumes (marked m b)
Below-Resumes (indentless_below b) = resumes (unmarked indentless_unmarked b)

resumed :
    {t : ParserState} {K : List ParserState} {ms : List Position} {p : Parser}
    → Valid t K ms
    → Over t K ms p
    → Ready (own t ++ below K) p
resumed {t} {K} {ms} v o = record {
  next_state = t;
  next_states = K;
  next_marks = ms;
  over = o;
  valid = v;
  stands = refl;
}

module _ {s : ParserState} {K : List ParserState} {ms : List Position} where
  -- The parser returns to the state on top of its stack.
  pub pop_state-Ready :
      {p : Parser} → Below K ms → Over s K ms p → Ends (λ _. Ready (below K)) (pop_state p)
  pop_state-Ready {p} b o = go (Below-Resumes b) o
    where
      go :
          {K : List ParserState}
          → Resumes K ms
          → Over s K ms p
          → Ends (λ _. Ready (below K)) (pop_state p)
      go (resumes v) o = Ends-map (λ _ q x. resumed v x) (pop_state-Over o)

  pub leave-Ready :
      {m : Position} {p : Parser}
      → Below K ms
      → Over s K (m ∷ ms) p
      → Ends (λ _. Ready (below K)) (leave p)
  unfolding leave
  leave-Ready {m} {p} b o = go (Below-Resumes b) o
    where
      go :
          {K : List ParserState}
          → Resumes K ms
          → Over s K (m ∷ ms) p
          → Ends (λ _. Ready (below K)) (leave p)
      go (resumes v) o =
          Ends-bind pop_state (λ _. pop_mark >>= λ _ q. ok tt q) p (pop_state-Over o)
            (λ _ q x.
              Ends-bind pop_mark (λ _ q. ok tt q) q (pop_mark-Over x)
                (λ _ r y. returns (resumed v y)))

  pub fail_in-Ends :
      {Q : Event → Parser → Type 0} {m : Position} (problem : Bytes) (token : YamlToken)
      {p : Parser}
      → Over s K (m ∷ ms) p
      → Ends Q (fail_in problem token p)
  unfolding fail_in fail_at
  fail_in-Ends problem token {p} o =
      Ends-bind pop_mark (λ context. fail_at problem token.start_mark.line context.line) p
        (pop_mark-Over o) (λ _ q x. raises)

  pub enter-At :
      {p : Parser} → At s K ms p → Ends (λ _ q. (m : Position) × At s K (m ∷ ms) q) (enter true p)
  unfolding enter
  enter-At {p} a =
      Ends-bind peek_token (λ token. push_mark token.start_mark >> skip_token) p (peek_token-Over a)
        (λ t q o. Ends-map (λ _ r x. (t.start_mark, x)) (skip_token-At (Over-mark t.start_mark o)))
