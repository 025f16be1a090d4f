-- ===== src/Parser/Trace.antt =====
-- Sequences of calls of Parse, as its callers make them, and what they return together.
use yaml.Common.{
  ◌≡◌, ◌≢◌, refl, ap, sym, ◌∙◌, subst, Bool, false, ◌||◌, Option, none, some, List, [], ◌∷◌, ◌++◌,
  append-nil, Bool-cases, inl, inr,
}
use yaml.Event.{
  stream_start, stream_end, document_end, scalar, sequence_end, mapping_end, Event, EventType,
  Position,
}
use yaml.Run.{ok, Ends, returns, Ends-map}
use yaml.Parser.State.{Parser, ParserState, Error, Delivery, new, end_state}
use yaml.Parser.Grammar.{
  Goal, documents, document_closing, node, items, pairs, whole_stream, accept, own, below,
}
use yaml.Parser.Stack.{
  block_node_unmarked, block_sequence_marked, Valid, Unmarked, Marked, content, unmarked, marked,
  top, stream_start_top, Follows,
}
use yaml.Parser.Machine.{is_end, parse}
use yaml.Parser.Phrase.{
  accept_all-Phrase, stream, no_documents, closing, scalar_node, no_items, no_pairs, Phrase,
  Phrases, nothing, phrase_first, accept_all, accept_all-Phrases,
}
use yaml.Parser.Follow.Machine.{Sound, expected, parse-Follows}

-- Whether Parse returns no event any more.
abbrev pub is_over : Parser → Bool
is_over p = p.stream_end_produced || is_end p.state

-- Calls of Parse that all return an event, the first event first.
pub data Parses : Parser → List Event → Parser → Type 0 where
  no_call : {p : Parser} → Parses p [] p
  call :
      {p q r : Parser} {event : Event} {events : List Event}
      → is_over p ≡ false
      → parse p ≡ ok event q
      → Parses q events r
      → Parses p (event ∷ events) r

abbrev pub types : List Event → List EventType
types [] = []
types (event ∷ events) = event.event_type ∷ types events

new-Sound : (ds : List Delivery) → Sound (new ds)
new-Sound ds = record {
  at = record { state = refl; states = refl; marks = refl; tail = refl; available = λ h. cc };
  valid = top stream_start_top;
}

returned :
    {gs : List Goal} {event : Event} {p : Parser}
    → Ends {E = Error} (Follows gs) (ok event p)
    → Follows gs event p
returned (returns f) = f

Follows-Sound : {gs : List Goal} {event : Event} {p : Parser} → Follows gs event p → Sound p
Follows-Sound f = record {
  at = record {
    state = refl;
    states = refl;
    marks = refl;
    tail = f.at.tail;
    available = f.at.available;
  };
  valid = rw f.at.state (rw f.at.states (rw f.at.marks f.valid));
}

accepted_first :
    {gs : List Goal} {event : Event} {p : Parser}
    → Follows gs event p
    → accept gs event.event_type ≡ some (expected p)
accepted_first f = rw f.at.state (rw f.at.states f.accepted)

-- One call: the event that it returns is accepted, and the stacks stay valid.
parse-accepted :
    {p q : Parser} {event : Event}
    → Sound p
    → is_over p ≡ false
    → parse p ≡ ok event q
    → Follows (expected p) event q
parse-accepted {p} v e h = returned (subst (Ends (Follows (expected p))) h (parse-Follows p v e))

Parses-Sound : {p q : Parser} {events : List Event} → Parses p events q → Sound p → Sound q
Parses-Sound no_call v = v
Parses-Sound (call e h rest) v = Parses-Sound rest (Follows-Sound (parse-accepted v e h))

accept_all-next :
    (gs : List Goal) {gs' : List Goal} (t : EventType) (ts : List EventType)
    → accept gs t ≡ some gs'
    → accept_all gs (t ∷ ts) ≡ accept_all gs' ts
accept_all-next gs {gs'} t ts e =
    ap (λ (r : Option (List Goal)). elim r [ none ↦ none | some gs ↦ accept_all gs ts ])
      {y = some gs'} e

Parses-accept_all :
    {p q : Parser} {events : List Event}
    → Parses p events q
    → Sound p
    → accept_all (expected p) (types events) ≡ some (expected q)
Parses-accept_all no_call v = refl
Parses-accept_all (call e h rest) v =
    let f = parse-accepted v e h in
    accept_all-next _ _ _ (accepted_first f) ∙ Parses-accept_all rest (Follows-Sound f)

-- However many calls of Parse have returned an event, whatever the scanner delivers, the next call
-- returns an event, and leaves valid stacks, or it returns an error, of the state behind which nothing
-- is said: it neither panics nor runs out of the fuel of its loops.
pub parse-Ends :
    (ds : List Delivery) {p : Parser} {events : List Event}
    → Parses (new ds) events p
    → Ends (λ _. Sound) (parse p)
unfolding parse
parse-Ends ds {p} run = elim (Bool-cases (is_over p)) [
  | inl over ↦ rw over (returns (Parses-Sound run (new-Sound ds)))
  | inr go ↦
      Ends-map (λ event q f. Follows-Sound f) (parse-Follows p (Parses-Sound run (new-Sound ds)) go)
]

-- The types of the events that a parser has returned are a prefix that the grammar of events accepts,
-- and what the grammar expects behind them is what the parser's state and its stack of states stand
-- for.
pub Parses-accepted :
    (ds : List Delivery) {p : Parser} {events : List Event}
    → Parses (new ds) events p
    → accept_all (whole_stream ∷ []) (types events) ≡ some (expected p)
Parses-accepted ds run = Parses-accept_all run (new-Sound ds)

Unmarked-end : {s : ParserState} → Unmarked s → s ≢ end_state
Unmarked-end block_node_unmarked e = cc
Unmarked-end _ e = cc

Marked-end : {s : ParserState} → Marked s → s ≢ end_state
Marked-end block_sequence_marked e = cc
Marked-end _ e = cc

end-expected :
    {s : ParserState} {K : List ParserState} {ms : List Position}
    → Valid s K ms
    → s ≡ end_state
    → own s ++ below K ≡ []
end-expected (top t) e = rw e refl
end-expected content e = cc
end-expected (unmarked u b) e = absurd (Unmarked-end u e)
end-expected (marked m b) e = absurd (Marked-end m e)

pub Phrase-alone : {g : Goal} {ts : List EventType} → Phrases (g ∷ []) ts → Phrase g ts
Phrase-alone {g} (phrase_first {ts} q nothing) = subst (Phrase g) (sym (append-nil ts)) q

-- When calls of Parse on what a scanner delivers have led to the state END, the types of their events
-- are a stream as the productions derive it: balanced, with a node for every key and value and one for
-- every document, and without any other event, such as a tail comment.
pub stream-Phrase :
    (ds : List Delivery) {p : Parser} {events : List Event}
    → Parses (new ds) events p
    → p.state ≡ end_state
    → Phrase whole_stream (types events)
stream-Phrase ds {p} {events} run e = Phrase-alone (
    accept_all-Phrases (whole_stream ∷ []) (types events)
      (Parses-accepted ds run ∙ ap some (end-expected (Parses-Sound run (new-Sound ds)).valid e)))

-- The shortest events of a goal.
short : Goal → List EventType
short whole_stream = stream_start ∷ stream_end ∷ []
short documents = stream_end ∷ []
short document_closing = document_end ∷ []
short node = scalar ∷ []
short items = sequence_end ∷ []
short pairs = mapping_end ∷ []

short-Phrase : (g : Goal) → Phrase g (short g)
unfolding short
short-Phrase whole_stream = stream no_documents
short-Phrase documents = no_documents
short-Phrase document_closing = closing
short-Phrase node = scalar_node
short-Phrase items = no_items
short-Phrase pairs = no_pairs

completed : List Goal → List EventType
completed [] = []
completed (g ∷ gs) = short g ++ completed gs

accept_all-completed : (gs : List Goal) → accept_all gs (completed gs) ≡ some []
unfolding completed
accept_all-completed [] = refl
accept_all-completed (g ∷ gs) =
    accept_all-Phrase gs (completed gs) (short-Phrase g) ∙ accept_all-completed gs

behind :
    (r : Option (List Goal)) {gs' : List Goal} (ts us : List EventType)
    → ((k : List Goal) → accept_all k ts ≡ some gs' → accept_all k (ts ++ us) ≡ accept_all gs' us)
    → elim r [ none ↦ none | some k ↦ accept_all k ts ] ≡ some gs'
    → elim r [ none ↦ none | some k ↦ accept_all k (ts ++ us) ] ≡ accept_all gs' us
behind none ts us f e = cc
behind (some k) ts us f e = f k e

pub accept_all-append :
    (gs : List Goal) {gs' : List Goal} (ts us : List EventType)
    → accept_all gs ts ≡ some gs'
    → accept_all gs (ts ++ us) ≡ accept_all gs' us
accept_all-append gs [] us e =
    ap (λ (r : Option (List Goal)). elim r [ none ↦ none | some k ↦ accept_all k us ]) {x = some gs}
      e
accept_all-append gs {gs'} (t ∷ ts) us e =
    behind (accept gs t) ts us (λ k. accept_all-append k ts us) e

-- The types of the events that calls of Parse have returned, in any number, are the beginning of some
-- stream that the productions derive.
pub Parses-begins :
    (ds : List Delivery) {p : Parser} {events : List Event}
    → Parses (new ds) events p
    → (rest : List EventType) × Phrase whole_stream (types events ++ rest)
Parses-begins ds {p} {events} run = (
  completed (expected p),
  Phrase-alone (
      accept_all-Phrases (whole_stream ∷ []) _ (
        accept_all-append (whole_stream ∷ []) (types events) (completed (expected p))
          (Parses-accepted ds run)
        ∙ accept_all-completed (expected p))),
)
