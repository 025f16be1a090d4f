-- ===== src/NodeParser/State.antt =====
-- The state of the type parser of decode.go, with the nodes that it makes, and its errors.
use yaml.Common.{
  ℕ, suc, Bool, true, false, not, Option, none, some, List, [], ◌∷◌, Bytes, bytes_eq, is_empty,
  ◌==◌, if◌then◌else◌,
}
use yaml.Event.{Event, EventType, ◌is_type◌, no_event, stream_end, stream_start, bare_event, origin}
use yaml.Run.{Outcome, ok, err, ◌>>=◌, ◌>>◌, pure, get, modify, fail, when}
use yaml.Node.{Node}
use yaml.Resolve.Tags.{Cache}

-- The nodes at their addresses.
abbrev pub Heap : Type 0
Heap = ℕ → Node

abbrev pub update : ℕ → (Node → Node) → Heap → Heap
update a f heap b = if b == a then f (heap b) else heap b

-- The parser below is the list of the events that it returns, behind which it returns an error. `next`
-- is the address of the next node that is made, and `shorts` the cache of ShortTag.
pub record NodeParser : Type 0 where
  pub events : List Event
  pub event : Event
  pub doc : Option ℕ
  pub anchors : List (Bytes × ℕ)
  pub done_init : Bool
  pub textless : Bool
  pub heap : Heap
  pub next : ℕ
  pub shorts : Cache

-- NewParserFromReader, over nodes and a cache that are there.
abbrev pub new : List Event → Heap → ℕ → Cache → NodeParser
new events heap next shorts = record {
  events = events;
  event = bare_event no_event origin origin;
  doc = none;
  anchors = [];
  done_init = false;
  textless = false;
  heap = heap;
  next = next;
  shorts = shorts;
}

-- An error of Parse, or of Resolve; the stream ended; an event of the second type in place of the
-- first; an unknown anchor.
pub data Error : Type 0 where
  parsing : Error
  resolving : Bytes → Error
  past_end : Error
  unexpected : EventType → EventType → Error
  unknown_anchor : Bytes → Error

abbrev pub M : Type 0 → Type 0
M A = NodeParser → Outcome NodeParser Error A

-- A call of the parser below, whose event becomes the current one.
unfoldable pub next_event : M (Unit {0})
next_event p = elim p.events [
  | [] ↦ err parsing p
  | e ∷ es ↦ ok tt (record p { event = e; events = es })
]

-- peek
unfoldable pub peek : M EventType
unfolding next_event
peek = do
  p ← get
  when (p.event.event_type is_type no_event) next_event
  q ← get
  pure q.event.event_type

-- expect
unfoldable pub expect : EventType → M (Unit {0})
unfolding next_event
expect type = do
  p ← get
  when (p.event.event_type is_type no_event) next_event
  q ← get
  if q.event.event_type is_type stream_end
      then fail past_end
      else if not (q.event.event_type is_type type)
      then fail (unexpected type q.event.event_type)
      else modify (λ q. record q { event = record q.event { event_type = no_event } })

-- init
unfoldable pub init : M (Unit {0})
unfolding expect
init = do
  p ← get
  if p.done_init then pure tt else (do
    modify (λ p. record p { anchors = [] })
    expect stream_start
    modify (λ p. record p { done_init = true }))

-- `&Node{…}`
unfoldable pub allocate : Node → M ℕ
allocate n p = ok p.next (record p { heap = update p.next (λ _. n) p.heap; next = suc p.next })

abbrev pub change : ℕ → (Node → Node) → M (Unit {0})
change a f p = ok tt (record p { heap = update a f p.heap })

abbrev pub load : ℕ → M Node
load a p = ok (p.heap a) p

-- The first entry is the last that was made.
unfoldable pub find_anchor : Bytes → List (Bytes × ℕ) → Option ℕ
find_anchor name [] = none
find_anchor name ((key, a) ∷ anchors) =
    if bytes_eq key name then some a else find_anchor name anchors

-- anchor; an empty anchor is nil.
unfoldable pub anchor : ℕ → Bytes → M (Unit {0})
anchor n name = if is_empty name then pure tt else (do
  change n (λ x. record x { anchor = name })
  modify (λ p. record p { anchors = (name, n) ∷ p.anchors }))
