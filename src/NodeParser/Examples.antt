-- ===== src/NodeParser/Examples.antt =====
-- Nodes from the events of small documents: witnesses of the theorems, and tests.
use yaml.Common.{ℕ, ◌≡◌, refl, Option, none, some, List, [], ◌∷◌, codes, Bytes, map}
use yaml.Event.{
  Event, EventType, bare_event, origin, stream_start, stream_end, document_start, document_end,
  alias, scalar, mapping_start, mapping_end, sequence_start, sequence_end,
}
use yaml.Run.{Outcome, ok, Ends}
use yaml.Resolve.Samples.{sample}
use yaml.Node.{new_node}
use yaml.Parser.Examples.{small, small_run}
use yaml.NodeParser.State.{NodeParser, Heap, new}
use yaml.NodeParser.Collection.{parse}
use yaml.NodeParser.Shape.{Solid}
use yaml.Common.{arith}
use yaml.NodeParser.Stream.{
  Complete, Parsed, no_document, document, parse-Complete, pipeline-Complete,
}

abbrev event_of : EventType → Bytes → Bytes → Event
event_of type value anchor = record (bare_event type origin origin) {
  value = value;
  anchor = anchor;
}

-- The events of `{k: &x 1, l: [*x]}`.
abbrev pub sample_events : List Event
sample_events =
    event_of stream_start [] []
    ∷ event_of document_start [] []
    ∷ event_of mapping_start [] []
    ∷ event_of scalar (codes "k") []
    ∷ event_of scalar (codes "1") (codes "x")
    ∷ event_of scalar (codes "l") []
    ∷ event_of sequence_start [] []
    ∷ event_of alias [] (codes "x")
    ∷ event_of sequence_end [] []
    ∷ event_of mapping_end [] []
    ∷ event_of document_end [] []
    ∷ event_of stream_end [] []
    ∷ []

abbrev pub no_nodes : Heap
no_nodes a = new_node

abbrev pub first_state : NodeParser
first_state = new sample_events no_nodes 0 []

-- What is left of an outcome: the value, and the contents and the targets of the nodes.
abbrev seen :
    List ℕ
    → Outcome NodeParser yaml.NodeParser.State.Error (Option ℕ)
    → Option (Option ℕ × List (List (Option ℕ) × Option ℕ))
seen ns (ok c q) = some (c, map (λ a. ((q.heap a).content, (q.heap a).alias)) ns)
seen ns _ = none

-- The document is the node 0, the mapping the node 1, and the alias the node 6.
parsed_nodes :
    seen (0 ∷ 1 ∷ 3 ∷ 5 ∷ 6 ∷ []) (parse sample 13 first_state)
    ≡ some (
      some 0,
      (some 1 ∷ [], none)
          ∷ (some 2 ∷ some 3 ∷ some 4 ∷ some 5 ∷ [], none)
          ∷ ([], none)
          ∷ (some 6 ∷ [], none)
          ∷ ([], some 3)
          ∷ [],
    )
unfolding parse
parsed_nodes = refl

abbrev Run : List Event → Type 0
Run events = (ns : List ℕ) × (p : NodeParser) × Parsed sample 13 (new events no_nodes 0 []) ns p

unfoldable run :
    (events : List Event)
    → (r : Outcome NodeParser yaml.NodeParser.State.Error (Option ℕ))
    → parse sample 13 (new events no_nodes 0 []) ≡ r
    → Run events
run events (ok (some a) p) e = (a ∷ [], p, document e no_document)
run events _ e = ([], new events no_nodes 0 [], no_document)

-- The document is taken, and the call is at the end of the stream.
unfoldable pub sample_run : Run sample_events
unfolding parse run
sample_run = run sample_events (parse sample 13 first_state) refl

pub no_nodes-Solid : Solid no_nodes 0
no_nodes-Solid a = tt

parse-Complete_example : Ends (Complete no_nodes 0) (parse sample 13 sample_run.1)
parse-Complete_example =
    parse-Complete sample sample_events no_nodes 0 [] 13 refl tt no_nodes-Solid (omega arith)
      sample_run.2

one_document : sample_run.0 ≡ 0 ∷ []
unfolding sample_run
one_document = refl

unfoldable small_nodes : Run small_run.0
unfolding parse run
small_nodes = run small_run.0 (parse sample 13 (new small_run.0 no_nodes 0 [])) refl

pipeline-Complete_example : Ends (Complete no_nodes 0) (parse sample 13 small_nodes.1)
unfolding small_run
pipeline-Complete_example =
    pipeline-Complete sample small no_nodes 0 [] 13 small_run.2 tt no_nodes-Solid (omega arith)
      small_nodes.2
