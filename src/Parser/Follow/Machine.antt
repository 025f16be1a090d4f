-- ===== src/Parser/Follow/Machine.antt =====
-- The state machine: Parse from valid stacks.
use yaml.Common.{◌≡◌, true, false, arith, ◌||◌, List, [], ◌∷◌, ◌++◌}
use yaml.Event.{Position}
use yaml.Run.{Ends}
use yaml.Parser.State.{Parser, ParserState}
use yaml.Parser.Grammar.{Goal, own, below}
use yaml.Parser.Stack.{
  At, Below, Valid, top, content, unmarked, marked, Follows, Top, stream_start_top,
  implicit_document_top, document_top, document_end_top, end_top, Unmarked, block_node_unmarked,
  indentless_node_unmarked, flow_node_unmarked, block_sequence_unmarked, indentless_unmarked,
  block_mapping_unmarked, flow_sequence_unmarked, flow_mapping_unmarked, Marked,
  block_sequence_marked, block_key_marked, block_value_marked, flow_sequence_marked,
  entry_key_marked, entry_value_marked, entry_end_marked, flow_key_marked, flow_value_marked,
  flow_empty_marked,
}
use yaml.Parser.Machine.{handle, state_machine, is_end, parse}
use yaml.Parser.Follow.Node.{parse_node-Follows}
use yaml.Parser.Follow.Entry.{opens, continues}
use yaml.Parser.Follow.Block.{
  parse_block_sequence_entry-Follows, parse_indentless_sequence_entry-Follows,
  parse_block_mapping_key-Follows, parse_block_mapping_value-Follows,
}
use yaml.Parser.Follow.Flow.{
  parse_flow_sequence_entry-Follows, parse_flow_sequence_entry_mapping_key-Follows,
  parse_flow_sequence_entry_mapping_value-Follows, parse_flow_sequence_entry_mapping_end-Follows,
  parse_flow_mapping_key-Follows, parse_flow_mapping_value-Follows,
}
use yaml.Parser.Follow.Document.{
  parse_stream_start-Follows, parse_document_start-Follows, parse_document_content-Follows,
  parse_document_end-Follows,
}

-- Valid stacks under the state of the parser.
pub record Sound (p : Parser) : Type 0 where
  pub at : At p.state p.states p.marks p
  pub valid : Valid p.state p.states p.marks

-- What is expected of the parser's events.
abbrev pub expected : Parser → List Goal
expected p = own p.state ++ below p.states

module _ {p : Parser} where
  Top-Follows :
      {s : ParserState}
      → Top s
      → is_end s ≡ false
      → At s [] [] p
      → Ends (Follows (own s ++ [])) (handle s p)
  unfolding handle
  Top-Follows stream_start_top e a = parse_stream_start-Follows a
  Top-Follows implicit_document_top e a = parse_document_start-Follows true a
  Top-Follows document_top e a = parse_document_start-Follows false a
  Top-Follows document_end_top e a = parse_document_end-Follows a
  Top-Follows end_top e a = cc

  module _ {K : List ParserState} {ms : List Position} (b : Below K ms) where
    Unmarked-Follows :
        {s : ParserState}
        → Unmarked s
        → At s K ms p
        → Ends (Follows (own s ++ below K)) (handle s p)
    unfolding handle
    Unmarked-Follows block_node_unmarked a = parse_node-Follows b true false a
    Unmarked-Follows indentless_node_unmarked a = parse_node-Follows b true true a
    Unmarked-Follows flow_node_unmarked a = parse_node-Follows b false false a
    Unmarked-Follows block_sequence_unmarked a = parse_block_sequence_entry-Follows b true (opens a)
    Unmarked-Follows indentless_unmarked a = parse_indentless_sequence_entry-Follows b a
    Unmarked-Follows block_mapping_unmarked a = parse_block_mapping_key-Follows b true (opens a)
    Unmarked-Follows flow_sequence_unmarked a = parse_flow_sequence_entry-Follows b true (opens a)
    Unmarked-Follows flow_mapping_unmarked a = parse_flow_mapping_key-Follows b true (opens a)

    Marked-Follows :
        {s : ParserState} {m : Position}
        → Marked s
        → At s K (m ∷ ms) p
        → Ends (Follows (own s ++ below K)) (handle s p)
    unfolding handle
    Marked-Follows block_sequence_marked a =
        parse_block_sequence_entry-Follows b false (continues a)
    Marked-Follows block_key_marked a = parse_block_mapping_key-Follows b false (continues a)
    Marked-Follows block_value_marked a = parse_block_mapping_value-Follows b a
    Marked-Follows flow_sequence_marked a = parse_flow_sequence_entry-Follows b false (continues a)
    Marked-Follows entry_key_marked a = parse_flow_sequence_entry_mapping_key-Follows b a
    Marked-Follows entry_value_marked a = parse_flow_sequence_entry_mapping_value-Follows b a
    Marked-Follows entry_end_marked a = parse_flow_sequence_entry_mapping_end-Follows b a
    Marked-Follows flow_key_marked a = parse_flow_mapping_key-Follows b false (continues a)
    Marked-Follows flow_value_marked a = parse_flow_mapping_value-Follows b false a
    Marked-Follows flow_empty_marked a = parse_flow_mapping_value-Follows b true a

  handle-Follows :
      {s : ParserState} {K : List ParserState} {ms : List Position}
      → Valid s K ms
      → is_end s ≡ false
      → At s K ms p
      → Ends (Follows (own s ++ below K)) (handle s p)
  unfolding handle
  handle-Follows (top t) e a = Top-Follows t e a
  handle-Follows content e a = parse_document_content-Follows a
  handle-Follows (unmarked u b) e a = Unmarked-Follows b u a
  handle-Follows (marked m b) e a = Marked-Follows b m a

-- From valid stacks, before the end, Parse returns an event that is expected, or an error.
pub parse-Follows :
    (p : Parser)
    → Sound p
    → p.stream_end_produced || is_end p.state ≡ false
    → Ends (Follows (expected p)) (parse p)
unfolding parse state_machine
parse-Follows p v e = rw e (handle-Follows v.valid (ground (arith, e)) v.at)
