-- ===== src/Emitter/Examples.antt =====
-- The theorems on the emitter at concrete inputs.
use yaml.Common.{one_of, ℕ, ◌≡◌, refl, true, false, some, [], ◌∷◌, ◌++◌, Bytes, codes, pos, arith}
use yaml.Chars.{width}
use yaml.Chars.Text.{Text, empty, one, two, lead_length, width-lead_length}
use yaml.Event.{
  document_start, default_tag_directives, Event, sequence_start, mapping_start, mapping_end,
  folded_scalar_style, double_quoted_scalar_style,
}
use yaml.Emitter.State.{
  ScalarData, no_scalar, Emitter, new, Outcome, ok, err, panic, exhausted, emit_block_sequence_item,
  emit_document_end,
}
use yaml.Emitter.Output.{increase_indent}
use yaml.Emitter.Write.{write_indent, write_tag_content}
use yaml.Emitter.Write.Block.{write_block_scalar_hints}
use yaml.Emitter.Write.Comment.{
  write_comment, process_head_comment, process_line_comment, process_foot_comment,
}
use yaml.Emitter.Analyze.{analyze_anchor, analyze_event}
use yaml.Emitter.Analyze.Scalar.{analyze_scalar}
use yaml.Emitter.Node.{process_anchor, process_tag, write_styled, select_scalar_style, pending}
use yaml.Emitter.Machine.{emit}
use yaml.Emitter.Samples.{
  buffer, bare, styled_event, plain_event, emit_all, document, closing, run, text, panicked,
}
use yaml.Emitter.Bind.{Ends}
use yaml.Scanner.{encoded, invalid_code}
use yaml.Emitter.Write.Quoted.{write_escaped_char}
use yaml.Emitter.Escape.Back.{Escaped, write_escaped_char-Escaped}
use yaml.Emitter.Flow.{here, later, analyze_scalar-flow}
use yaml.Emitter.Returns.{analyze_scalar-Returns}
use yaml.Emitter.Sound.Properties.{process_properties-End}
use yaml.Emitter.Style.{Fits, select_scalar_style-Fits}
use yaml.Emitter.Directives.{GrownByAll, read_directives-GrownByAll}
use yaml.Emitter.Document.{read_directives}
use yaml.Emitter.Queue.{Waits, emit-pending}
use yaml.Emitter.Indent.{Indented, write_indent-Indented}
use yaml.Emitter.Level.{Deeper, increase_indent-Deeper}
use yaml.Emitter.OpenEnded.{write_block_scalar_hints-open_ended}
use yaml.Emitter.Anchor.{Judged, analyze_anchor-Judged}
use yaml.Emitter.Collected.{a_mapping, analyze_event-anchor_data}
use yaml.Emitter.Sound.{Sound, stem, Kept, Any}
use yaml.Emitter.Sound.Styled.{double_quoted, write_styled-Keeps}
use yaml.Emitter.Sound.Texts.{write_comment-Ends, write_tag_content-Ends, process_comments-End}

-- The emitter that a run leaves behind.
abbrev after : Outcome (Unit {0}) → Emitter
after (ok _ e) = e
after (err _ e) = e
after panic = new buffer
after exhausted = new buffer

abbrev fresh : Emitter
fresh = new buffer

-- `é`, a line break and `x`
abbrev accented : Bytes
accented = 0xC3 ∷ 0xA9 ∷ 0x0A ∷ b'x' ∷ []

accented-Text : Text accented
accented-Text =
    two (omega arith) (omega arith) (omega arith, omega arith)
      (one (omega arith) (one (omega arith) empty))

-- A comment is pending at the column 3 of a line in a block sequence.
abbrev pending_comment : Emitter
pending_comment = record fresh {
  anchor_data = record { anchor = some (codes "x"); is_alias = false };
  tag_data = record { handle = codes "!"; suffix = accented };
  head_comment = accented;
  indent = 2;
  column = 3;
  indent_level = pos 4;
  states = emit_block_sequence_item ∷ emit_document_end ∷ [];
}

pending_comment-Sound : Sound pending_comment
pending_comment-Sound = record {
  head = accented-Text;
  line = empty;
  foot = empty;
  tail = empty;
  key = empty;
}

write_styled-Keeps_example :
    Ends
      (Kept (stem pending_comment) Any)
      (write_styled double_quoted_scalar_style accented true pending_comment)
write_styled-Keeps_example =
    write_styled-Keeps (stem pending_comment) double_quoted_scalar_style accented true
      (double_quoted refl) accented-Text pending_comment pending_comment-Sound refl

write_comment-Ends_example :
    Ends (Kept (stem pending_comment) Any) (write_comment accented pending_comment)
write_comment-Ends_example =
    write_comment-Ends accented pending_comment accented-Text pending_comment-Sound

write_tag_content-Ends_example :
    Ends (Kept (stem pending_comment) Any) (write_tag_content accented true pending_comment)
write_tag_content-Ends_example =
    write_tag_content-Ends accented true pending_comment accented-Text pending_comment-Sound

process_comments-End_example :
    Ends (Kept (stem pending_comment) Any) (process_head_comment pending_comment)
    × Ends (Kept (stem pending_comment) Any) (process_line_comment pending_comment)
    × Ends (Kept (stem pending_comment) Any) (process_foot_comment pending_comment)
process_comments-End_example = process_comments-End pending_comment pending_comment-Sound

process_properties-End_example :
    Ends (Kept (stem pending_comment) Any) (process_anchor pending_comment)
    × Ends (Kept (stem pending_comment) Any) (process_tag pending_comment)
process_properties-End_example =
    process_properties-End pending_comment pending_comment-Sound accented-Text

-- Inside a document, a sequence starts.
abbrev waiting : Emitter
waiting = after (emit_all (document []) fresh)

emit-pending_example : Waits (pending (after (emit (bare sequence_start) false waiting)))
unfolding emit
emit-pending_example =
    emit-pending (bare sequence_start) false waiting
      (after (emit (bare sequence_start) false waiting)) refl

select_scalar_style-Fits_example :
    Ends
      (λ _ e'. Fits pending_comment e'.scalar_data.style)
      (select_scalar_style (plain_event (codes "a")) pending_comment)
select_scalar_style-Fits_example =
    select_scalar_style-Fits (plain_event (codes "a")) pending_comment

abbrev tagging : Event
tagging = record (bare document_start) {
  tag_directives = record { handle = codes "!e!"; prefix = codes "tag:e.com:" } ∷ [];
}

read_directives-GrownByAll_example :
    GrownByAll
      (tagging.tag_directives ++ default_tag_directives)
      fresh
      (after (read_directives tagging fresh))
unfolding read_directives
read_directives-GrownByAll_example =
    read_directives-GrownByAll tagging fresh (after (read_directives tagging fresh)) refl refl

write_indent-Indented_example :
    Ends (λ _ e'. Indented pending_comment e') (write_indent pending_comment)
write_indent-Indented_example = write_indent-Indented pending_comment

increase_indent-Deeper_example :
    (m : ℕ) × Deeper emit_block_sequence_item 2 4 m
    × (increase_indent false false pending_comment
        ≡ ok tt (record pending_comment { indent_stack = pos 4 ∷ []; indent_level = pos m }))
increase_indent-Deeper_example =
    increase_indent-Deeper false false pending_comment 4 emit_block_sequence_item
      (emit_document_end ∷ []) refl refl (omega arith)

write_block_scalar_hints-open_ended_example :
    (after (write_block_scalar_hints (codes "a\n\n") fresh)).open_ended ≡ false
unfolding write_block_scalar_hints
write_block_scalar_hints-open_ended_example =
    write_block_scalar_hints-open_ended (codes "a\n\n") fresh
      (after (write_block_scalar_hints (codes "a\n\n") fresh)) refl

analyze_anchor-Judged_example :
    Judged (codes "a b") false fresh (analyze_anchor (codes "a b") false fresh)
analyze_anchor-Judged_example = analyze_anchor-Judged (codes "a b") false fresh

abbrev anchored_mapping : Event
anchored_mapping = record (bare mapping_start) { anchor = codes "x" }

analyze_event-anchor_data_example :
    (after (analyze_event anchored_mapping fresh)).anchor_data
    ≡ record { anchor = some (codes "x"); is_alias = true }
unfolding analyze_event
analyze_event-anchor_data_example =
    analyze_event-anchor_data anchored_mapping b'x' [] fresh
      (after (analyze_event anchored_mapping fresh)) a_mapping refl refl

width-lead_length_example : width 0xE2 ≡ lead_length 0xE2
width-lead_length_example = width-lead_length 0xE2 (omega arith)

-- The next line character, U+0085, before a letter.
write_escaped_char-Escaped_example :
    Ends (Escaped 0x85 fresh (codes "x")) (write_escaped_char (encoded 0x85 ++ codes "x") fresh)
unfolding invalid_code
write_escaped_char-Escaped_example = write_escaped_char-Escaped 0x85 (codes "x") fresh refl

analyze_scalar-Returns_example : (sd : ScalarData) × (analyze_scalar accented fresh ≡ ok sd fresh)
analyze_scalar-Returns_example = analyze_scalar-Returns accented fresh accented-Text

abbrev analysis : Outcome ScalarData → ScalarData
analysis (ok sd _) = sd
analysis _ = no_scalar

analyze_scalar-flow_example : one_of (codes ",?[]{}:") b'b' ≡ false
unfolding analyze_scalar width
analyze_scalar-flow_example =
    analyze_scalar-flow (codes "a b") (analysis (analyze_scalar (codes "a b") fresh)) fresh fresh
      b'b' refl refl (later (later here))

-- A folded scalar that ends in a line break: the loop over the breaks reads behind the end.
folded_panics : run (document (styled_event folded_scalar_style (codes "a\n") ∷ closing)) ≡ panicked
unfolding emit
folded_panics = refl

-- The mark of an anchored mapping is that of an alias.
anchored_text :
    run (
      document (
        anchored_mapping
        ∷ plain_event (codes "k")
        ∷ plain_event (codes "v")
        ∷ bare mapping_end
        ∷ closing))
    ≡ text (codes "*x\nk: v\n")
unfolding emit
anchored_text = refl

-- Each escape of a tag holds the first byte of the character.
tag_text :
    run (
      document (
        record (styled_event double_quoted_scalar_style (codes "v")) {
          tag = 0xC3 ∷ 0xA9 ∷ [];
          implicit = false;
          quoted_implicit = false;
        }
        ∷ closing))
    ≡ text (codes "!<%C3%C3> \"v\"\n")
unfolding emit
tag_text = refl
