-- ===== src/Emitter/Collection.antt =====
-- The handlers of sequences and mappings in internal/emitter/emit.go.
use yaml.Common.{
  Bool, true, false, not, ◌&&◌, ◌||◌, [], ◌∷◌, Bytes, is_empty, ◌==◌, if◌then◌else◌, increment,
  decrement, exceeds,
}
use yaml.Event.{
  Event, ◌is_type◌, scalar, sequence_start, sequence_end, mapping_start, mapping_end,
  flow_sequence_style,
}
use yaml.Emitter.State
use yaml.Emitter.State.{
  Emitter, emit_flow_sequence_trail_item, emit_flow_mapping_trail_key,
  emit_flow_mapping_simple_value, emit_block_mapping_simple_value, M, ◌>>=◌, ◌>>◌, done, get,
  modify, when,
}
use yaml.Emitter.Output.{increase_indent}
use yaml.Emitter.Write.{write_indent, write_indicator}
use yaml.Emitter.Write.Comment.{process_head_comment, process_line_comment, process_foot_comment}
use yaml.Emitter.Node.{emit_node, check_simple_key, push_state, pop_state, pop_indent}

-- `len(e.lineComment)+len(e.footComment)+len(e.tailComment) > 0`
abbrev has_trailing : Emitter → Bool
has_trailing e =
    not (is_empty e.line_comment) || not (is_empty e.foot_comment) || not (is_empty e.tail_comment)

abbrev has_leading : Emitter → Bool
has_leading e =
    not (is_empty e.head_comment) || not (is_empty e.foot_comment) || not (is_empty e.tail_comment)

-- The start of a flow collection.
unfoldable open_flow : Bool → Bytes → M (Unit {0})
unfolding write_indicator increase_indent
open_flow first bracket = when first (do
  write_indicator bracket true true false
  increase_indent true false
  modify (λ e. record e { flow_level = increment e.flow_level }))

-- The level and the indentation of the enclosing node.
unfoldable leave_flow : M (Unit {0})
unfolding pop_indent
leave_flow = do modify (λ e. record e { flow_level = decrement e.flow_level }); pop_indent

unfoldable line_and_foot : M (Unit {0})
unfolding process_line_comment process_foot_comment
line_and_foot = do process_line_comment; process_foot_comment

unfoldable close_flow : Bytes → M (Unit {0})
unfolding write_indicator line_and_foot pop_state
close_flow bracket = do write_indicator bracket false false false; line_and_foot; pop_state

unfoldable comma : Bool → M (Unit {0})
unfolding write_indicator
comma cond = when cond (write_indicator (b',' ∷ []) false false false)

unfoldable end_flow_sequence : M (Unit {0})
unfolding leave_flow write_indent close_flow
end_flow_sequence = do
  leave_flow
  e ← get
  when (e.column == 0) write_indent
  close_flow (b']' ∷ [])

-- What precedes an item or a key of a flow collection.
unfoldable start_flow_item : M (Unit {0})
unfolding process_head_comment write_indent
start_flow_item = do
  process_head_comment
  e ← get
  when (e.column == 0) write_indent
  e ← get
  when (exceeds e.column e.best_width) write_indent

-- What follows an item or a value: the comma stands in front of the comments.
unfoldable end_flow_item : M (Unit {0})
unfolding comma line_and_foot
end_flow_item = do e ← get; comma (has_trailing e); line_and_foot

unfoldable pub emit_flow_sequence_item : Event → Bool → Bool → M (Unit {0})
unfolding open_flow end_flow_sequence comma start_flow_item emit_node end_flow_item
emit_flow_sequence_item event first trail = do
  open_flow first (b'[' ∷ [])
  if event.event_type is_type sequence_end then end_flow_sequence else (do
    comma (not first && not trail)
    start_flow_item
    e ← get
    push_state
        (if has_trailing e then emit_flow_sequence_trail_item else State.emit_flow_sequence_item)
    emit_node event false false
    end_flow_item)

unfoldable end_flow_mapping : Bool → Bool → M (Unit {0})
unfolding comma process_head_comment leave_flow close_flow
end_flow_mapping first trail = do
  e ← get
  comma (has_leading e && not first && not trail)
  process_head_comment
  leave_flow
  close_flow (b'}' ∷ [])

unfoldable pub emit_flow_mapping_key : Event → Bool → Bool → M (Unit {0})
unfolding open_flow end_flow_mapping comma start_flow_item check_simple_key emit_node
    write_indicator
emit_flow_mapping_key event first trail = do
  open_flow first (b'{' ∷ [])
  if event.event_type is_type mapping_end then end_flow_mapping first trail else (do
    comma (not first && not trail)
    start_flow_item
    simple ← check_simple_key
    if simple
        then (do push_state emit_flow_mapping_simple_value; emit_node event false true)
        else (do
          write_indicator (b'?' ∷ []) true false false
          push_state State.emit_flow_mapping_value
          emit_node event false false))

unfoldable flow_colon : Bool → M (Unit {0})
unfolding write_indicator write_indent
flow_colon true = write_indicator (b':' ∷ []) false false false
flow_colon false = do
  e ← get
  when (exceeds e.column e.best_width) write_indent
  write_indicator (b':' ∷ []) true false false

unfoldable pub emit_flow_mapping_value : Event → Bool → M (Unit {0})
unfolding flow_colon emit_node end_flow_item
emit_flow_mapping_value event simple = do
  flow_colon simple
  e ← get
  push_state (if has_trailing e then emit_flow_mapping_trail_key else State.emit_flow_mapping_key)
  emit_node event false false
  end_flow_item

unfoldable leave_block : M (Unit {0})
unfolding pop_indent pop_state
leave_block = do pop_indent; pop_state

unfoldable pub emit_block_sequence_item : Event → Bool → M (Unit {0})
unfolding increase_indent leave_block process_head_comment write_indent write_indicator emit_node
    line_and_foot
emit_block_sequence_item event first = do
  when first (increase_indent false false)
  if event.event_type is_type sequence_end then leave_block else (do
    process_head_comment
    write_indent
    write_indicator (b'-' ∷ []) true false true
    push_state State.emit_block_sequence_item
    emit_node event false false
    line_and_foot)

-- A line comment of the key is kept for the value.
abbrev keep_key_comment : Emitter → Emitter
keep_key_comment e =
    if is_empty e.line_comment
    then e
    else record e { key_line_comment = e.line_comment; line_comment = [] }

unfoldable pub emit_block_mapping_key : Event → Bool → M (Unit {0})
unfolding increase_indent process_head_comment leave_block write_indent check_simple_key emit_node
    write_indicator
emit_block_mapping_key event first = do
  when first (increase_indent false false)
  process_head_comment
  if event.event_type is_type mapping_end then leave_block else (do
    write_indent
    modify keep_key_comment
    simple ← check_simple_key
    if simple
        then (do push_state emit_block_mapping_simple_value; emit_node event false true)
        else (do
          write_indicator (b'?' ∷ []) true false true
          push_state State.emit_block_mapping_value
          emit_node event false false))

abbrev swap_comments : Emitter → Emitter
swap_comments e = record e { line_comment = e.key_line_comment; key_line_comment = e.line_comment }

-- What becomes of the kept comment: a scalar with no line comment takes it, and in front of an
-- indented block it is written at once. The style tested is that of a sequence for both kinds.
unfoldable place_key_comment : Event → M (Unit {0})
unfolding process_line_comment
place_key_comment event = do
  e ← get
  if event.event_type is_type scalar
      then when (is_empty e.line_comment)
          (modify (λ e. record e { line_comment = e.key_line_comment; key_line_comment = [] }))
      else when
          (not (event.style == flow_sequence_style)
            && (event.event_type is_type mapping_start || event.event_type is_type sequence_start))
          (do modify swap_comments; process_line_comment; modify swap_comments)

unfoldable block_colon : Bool → M (Unit {0})
unfolding write_indicator write_indent
block_colon true = write_indicator (b':' ∷ []) false false false
block_colon false = do write_indent; write_indicator (b':' ∷ []) true false true

unfoldable pub emit_block_mapping_value : Event → Bool → M (Unit {0})
unfolding block_colon place_key_comment emit_node line_and_foot
emit_block_mapping_value event simple = do
  block_colon simple
  e ← get
  when (not (is_empty e.key_line_comment)) (place_key_comment event)
  push_state State.emit_block_mapping_key
  emit_node event false false
  line_and_foot
