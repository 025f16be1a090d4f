-- ===== src/Emitter/Node.antt =====
-- internal/emitter/check.go and process.go, and the node handlers of internal/emitter/emit.go:
-- emitNode, emitAlias, emitScalar, emitSequenceStart, emitMappingStart and selectScalarStyle.
use yaml.Common.{
  ℕ, ◌+◌, Bool, true, false, not, ◌&&◌, ◌||◌, Option, none, some, List, [], ◌∷◌, Bytes, length,
  is_empty, get_elem?, drop, leb, ◌==◌, if◌then◌else◌, is_nat, is_positive, codes,
}
use yaml.Event.{
  Event, EventType, ◌is_type◌, alias, scalar, sequence_start, sequence_end, mapping_start,
  mapping_end, any_scalar_style, plain_scalar_style, single_quoted_scalar_style,
  double_quoted_scalar_style, literal_scalar_style, folded_scalar_style, flow_sequence_style,
  flow_mapping_style,
}
use yaml.Emitter.State.{
  Emitter, EmitterState, emit_flow_sequence_first_item, emit_block_sequence_first_item,
  emit_flow_mapping_first_key, emit_block_mapping_first_key, message, unexpected_node, ok, panic, M,
  ◌>>=◌, ◌>>◌, pure, done, get, modify, fail, when, checked, panic_here,
}
use yaml.Emitter.Output.{increase_indent}
use yaml.Emitter.Write.{write_indicator, write_anchor, write_tag_handle, write_tag_content}
use yaml.Emitter.Write.Plain.{write_plain_scalar}
use yaml.Emitter.Write.Quoted.{write_single_quoted_scalar, write_double_quoted_scalar}
use yaml.Emitter.Write.Block.{write_literal_scalar, write_folded_scalar}

-- `e.state = e.states[len(e.states)-1]` and the shortening of the stack
unfoldable pub pop_state : M (Unit {0})
pop_state e = elim e.states [
  | [] ↦ panic
  | s ∷ rest ↦ ok tt (record e { state = s; states = rest })
]

-- The same for the indentation.
unfoldable pub pop_indent : M (Unit {0})
pop_indent e = elim e.indent_stack [
  | [] ↦ panic
  | n ∷ rest ↦ ok tt (record e { indent_level = n; indent_stack = rest })
]

abbrev pub push_state : EmitterState → M (Unit {0})
push_state s e = ok tt (record e { states = s ∷ e.states })

abbrev pub set_state : EmitterState → M (Unit {0})
set_state s e = ok tt (record e { state = s })

-- The events that wait in the queue.
abbrev pub pending : Emitter → List Event
pending e = drop e.events_head e.events_queue

-- Whether the first two are of the types given.
unfoldable starts_with : EventType → EventType → List Event → Bool
starts_with a b (x ∷ y ∷ evs) = x.event_type is_type a && y.event_type is_type b
starts_with a b _ = false

unfoldable check_empty_sequence : Emitter → Bool
unfolding starts_with
check_empty_sequence e = starts_with sequence_start sequence_end (pending e)

unfoldable check_empty_mapping : Emitter → Bool
unfolding starts_with
check_empty_mapping e = starts_with mapping_start mapping_end (pending e)

abbrev anchor_length : Emitter → ℕ
anchor_length e = elim e.anchor_data.anchor [ none ↦ 0 | some a ↦ length a ]

abbrev properties_length : Emitter → ℕ
properties_length e = anchor_length e + length e.tag_data.handle + length e.tag_data.suffix

-- The length of a node of the type, if it may be a simple key at all.
unfoldable key_length : EventType → Emitter → Option ℕ
unfolding check_empty_sequence check_empty_mapping
key_length alias e = some (anchor_length e)
key_length scalar e =
    if e.scalar_data.multiline
    then none
    else some (properties_length e + length e.scalar_data.value)
key_length sequence_start e = if check_empty_sequence e then some (properties_length e) else none
key_length mapping_start e = if check_empty_mapping e then some (properties_length e) else none
key_length _ e = none

unfoldable pub check_simple_key : M Bool
unfolding key_length
check_simple_key = do
  e ← get
  event ← checked (get_elem? e.events_queue e.events_head)
  pure (elim (key_length event.event_type e) [ none ↦ false | some n ↦ leb n 128 ])

unfoldable pub process_anchor : M (Unit {0})
unfolding write_indicator write_anchor
process_anchor = do
  e ← get
  elim e.anchor_data.anchor [
    | none ↦ done
    | some anchor ↦ (do
      write_indicator ((if e.anchor_data.is_alias then b'*' else b'&') ∷ []) true false false
      write_anchor anchor)
  ]

unfoldable pub write_tag : Bytes → Bytes → M (Unit {0})
unfolding write_indicator write_tag_handle write_tag_content
write_tag handle suffix =
    if not (is_empty handle)
    then (do write_tag_handle handle; when (not (is_empty suffix)) (write_tag_content suffix false))
    else (do
      write_indicator (codes "!<") true false false
      write_tag_content suffix false
      write_indicator (codes ">") false false false)

unfoldable pub process_tag : M (Unit {0})
unfolding write_tag
process_tag = do
  e ← get
  let handle = e.tag_data.handle
  let suffix = e.tag_data.suffix
  when (not (is_empty handle && is_empty suffix)) (write_tag handle suffix)

-- The writer of a style; any other style is a panic.
unfoldable pub write_styled : ℕ → Bytes → Bool → M (Unit {0})
unfolding write_plain_scalar write_single_quoted_scalar write_double_quoted_scalar
    write_literal_scalar write_folded_scalar
write_styled style value allow_breaks =
    if style == plain_scalar_style
    then write_plain_scalar value allow_breaks
    else if style == single_quoted_scalar_style
    then write_single_quoted_scalar value allow_breaks
    else if style == double_quoted_scalar_style
    then write_double_quoted_scalar value allow_breaks
    else if style == literal_scalar_style
    then write_literal_scalar value
    else if style == folded_scalar_style
    then write_folded_scalar value
    else panic_here

unfoldable process_scalar : M (Unit {0})
unfolding write_styled
process_scalar = do
  e ← get
  write_styled e.scalar_data.style e.scalar_data.value (not e.simple_key_context)

-- The steps of selectScalarStyle, one for each test of the source.
unfoldable plain_to_single : Emitter → Event → Bool → ℕ → ℕ
plain_to_single e event no_tag style =
    if style == plain_scalar_style
      && (is_positive e.flow_level && not e.scalar_data.flow_plain_allowed
          || is_nat e.flow_level 0 && not e.scalar_data.block_plain_allowed
          || is_empty e.scalar_data.value && (is_positive e.flow_level || e.simple_key_context)
          || no_tag && not event.implicit)
    then single_quoted_scalar_style
    else style

unfoldable single_to_double : Emitter → ℕ → ℕ
single_to_double e style =
    if style == single_quoted_scalar_style && not e.scalar_data.single_quoted_allowed
    then double_quoted_scalar_style
    else style

unfoldable block_to_double : Emitter → ℕ → ℕ
block_to_double e style =
    if (style == literal_scalar_style || style == folded_scalar_style)
      && (not e.scalar_data.block_allowed || is_positive e.flow_level || e.simple_key_context)
    then double_quoted_scalar_style
    else style

unfoldable requested_style : Emitter → Event → ℕ
requested_style e event =
    if e.simple_key_context && e.scalar_data.multiline
    then double_quoted_scalar_style
    else if event.style == any_scalar_style
    then plain_scalar_style
    else event.style

abbrev pub has_no_tag : Emitter → Bool
has_no_tag e = is_empty e.tag_data.handle && is_empty e.tag_data.suffix

unfoldable pub selected_style : Emitter → Event → ℕ
unfolding requested_style plain_to_single single_to_double block_to_double
selected_style e event =
    block_to_double e
      (single_to_double e (plain_to_single e event (has_no_tag e) (requested_style e event)))

unfoldable pub select_scalar_style : Event → M (Unit {0})
unfolding selected_style
select_scalar_style event = do
  e ← get
  let style = selected_style e event
  when (has_no_tag e && not event.implicit && not event.quoted_implicit)
      (fail (message "neither tag nor implicit flags are specified"))
  when (has_no_tag e && not event.quoted_implicit && not (style == plain_scalar_style))
      (modify (λ e. record e { tag_data = record (e.tag_data) { handle = b'!' ∷ [] } }))
  modify (λ e. record e { scalar_data = record (e.scalar_data) { style = style } })

unfoldable emit_alias : M (Unit {0})
unfolding process_anchor pop_state
emit_alias = do process_anchor; pop_state

unfoldable emit_scalar : Event → M (Unit {0})
unfolding select_scalar_style process_anchor process_tag increase_indent process_scalar pop_indent
    pop_state
emit_scalar event = do
  select_scalar_style event
  process_anchor
  process_tag
  increase_indent true false
  process_scalar
  pop_indent
  pop_state

unfoldable emit_sequence_start : Event → M (Unit {0})
unfolding process_anchor process_tag check_empty_sequence
emit_sequence_start event = do
  process_anchor
  process_tag
  e ← get
  set_state (
      if is_positive e.flow_level || event.style == flow_sequence_style || check_empty_sequence e
      then emit_flow_sequence_first_item
      else emit_block_sequence_first_item)

unfoldable emit_mapping_start : Event → M (Unit {0})
unfolding process_anchor process_tag check_empty_mapping
emit_mapping_start event = do
  process_anchor
  process_tag
  e ← get
  set_state (
      if is_positive e.flow_level || event.style == flow_mapping_style || check_empty_mapping e
      then emit_flow_mapping_first_key
      else emit_block_mapping_first_key)

unfoldable node_by_type : EventType → Event → M (Unit {0})
unfolding emit_alias emit_scalar emit_sequence_start emit_mapping_start
node_by_type alias event = emit_alias
node_by_type scalar event = emit_scalar event
node_by_type sequence_start event = emit_sequence_start event
node_by_type mapping_start event = emit_mapping_start event
node_by_type t event = fail (unexpected_node t)

unfoldable pub emit_node : Event → Bool → Bool → M (Unit {0})
unfolding node_by_type
emit_node event root simple_key = do
  modify (λ e. record e { root_context = root; simple_key_context = simple_key })
  node_by_type event.event_type event
