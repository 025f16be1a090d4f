-- ===== src/Emitter/Machine.antt =====
-- stateMachine of internal/emitter/emit.go, and Emit of internal/emitter/emitter.go.
use yaml.Common.{
  ℕ, zero, suc, Bool, true, false, not, ◌&&◌, [], ◌∷◌, ◌++◌, length, get_elem?, if◌then◌else◌,
}
use yaml.Event.{Event}
use yaml.Emitter.State
use yaml.Emitter.State.{
  Emitter, EmitterState, Error, message, M, ◌>>=◌, ◌>>◌, done, get, modify, fail, checked,
  exhausted, emit_first_document_start, emit_flow_sequence_first_item,
  emit_flow_sequence_trail_item, emit_flow_mapping_first_key, emit_flow_mapping_trail_key,
  emit_flow_mapping_simple_value, emit_block_sequence_first_item, emit_block_mapping_first_key,
  emit_block_mapping_simple_value, emit_end,
}
use yaml.Emitter.Output.{ready_to_emit}
use yaml.Emitter.Analyze.{analyze_event}
use yaml.Emitter.Document.{
  emit_stream_start, emit_document_start, emit_document_content, emit_document_end,
}
use yaml.Emitter.Collection.{
  emit_flow_sequence_item, emit_flow_mapping_key, emit_flow_mapping_value, emit_block_sequence_item,
  emit_block_mapping_key, emit_block_mapping_value,
}

-- The handler of a state.
unfoldable pub handle : EmitterState → Event → M (Unit {0})
unfolding emit_stream_start emit_document_start emit_document_content emit_document_end
    emit_flow_sequence_item emit_flow_mapping_key emit_flow_mapping_value emit_block_sequence_item
    emit_block_mapping_key emit_block_mapping_value
handle State.emit_stream_start event = emit_stream_start event
handle emit_first_document_start event = emit_document_start event true
handle State.emit_document_start event = emit_document_start event false
handle State.emit_document_content event = emit_document_content event
handle State.emit_document_end event = emit_document_end event
handle emit_flow_sequence_first_item event = emit_flow_sequence_item event true false
handle emit_flow_sequence_trail_item event = emit_flow_sequence_item event false true
handle State.emit_flow_sequence_item event = emit_flow_sequence_item event false false
handle emit_flow_mapping_first_key event = emit_flow_mapping_key event true false
handle emit_flow_mapping_trail_key event = emit_flow_mapping_key event false true
handle State.emit_flow_mapping_key event = emit_flow_mapping_key event false false
handle emit_flow_mapping_simple_value event = emit_flow_mapping_value event true
handle State.emit_flow_mapping_value event = emit_flow_mapping_value event false
handle emit_block_sequence_first_item event = emit_block_sequence_item event true
handle State.emit_block_sequence_item event = emit_block_sequence_item event false
handle emit_block_mapping_first_key event = emit_block_mapping_key event true
handle State.emit_block_mapping_key event = emit_block_mapping_key event false
handle emit_block_mapping_simple_value event = emit_block_mapping_value event true
handle State.emit_block_mapping_value event = emit_block_mapping_value event false
handle emit_end event = fail (message "expected nothing after STREAM-END")

unfoldable state_machine : Event → M (Unit {0})
unfolding handle
state_machine event = do e ← get; handle e.state event

-- The body of the loop of Emit.
unfoldable pub emit_one : M (Unit {0})
unfolding analyze_event state_machine
emit_one = do
  e ← get
  event ← checked (get_elem? e.events_queue e.events_head)
  analyze_event event
  state_machine event
  modify (λ e. record e { events_head = suc e.events_head })

-- `for e.readyToEmit()`: a round moves the head of the queue on.
unfoldable pub emit_ready : ℕ → M (Unit {0})
unfolding ready_to_emit emit_one
emit_ready zero e = if ready_to_emit e then exhausted else done e
emit_ready (suc rounds) e =
    let again = (emit_one >> emit_ready rounds) e in if ready_to_emit e then again else done e

-- What Emit does before its loop.
abbrev pub enqueue : Event → Bool → Emitter → Emitter
enqueue event final e = record e {
  open_ended = e.open_ended && not final;
  events_queue = e.events_queue ++ event ∷ [];
}

unfoldable pub emit : Event → Bool → M (Unit {0})
unfolding emit_ready
emit event final e =
    let queued = enqueue event final e in emit_ready (length queued.events_queue) queued
