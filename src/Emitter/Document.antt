-- ===== src/Emitter/Document.antt =====
-- The handlers of streams and documents in internal/emitter/emit.go: emitStreamStart,
-- emitDocumentStart, emitDocumentStartEvent, emitDocumentContent and emitDocumentEnd.
use yaml.Common.{
  ℕ, ◌*◌, Bool, true, false, not, ◌&&◌, ◌||◌, Option, none, some, List, [], ◌∷◌, is_empty, ltb, leb,
  if◌then◌else◌, ℤ, pos, negsuc, minus_one, codes,
}
use yaml.Event.{
  Event, EventType, ◌is_type◌, Encoding, any_encoding, utf8_encoding, VersionDirective,
  TagDirective, stream_start, stream_end, document_start, document_end, default_tag_directives,
}
use yaml.Emitter.State
use yaml.Emitter.State.{
  Emitter, emit_first_document_start, emit_end, message, M, ◌>>=◌, ◌>>◌, done, get, modify, fail,
  when,
}
use yaml.Emitter.Output.{put_break, append_tag_directive}
use yaml.Emitter.Write.{
  write_bom, write_indent, write_indicator, write_tag_handle, write_tag_content,
}
use yaml.Emitter.Write.Comment.{process_head_comment, process_line_comment, process_foot_comment}
use yaml.Emitter.Analyze.{analyze_version_directive, analyze_tag_directive}
use yaml.Emitter.Node.{emit_node, push_state, set_state}

abbrev is_utf8 : Encoding → Bool
is_utf8 utf8_encoding = true
is_utf8 _ = false

-- The encoding of the emitter, or else that of the event, or else UTF-8.
unfoldable choose_encoding : Encoding → Encoding → Encoding
choose_encoding any_encoding any_encoding = utf8_encoding
choose_encoding any_encoding enc = enc
choose_encoding enc _ = enc

unfoldable choose_indent : ℕ → ℕ
choose_indent n = if ltb n 2 || ltb 9 n then 2 else n

unfoldable choose_width : ℕ → ℤ → ℤ
choose_width indent (negsuc n) = pos 2147483647
choose_width indent (pos w) = if leb w (indent * 2) then pos 80 else pos w

-- What emitStreamStart sets.
unfoldable start_stream : Event → Emitter → Emitter
unfolding choose_encoding choose_indent choose_width
start_stream event e = record e {
  encoding = choose_encoding e.encoding event.encoding;
  indent = choose_indent e.indent;
  best_width = choose_width (choose_indent e.indent) e.best_width;
  indent_level = minus_one;
  line = 0;
  column = 0;
  last_char_whitespace = true;
  last_char_indent = true;
  foot_indent = minus_one;
}

unfoldable pub emit_stream_start : Event → M (Unit {0})
unfolding start_stream write_bom
emit_stream_start event =
    if not (event.event_type is_type stream_start)
    then fail (message "expected STREAM-START")
    else (do
      modify (start_stream event)
      e ← get
      when (not (is_utf8 e.encoding)) write_bom
      set_state emit_first_document_start)

unfoldable write_document_end_marker : M (Unit {0})
unfolding write_indicator write_indent
write_document_end_marker = do write_indicator (codes "...") true false false; write_indent

unfoldable pub add_tag_directives : List TagDirective → M (Unit {0})
unfolding analyze_tag_directive append_tag_directive
add_tag_directives [] = done
add_tag_directives (d ∷ ds) = do
  analyze_tag_directive d
  append_tag_directive d false
  add_tag_directives ds

unfoldable pub add_default_directives : List TagDirective → M (Unit {0})
unfolding append_tag_directive
add_default_directives [] = done
add_default_directives (d ∷ ds) = do append_tag_directive d true; add_default_directives ds

unfoldable write_tag_directives : List TagDirective → M (Unit {0})
unfolding write_indicator write_tag_handle write_tag_content write_indent
write_tag_directives [] = done
write_tag_directives (d ∷ ds) = do
  write_indicator (codes "%TAG") true false false
  write_tag_handle d.handle
  write_tag_content d.prefix true
  write_indent
  write_tag_directives ds

abbrev is_some {ℓ} : {A : Type ℓ} → Option A → Bool
is_some none = false
is_some (some a) = true

unfoldable pub check_version : Option VersionDirective → M (Unit {0})
unfolding analyze_version_directive
check_version none = done
check_version (some v) = analyze_version_directive v

-- The checks of emitDocumentStartEvent and the tag directives that it adds.
unfoldable pub read_directives : Event → M (Unit {0})
unfolding check_version add_tag_directives add_default_directives
read_directives event = do
  check_version event.version_directive
  add_tag_directives event.tag_directives
  add_default_directives default_tag_directives

-- The directives that it writes.
unfoldable write_directives : Event → M (Unit {0})
unfolding write_document_end_marker write_indicator write_indent write_tag_directives
write_directives event = do
  e ← get
  let given = is_some event.version_directive || not (is_empty event.tag_directives)
  when (e.open_ended && given) write_document_end_marker
  when (is_some event.version_directive)
      (do write_indicator (codes "%YAML 1.1") true false false; write_indent)
  write_tag_directives event.tag_directives

abbrev is_implicit : Event → Bool → Bool
is_implicit event first =
    event.implicit
    && first
    && not (is_some event.version_directive)
    && is_empty event.tag_directives

unfoldable emit_document_start_event : Event → Bool → M (Unit {0})
unfolding read_directives write_directives write_indent write_indicator process_head_comment
    put_break
emit_document_start_event event first = do
  read_directives event
  write_directives event
  when (not (is_implicit event first))
      (do write_indent; write_indicator (codes "---") true false false; write_indent)
  e ← get
  when (not (is_empty e.head_comment)) (do process_head_comment; put_break)
  set_state State.emit_document_content

unfoldable document_start_by_type : EventType → Event → Bool → M (Unit {0})
unfolding emit_document_start_event write_document_end_marker
document_start_by_type document_start event first = emit_document_start_event event first
document_start_by_type stream_end event first = do
  e ← get
  when e.open_ended write_document_end_marker
  set_state emit_end
document_start_by_type _ event first = fail (message "expected DOCUMENT-START or STREAM-END")

-- emitDocumentStart
unfoldable pub emit_document_start : Event → Bool → M (Unit {0})
unfolding document_start_by_type
emit_document_start event = document_start_by_type event.event_type event

unfoldable pub emit_document_content : Event → M (Unit {0})
unfolding process_head_comment emit_node process_line_comment process_foot_comment
emit_document_content event = do
  push_state State.emit_document_end
  process_head_comment
  emit_node event true false
  process_line_comment
  process_foot_comment

unfoldable pub emit_document_end : Event → M (Unit {0})
unfolding process_foot_comment write_indent write_document_end_marker
emit_document_end event =
    if not (event.event_type is_type document_end)
    then fail (message "expected DOCUMENT-END")
    else (do
      modify (λ e. record e { foot_indent = pos 0 })
      process_foot_comment
      modify (λ e. record e { foot_indent = minus_one })
      write_indent
      when (not event.implicit) write_document_end_marker
      set_state State.emit_document_start
      modify (λ e. record e { tag_directives = [] }))
