-- ===== src/Event/Make.antt =====
-- The constructors of events in apic.go.
use yaml.Common.{ℕ, Bool, true, Bytes}
use yaml.Event.{
  Event, bare_event, origin, utf8_encoding, stream_start, stream_end, document_start, document_end,
  alias, scalar, sequence_start, sequence_end, mapping_start, mapping_end,
}

abbrev pub stream_start_event : Event
stream_start_event = record (bare_event stream_start origin origin) { encoding = utf8_encoding }

abbrev pub stream_end_event : Event
stream_end_event = bare_event stream_end origin origin

abbrev pub document_start_event : Event
document_start_event = record (bare_event document_start origin origin) { implicit = true }

abbrev pub document_end_event : Event
document_end_event = record (bare_event document_end origin origin) { implicit = true }

abbrev pub alias_event : Bytes → Event
alias_event anchor = record (bare_event alias origin origin) { anchor = anchor }

abbrev pub scalar_event : Bytes → Bytes → Bytes → Bool → Bool → ℕ → Event
scalar_event anchor tag value plain_implicit quoted_implicit style =
    record (bare_event scalar origin origin) {
      anchor = anchor;
      tag = tag;
      value = value;
      implicit = plain_implicit;
      quoted_implicit = quoted_implicit;
      style = style;
    }

abbrev pub sequence_start_event : Bytes → Bytes → Bool → ℕ → Event
sequence_start_event anchor tag implicit style = record (bare_event sequence_start origin origin) {
  anchor = anchor;
  tag = tag;
  implicit = implicit;
  style = style;
}

abbrev pub sequence_end_event : Event
sequence_end_event = bare_event sequence_end origin origin

abbrev pub mapping_start_event : Bytes → Bytes → Bool → ℕ → Event
mapping_start_event anchor tag implicit style = record (bare_event mapping_start origin origin) {
  anchor = anchor;
  tag = tag;
  implicit = implicit;
  style = style;
}

abbrev pub mapping_end_event : Event
mapping_end_event = bare_event mapping_end origin origin
