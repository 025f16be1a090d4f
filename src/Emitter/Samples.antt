-- ===== src/Emitter/Samples.antt =====
-- Events and writers for tests: the constructors of events in the style of apic.go, and a run of the
-- emitter over a list of events.
use yaml.Common.{ℕ, ◌≡◌, refl, true, false, none, some, List, [], ◌∷◌, Bytes, codes}
use yaml.Event.{
  Event, EventType, origin, any_encoding, stream_start, stream_end, document_start, document_end,
  scalar, sequence_start, sequence_end, mapping_start, mapping_end, plain_scalar_style,
}
use yaml.Emitter.State.{
  write_error, Writer, new, Error, Outcome, ok, err, panic, exhausted, M, ◌>>◌, done,
}
use yaml.Emitter.Machine.{emit}

-- A writer that takes everything.
abbrev pub buffer : Writer
buffer = record { written = []; fault = λ w b. none }

-- A writer that is full.
abbrev broken : Writer
broken = record { written = []; fault = λ w b. some 0 }

abbrev pub bare : EventType → Event
bare t = record {
  event_type = t;
  start_mark = origin;
  end_mark = origin;
  encoding = any_encoding;
  version_directive = none;
  tag_directives = [];
  head_comment = [];
  line_comment = [];
  foot_comment = [];
  tail_comment = [];
  anchor = [];
  tag = [];
  value = [];
  implicit = true;
  quoted_implicit = true;
  style = 0;
}

abbrev pub styled_event : ℕ → Bytes → Event
styled_event style value = record (bare scalar) { value = value; style = style }

abbrev pub plain_event : Bytes → Event
plain_event = styled_event plain_scalar_style

abbrev pub emit_all : List Event → M (Unit {0})
emit_all [] = done
emit_all (event ∷ events) = do emit event false; emit_all events

-- How a run ended: with the text written, or else with a panic or an error.
pub data Ending : Type 0 where
  text : Bytes → Ending
  failed : Error → Ending
  panicked unfinished : Ending

abbrev ending : Outcome (Unit {0}) → Ending
ending (ok _ e) = text e.writer.written
ending (err x e) = failed x
ending panic = panicked
ending exhausted = unfinished

-- The events of one document, with the stream around them.
abbrev pub document : List Event → List Event
document events = bare stream_start ∷ bare document_start ∷ events

abbrev pub closing : List Event
closing = bare document_end ∷ bare stream_end ∷ []

abbrev pub run : List Event → Ending
run events = ending (emit_all events (new buffer))

-- - a
-- - 'b: c'
sequence_text :
    run (
      document (
        bare sequence_start
        ∷ plain_event (codes "a")
        ∷ plain_event (codes "b: c")
        ∷ bare sequence_end
        ∷ closing))
    ≡ text (codes "- a\n- 'b: c'\n")
unfolding emit
sequence_text = refl

mapping_text :
    run (
      document (
        bare mapping_start
        ∷ plain_event (codes "k")
        ∷ bare sequence_start
        ∷ plain_event (codes "v")
        ∷ bare sequence_end
        ∷ record (plain_event (codes "n")) { anchor = codes "x" }
        ∷ bare mapping_start
        ∷ bare mapping_end
        ∷ bare mapping_end
        ∷ closing))
    ≡ text (codes "k:\n    - v\n&x n: {}\n")
unfolding emit
mapping_text = refl

-- A writer that takes nothing.
full_writer :
    ending (emit_all (document (plain_event (codes "a") ∷ closing)) (new broken))
    ≡ failed write_error
unfolding emit
full_writer = refl
