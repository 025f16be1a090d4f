-- ===== src/Encoder/Writer.antt =====
-- The Encoder of encode.go over the emitter of internal/emitter, with tests of what the two write.
use yaml.Common.{suc, ◌≡◌, refl, true, Bytes, codes, []}
use yaml.Run.{Outcome, ok, err, panic, exhausted, ◌>>◌}
use yaml.Emitter.Machine
use yaml.Emitter.State
use yaml.Emitter.Samples.{buffer}
use yaml.Resolve.Samples.{sample}
use yaml.NodeParser.Examples.{sample_run}
use yaml.Node.{Node, new_node, scalar_node, folded_style}
use yaml.Encoder.State.{Sink, Text, Encoder, Error, new}
use yaml.Encoder.Node.{encode, close}

-- `e.emitter.Emit`
abbrev pub emitter_sink : Sink State.Emitter State.Error
emitter_sink = record {
  emit = λ event final e. elim (Machine.emit event final e) [
    | State.ok u e' ↦ ok u e'
    | State.err x e' ↦ err x e'
    | State.panic ↦ panic
    | State.exhausted ↦ exhausted
  ];
}

abbrev plain_text : Text
plain_text = record { valid = λ s. true; encode = λ s. s; encoded_len = λ n. n }

abbrev written : Outcome (Encoder State.Emitter) (Error State.Error) (Unit {0}) → Bytes
written (ok u e) = e.emitter.writer.written
written _ = []

-- The document that was decoded, as the encoder and the emitter write it.
sample_written :
    written (
      (encode emitter_sink sample plain_text
            (suc sample_run.1.next)
            sample_run.1.heap
            (sample_run.1.heap 0)
          >> close emitter_sink)
        (new (State.new buffer) [] []))
    ≡ codes "k: &x 1\nl:\n    - *x\n"
unfolding encode close Machine.emit sample_run
sample_written = refl

-- A folded scalar that ends in a line break: Emit panics, and so does Encode.
abbrev folded : Node
folded = record new_node { kind = scalar_node; style = folded_style; value = codes "a\n" }

folded_breaks :
    encode emitter_sink sample plain_text 1 (λ a. folded) folded (new (State.new buffer) [] [])
    ≡ panic
unfolding encode Machine.emit
folded_breaks = refl
