-- ===== src/Encoder/Examples.antt =====
-- Encoders of nodes that the decoder has built: witnesses of the theorems, and tests.
use yaml.Common.{suc, some, ◌∷◌, arith, ℕ, ◌≡◌, refl, Bool, true, List, [], inl}
use yaml.Event.{Event}
use yaml.Run.{Outcome, ok}
use yaml.Resolve.Samples.{sample}
use yaml.Node.{Node}
use yaml.Parser.Phrase.{Phrase}
use yaml.Parser.Grammar.{whole_stream, documents}
use yaml.Parser.Trace.{types}
use yaml.NodeParser.Collection.{parse}
use yaml.NodeParser.Stream.{no_document}
use yaml.Encoder.Decoded.{encode-decoded}
use yaml.NodeParser.Examples.{first_state, no_nodes, no_nodes-Solid, sample_events, sample_run}
use yaml.Encoder.State.{Text, Encoder, Error, new}
use yaml.Encoder.Node.{encode, close}
use yaml.Encoder.Trees.{recorder}
use yaml.Encoder.Stream.{Encodes, no_call, call, close-Phrase}
use yaml.Encoder.Replay.{collector}
use yaml.Encoder.Drives.{recorded, Drives}
use yaml.Encoder.Mirror.{Mirrors, encode-Drives}
use yaml.Encoder.Writer.{emitter_sink}
use yaml.Emitter.Machine
use yaml.Emitter.State
use yaml.Emitter.Samples.{buffer}
use yaml.Encoder.Documents.{Expects, Root}

abbrev plain_text : Text
plain_text = record { valid = λ s. true; encode = λ s. s; encoded_len = λ n. n }

abbrev takes_all : List Event → Event → Bool
takes_all log event = true

-- The nodes of the sample document of the decoder.
unfoldable decoded : ℕ → Node
unfolding sample_run
decoded a = sample_run.1.heap a

decoded-Root : Root 3 decoded (decoded 0)
unfolding decoded
decoded-Root = inl (
  refl,
  1,
  refl,
  ((2, refl, tt), ((3, refl, tt), ((4, refl, tt), ((5, refl, ((6, refl, tt), tt)), tt)))),
)

abbrev Run : Type 0
Run =
    (calls : ℕ) × (e : Encoder (List Event)) × Encodes (recorder takes_all) sample plain_text
      decoded (new [] [] []) calls e

run :
    (r : Outcome (Encoder (List Event)) (Error (Unit {0})) (Unit {0}))
    → encode (recorder takes_all) sample plain_text 4 decoded (decoded 0) (new [] [] []) ≡ r
    → Run
run (ok tt e) eq = (1, e, call 3 (decoded 0) decoded-Root eq no_call)
run _ eq = (0, new [] [] [], no_call)

unfoldable one_run : Run
unfolding run encode decoded
one_run =
    run (encode (recorder takes_all) sample plain_text 4 decoded (decoded 0) (new [] [] [])) refl

-- Close behind the call.
abbrev state_of :
    Outcome (Encoder (List Event)) (Error (Unit {0})) (Unit {0}) → Encoder (List Event)
state_of (ok tt e) = e
state_of _ = new [] [] []

unfoldable closed : Encoder (List Event)
unfolding one_run close
closed = state_of (close (recorder takes_all) one_run.1)

-- The events of the document that was decoded, and of the end of the stream.
emitted_again : types closed.emitter ≡ types sample_events
unfolding closed
emitted_again = refl

-- The same call over the emitter of internal/emitter.
abbrev fresh : Encoder State.Emitter
fresh = new (State.new buffer) [] []

abbrev Written : Type 0
Written =
    (calls : ℕ) × (e : Encoder State.Emitter) × Encodes emitter_sink sample plain_text decoded fresh
      calls e

write_run :
    (r : Outcome (Encoder State.Emitter) (Error State.Error) (Unit {0}))
    → encode emitter_sink sample plain_text 4 decoded (decoded 0) fresh ≡ r
    → Written
write_run (ok tt e) eq = (1, e, call 3 (decoded 0) decoded-Root eq no_call)
write_run _ eq = (0, fresh, no_call)

unfoldable one_written : Written
unfolding write_run
one_written = write_run (encode emitter_sink sample plain_text 4 decoded (decoded 0) fresh) refl

-- The call succeeds.
one_call : one_written.0 ≡ 1
unfolding one_written encode decoded Machine.emit
one_call = refl

encode-Drives_example :
    (log : Encoder (List Event)) × Encodes collector sample plain_text decoded
      (new [] [] [])
      one_written.0
      log
    × Mirrors emitter_sink (State.new buffer) one_written.1 log
    × Drives emitter_sink
        (State.new buffer)
        (Expects (documents ∷ []))
        (recorded (encode collector sample plain_text 4 decoded (decoded 0) log))
        (encode emitter_sink sample plain_text 4 decoded (decoded 0) one_written.1)
encode-Drives_example =
    encode-Drives emitter_sink (State.new buffer) sample plain_text (λ s. refl) decoded [] [] 3
      (decoded 0) tt one_written.2 decoded-Root

close-Phrase_example : Phrase whole_stream (types closed.emitter)
unfolding closed one_run
close-Phrase_example =
    close-Phrase sample takes_all plain_text (λ s. refl) decoded [] [] tt one_run.2 refl

sample_parsed : parse sample 13 first_state ≡ ok (some 0) sample_run.1
unfolding parse sample_run
sample_parsed = refl

encode-decoded_example :
    Drives emitter_sink
      (State.new buffer)
      (Expects (documents ∷ []))
      (recorded (
        encode collector sample plain_text
          (suc sample_run.1.next)
          sample_run.1.heap
          (sample_run.1.heap 0)
          (new [] sample_run.1.shorts [])))
      (encode emitter_sink sample plain_text
        (suc sample_run.1.next)
        sample_run.1.heap
        (sample_run.1.heap 0)
        (new (State.new buffer) sample_run.1.shorts []))
encode-decoded_example =
    encode-decoded emitter_sink (State.new buffer) sample plain_text (λ s. refl) sample_events
      no_nodes 0 [] [] 13 refl tt no_nodes-Solid (omega arith) no_document sample_parsed
