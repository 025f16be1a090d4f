-- ===== src/Encoder/State.antt =====
-- The Encoder of encode.go, over what takes its events, and its errors.
use yaml.Common.{ℕ, Bool, false, Bytes}
use yaml.Event.{Event}
use yaml.Run.{Outcome, ok, err, panic, exhausted}
use yaml.Resolve.Tags.{Cache, long_tag, short_tag}

-- The emitter as the encoder uses it: Emit with its flag, over states and errors.
pub record Sink (S E : Type 0) : Type 0 where
  pub emit : Event → Bool → S → Outcome S E (Unit {0})

-- What the encoder uses of Go's library: utf8.ValidString and the encoding of base64 with its length.
pub record Text : Type 0 where
  pub valid : Bytes → Bool
  pub encode : Bytes → Bytes
  pub encoded_len : ℕ → ℕ

-- `flow` is set for struct fields only. The caches are those of resolve.go.
pub record Encoder (S : Type 0) : Type 0 where
  pub emitter : S
  pub flow : Bool
  pub started : Bool
  pub shorts : Cache
  pub longs : Cache

-- NewEncoder, over caches that are there.
abbrev pub new : {S : Type 0} → S → Cache → Cache → Encoder S
new emitter shorts longs = record {
  emitter = emitter;
  flow = false;
  started = false;
  shorts = shorts;
  longs = longs;
}

-- An error of Emit or of Resolve; data with the tag `!!binary` that is no text, and data that is no text
-- with another tag; a node of an unknown kind.
pub data Error (E : Type 0) : Type 0 where
  emitting : E → Error E
  resolving : Bytes → Error E
  binary_not_encoded : Error E
  invalid_utf8 : Bytes → Error E
  unknown_kind : ℕ → Error E

abbrev pub M : Type 0 → Type 0 → Type 0 → Type 0
M S E A = Encoder S → Outcome (Encoder S) (Error E) A

-- Emit on the emitter of the encoder.
unfoldable pub emit : {S E : Type 0} → Sink S E → Bool → Event → M S E (Unit {0})
emit sink final event e = elim (sink.emit event final e.emitter) [
  | ok u s ↦ ok tt (record e { emitter = s })
  | err x s ↦ err (emitting x) (record e { emitter = s })
  | panic ↦ panic
  | exhausted ↦ exhausted
]

-- resolve.LongTag and resolve.ShortTag
unfoldable pub to_long : {S E : Type 0} → Bytes → M S E Bytes
unfolding long_tag
to_long tag e = let (long, longs) = long_tag tag e.longs in ok long (record e { longs = longs })

unfoldable pub to_short : {S E : Type 0} → Bytes → M S E Bytes
unfolding short_tag
to_short tag e =
    let (short, shorts) = short_tag tag e.shorts in ok short (record e { shorts = shorts })
