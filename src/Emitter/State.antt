-- ===== src/Emitter/State.antt =====
-- The Emitter record of internal/emitter/emitter.go, and the monad of its methods.
use yaml.Common.{
  ℕ, zero, suc, Bool, true, false, Option, none, some, List, [], ◌∷◌, Bytes, length, drop, leb,
  if◌then◌else◌, ℤ, pos, minus_one, String,
}
use yaml.Event.{Event, EventType, Encoding, any_encoding, TagDirective}

-- The io.Writer, which the program does not implement: what it has taken so far, and how it answers
-- a Write of a chunk. `none` takes the whole chunk with a nil error; `some n` takes the first `n`
-- bytes and returns an error, as the contract of io.Writer wants of a short write.
pub record Writer : Type 0 where
  pub written : Bytes
  pub fault : Bytes → Bytes → Option ℕ

pub data EmitterState : Type 0 where
  emit_stream_start emit_first_document_start emit_document_start : EmitterState
  emit_document_content emit_document_end : EmitterState
  emit_flow_sequence_first_item emit_flow_sequence_trail_item emit_flow_sequence_item : EmitterState
  emit_flow_mapping_first_key emit_flow_mapping_trail_key emit_flow_mapping_key : EmitterState
  emit_flow_mapping_simple_value emit_flow_mapping_value : EmitterState
  emit_block_sequence_first_item emit_block_sequence_item : EmitterState
  emit_block_mapping_first_key emit_block_mapping_key : EmitterState
  emit_block_mapping_simple_value emit_block_mapping_value emit_end : EmitterState

-- `none` stands for a nil anchor.
pub record AnchorData : Type 0 where
  pub anchor : Option Bytes
  pub is_alias : Bool

pub record TagData : Type 0 where
  pub handle : Bytes
  pub suffix : Bytes

pub record ScalarData : Type 0 where
  pub value : Bytes
  pub multiline : Bool
  pub flow_plain_allowed : Bool
  pub block_plain_allowed : Bool
  pub single_quoted_allowed : Bool
  pub block_allowed : Bool
  pub style : ℕ

-- The stacks `states` and `indent_stack` have their top at the head.
pub record Emitter : Type 0 where
  pub writer : Writer
  pub encoding : Encoding
  pub indent : ℕ
  pub best_width : ℤ
  pub state : EmitterState
  pub states : List EmitterState
  pub events_queue : List Event
  pub events_head : ℕ
  pub indent_stack : List ℤ
  pub tag_directives : List TagDirective
  pub indent_level : ℤ
  pub flow_level : ℤ
  pub root_context : Bool
  pub simple_key_context : Bool
  pub line : ℕ
  pub column : ℕ
  pub last_char_whitespace : Bool
  pub last_char_indent : Bool
  pub open_ended : Bool
  pub foot_indent : ℤ
  pub anchor_data : AnchorData
  pub tag_data : TagData
  pub scalar_data : ScalarData
  pub head_comment : Bytes
  pub line_comment : Bytes
  pub foot_comment : Bytes
  pub tail_comment : Bytes
  pub key_line_comment : Bytes

-- The zero value of `scalarData`.
abbrev pub no_scalar : ScalarData
no_scalar = record {
  value = [];
  multiline = false;
  flow_plain_allowed = false;
  block_plain_allowed = false;
  single_quoted_allowed = false;
  block_allowed = false;
  style = 0;
}

-- New
abbrev pub new : Writer → Emitter
new w = record {
  writer = w;
  encoding = any_encoding;
  indent = 4;
  best_width = minus_one;
  state = emit_stream_start;
  states = [];
  events_queue = [];
  events_head = 0;
  indent_stack = [];
  tag_directives = [];
  indent_level = pos 0;
  flow_level = pos 0;
  root_context = false;
  simple_key_context = false;
  line = 0;
  column = 0;
  last_char_whitespace = false;
  last_char_indent = false;
  open_ended = false;
  foot_indent = pos 0;
  anchor_data = record { anchor = none; is_alias = false };
  tag_data = record { handle = []; suffix = [] };
  scalar_data = no_scalar;
  head_comment = [];
  line_comment = [];
  foot_comment = [];
  tail_comment = [];
  key_line_comment = [];
}

-- What the methods return by errors.New and fmt.Errorf.
pub data Error : Type 0 where
  message : String → Error
  write_error : Error
  unexpected_node : EventType → Error

-- How a method ends: with a value, with an error, by a Go panic, or by running out of the
-- fuel of a loop.
pub data Outcome (A : Type 0) : Type 0 where
  ok : A → Emitter → Outcome A
  err : Error → Emitter → Outcome A
  panic : Outcome A
  exhausted : Outcome A

abbrev pub M : Type 0 → Type 0
M A = Emitter → Outcome A

infixl 5 ◌>>=◌ ◌>>◌
abbrev pub ◌>>=◌ : {A B : Type 0} → M A → (A → M B) → M B
◌>>=◌ m f e = elim (m e) [
  | ok a e' ↦ f a e'
  | err x e' ↦ err x e'
  | panic ↦ panic
  | exhausted ↦ exhausted
]

abbrev pub ◌>>◌ : {B : Type 0} → M (Unit {0}) → M B → M B
m >> k = m >>= λ _. k

abbrev pub pure : {A : Type 0} → A → M A
pure a e = ok a e

abbrev pub done : M (Unit {0})
done e = ok tt e

abbrev pub get : M Emitter
get e = ok e e

abbrev pub modify : (Emitter → Emitter) → M (Unit {0})
modify f e = ok tt (f e)

abbrev pub fail : {A : Type 0} → Error → M A
fail x e = err x e

-- The value of an expression that indexes slices.
abbrev pub checked : {A : Type 0} → Option A → M A
checked none e = panic
checked (some a) e = ok a e

abbrev pub panic_here : {A : Type 0} → M A
panic_here e = panic

abbrev pub when : Bool → M (Unit {0}) → M (Unit {0})
when true m e = m e
when false m e = ok tt e

-- `b[n:]`
abbrev pub slice : ℕ → Bytes → M Bytes
slice n b e = if leb n (length b) then ok (drop n b) e else panic

-- `for len(value) > 0 { … }`: the body takes the other variables of the loop and the value, and
-- returns both.
module _ {S : Type 0} (body : S → Bytes → M (S × Bytes)) where
  unfoldable pub walk : ℕ → S → Bytes → M S
  walk fuel s [] e = ok s e
  walk zero s (c ∷ value) e = exhausted
  walk (suc fuel) s (c ∷ value) e = (do (s', rest) ← body s (c ∷ value); walk fuel s' rest) e

  -- A round that goes on drops a byte or more of well-formed text, so that the length is enough.
  unfoldable pub for_value : S → Bytes → M S
  unfolding walk
  for_value s value = walk (length value) s value
