-- ===== src/Event.antt =====
-- The events of internal/yamlh/yamlh.go. A style is the int8 that scalars, sequences and mappings
-- share.
pub mod Make
use yaml.Common.{ℕ, Bool, false, none, Option, List, Bytes, ◌==◌, ℤ, codes, [], ◌∷◌}

pub data Encoding : Type 0 where
  any_encoding utf8_encoding utf16le_encoding utf16be_encoding : Encoding

pub data EventType : Type 0 where
  no_event stream_start stream_end document_start document_end alias scalar : EventType
  sequence_start sequence_end mapping_start mapping_end tail_comment_event : EventType

-- The value of the constant.
abbrev pub number : EventType → ℕ
number no_event = 0
number stream_start = 1
number stream_end = 2
number document_start = 3
number document_end = 4
number alias = 5
number scalar = 6
number sequence_start = 7
number sequence_end = 8
number mapping_start = 9
number mapping_end = 10
number tail_comment_event = 11

infix 50 ◌is_type◌
abbrev pub ◌is_type◌ : EventType → EventType → Bool
a is_type b = number a == number b

pub record Position : Type 0 where
  pub index : ℕ
  pub line : ℕ
  pub column : ℕ

-- The zero value of Position.
abbrev pub origin : Position
origin = record { index = 0; line = 0; column = 0 }

pub record VersionDirective : Type 0 where
  pub major : ℤ
  pub minor : ℤ

pub record TagDirective : Type 0 where
  pub handle : Bytes
  pub prefix : Bytes

pub record Event : Type 0 where
  pub event_type : EventType
  pub start_mark : Position
  pub end_mark : Position
  pub encoding : Encoding
  pub version_directive : Option VersionDirective
  pub tag_directives : List TagDirective
  pub head_comment : Bytes
  pub line_comment : Bytes
  pub foot_comment : Bytes
  pub tail_comment : Bytes
  pub anchor : Bytes
  pub tag : Bytes
  pub value : Bytes
  pub implicit : Bool
  pub quoted_implicit : Bool
  pub style : ℕ

-- The zero value of Event, but for the type and the marks.
abbrev pub bare_event : EventType → Position → Position → Event
bare_event t start end = record {
  event_type = t;
  start_mark = start;
  end_mark = end;
  encoding = any_encoding;
  version_directive = none;
  tag_directives = [];
  head_comment = [];
  line_comment = [];
  foot_comment = [];
  tail_comment = [];
  anchor = [];
  tag = [];
  value = [];
  implicit = false;
  quoted_implicit = false;
  style = 0;
}

-- Scalar styles: `1 << iota` from the second constant of the block.
abbrev pub any_scalar_style : ℕ
any_scalar_style = 0

abbrev pub plain_scalar_style : ℕ
plain_scalar_style = 2

abbrev pub single_quoted_scalar_style : ℕ
single_quoted_scalar_style = 4

abbrev pub double_quoted_scalar_style : ℕ
double_quoted_scalar_style = 8

abbrev pub literal_scalar_style : ℕ
literal_scalar_style = 16

abbrev pub folded_scalar_style : ℕ
folded_scalar_style = 32

-- The styles of sequences and mappings: `iota` from ANY_SEQUENCE_STYLE and ANY_MAPPING_STYLE on.
abbrev pub block_sequence_style : ℕ
block_sequence_style = 1

abbrev pub block_mapping_style : ℕ
block_mapping_style = 1

abbrev pub flow_sequence_style : ℕ
flow_sequence_style = 2

abbrev pub flow_mapping_style : ℕ
flow_mapping_style = 2

-- common.DefaultTagDirectives
abbrev pub default_tag_directives : List TagDirective
default_tag_directives =
    record { handle = codes "!"; prefix = codes "!" }
    ∷ record { handle = codes "!!"; prefix = codes "tag:yaml.org,2002:" }
    ∷ []
