-- ===== src/Node.antt =====
-- Nodes of yaml.go: the tree that the decoder builds and the encoder writes.
pub mod Tag
pub mod ShortTag
pub mod Examples
use yaml.Common.{
  ℕ, Bool, false, not, ◌&&◌, Option, none, some, List, [], Bytes, is_empty, bit_and, ◌==◌,
}

pub data Kind : Type 0 where
  zero_kind document_node sequence_node mapping_node scalar_node alias_node : Kind

-- The value of the constant; a new node has the kind 0.
abbrev pub kind_number : Kind → ℕ
kind_number zero_kind = 0
kind_number document_node = 1
kind_number sequence_node = 2
kind_number mapping_node = 4
kind_number scalar_node = 8
kind_number alias_node = 16

infix 50 ◌is_kind◌
abbrev pub ◌is_kind◌ : Kind → Kind → Bool
a is_kind b = kind_number a == kind_number b

-- The bits of a Style.
abbrev pub tagged_style : ℕ
tagged_style = 1

abbrev pub double_quoted_style : ℕ
double_quoted_style = 2

abbrev pub single_quoted_style : ℕ
single_quoted_style = 4

abbrev pub literal_style : ℕ
literal_style = 8

abbrev pub folded_style : ℕ
folded_style = 16

abbrev pub flow_style : ℕ
flow_style = 32

-- `SingleQuotedStyle|DoubleQuotedStyle|LiteralStyle|FoldedStyle`
abbrev pub quoted_styles : ℕ
quoted_styles = 30

-- `style & bits != 0`
abbrev pub has_style : ℕ → ℕ → Bool
has_style style bits = not (bit_and style bits == 0)

-- A pointer to a node is an address, and a nil pointer is missing. An empty Content is nil unless it is
-- `allocated`: a slice of length 0 that is not nil.
pub record Node : Type 0 where
  pub kind : Kind
  pub style : ℕ
  pub tag : Bytes
  pub value : Bytes
  pub anchor : Bytes
  pub alias : Option ℕ
  pub content : List (Option ℕ)
  pub allocated : Bool
  pub head_comment : Bytes
  pub line_comment : Bytes
  pub foot_comment : Bytes
  pub line : ℕ
  pub column : ℕ

abbrev pub new_node : Node
new_node = record {
  kind = zero_kind;
  style = 0;
  tag = [];
  value = [];
  anchor = [];
  alias = none;
  content = [];
  allocated = false;
  head_comment = [];
  line_comment = [];
  foot_comment = [];
  line = 0;
  column = 0;
}

abbrev is_nil : Option ℕ → Bool
is_nil none = Bool.true
is_nil (some a) = false

-- IsZero
unfoldable pub is_zero : Node → Bool
is_zero n =
    n.kind is_kind zero_kind
    && n.style == 0
    && is_empty n.tag
    && is_empty n.value
    && is_empty n.anchor
    && is_nil n.alias
    && is_empty n.content
    && not n.allocated
    && is_empty n.head_comment
    && is_empty n.line_comment
    && is_empty n.foot_comment
    && n.line == 0
    && n.column == 0
