-- ===== src/Token.antt =====
-- The tokens, comments and positions of internal/yamlh/yamlh.go.
use yaml.Common.{ℕ, Bool, Bytes, ◌==◌, ℤ}
use yaml.Event.{Position, Encoding}

pub data TokenType : Type 0 where
  no_token stream_start_token stream_end_token : TokenType
  version_directive_token tag_directive_token document_start_token document_end_token : TokenType
  block_sequence_start_token block_mapping_start_token block_end_token : TokenType
  flow_sequence_start_token flow_sequence_end_token : TokenType
  flow_mapping_start_token flow_mapping_end_token : TokenType
  block_entry_token flow_entry_token key_token value_token : TokenType
  alias_token anchor_token tag_token scalar_token : TokenType

-- The value of the constant.
abbrev token_number : TokenType → ℕ
token_number no_token = 0
token_number stream_start_token = 1
token_number stream_end_token = 2
token_number version_directive_token = 3
token_number tag_directive_token = 4
token_number document_start_token = 5
token_number document_end_token = 6
token_number block_sequence_start_token = 7
token_number block_mapping_start_token = 8
token_number block_end_token = 9
token_number flow_sequence_start_token = 10
token_number flow_sequence_end_token = 11
token_number flow_mapping_start_token = 12
token_number flow_mapping_end_token = 13
token_number block_entry_token = 14
token_number flow_entry_token = 15
token_number key_token = 16
token_number value_token = 17
token_number alias_token = 18
token_number anchor_token = 19
token_number tag_token = 20
token_number scalar_token = 21

infix 50 ◌is_token◌
abbrev pub ◌is_token◌ : TokenType → TokenType → Bool
a is_token b = token_number a == token_number b

pub record YamlToken : Type 0 where
  pub token_type : TokenType
  pub start_mark : Position
  pub end_mark : Position
  pub encoding : Encoding
  pub value : Bytes
  pub suffix : Bytes
  pub prefix : Bytes
  pub style : ℕ
  pub major : ℤ
  pub minor : ℤ

-- The positions that only the scanner reads are left out.
pub record YamlComment : Type 0 where
  pub token_mark : Position
  pub head : Bytes
  pub line : Bytes
  pub foot : Bytes
