-- ===== src/Parser/State.antt =====
-- The parser of internal/parserc/parser.go, as far as parserc.go uses it, and its errors.
use yaml.Common.{
  ℕ, suc, Bool, true, false, Option, none, some, List, [], ◌∷◌, Bytes, is_empty, codes, ◌==◌,
  if◌then◌else◌,
}
use yaml.Event.{Position, TagDirective}
use yaml.Token.{YamlToken, YamlComment}
use yaml.Run.{Outcome, ok, err, panic}

pub data ParserState : Type 0 where
  stream_start_state implicit_document_start_state document_start_state : ParserState
  document_content_state document_end_state : ParserState
  block_node_state block_node_or_indentless_sequence_state flow_node_state : ParserState
  block_sequence_first_entry_state block_sequence_entry_state : ParserState
  indentless_sequence_entry_state : ParserState
  block_mapping_first_key_state block_mapping_key_state block_mapping_value_state : ParserState
  flow_sequence_first_entry_state flow_sequence_entry_state : ParserState
  flow_sequence_entry_mapping_key_state flow_sequence_entry_mapping_value_state : ParserState
  flow_sequence_entry_mapping_end_state : ParserState
  flow_mapping_first_key_state flow_mapping_key_state : ParserState
  flow_mapping_value_state flow_mapping_empty_value_state end_state : ParserState

-- A token that the scanner delivers, with the comments that it has appended to the queue of comments
-- since the token before.
pub record Delivery : Type 0 where
  pub token : YamlToken
  pub found : List YamlComment

-- The scanner is the list of what it delivers, behind which it returns an error. `deliveries` begins
-- with the token at Tokens_head, and `comments` with the comment at Comments_head. The stacks
-- `states` and `marks` have their top at the head. A nil Stem_comment is `none`.
pub record Parser : Type 0 where
  pub deliveries : List Delivery
  pub token_available : Bool
  pub tokens_parsed : ℕ
  pub stream_end_produced : Bool
  pub comments : List YamlComment
  pub head_comment : Bytes
  pub line_comment : Bytes
  pub foot_comment : Bytes
  pub tail_comment : Bytes
  pub stem_comment : Option Bytes
  pub state : ParserState
  pub states : List ParserState
  pub marks : List Position
  pub tag_directives : List TagDirective

-- New, before anything is read.
abbrev pub new : List Delivery → Parser
new deliveries = record {
  deliveries = deliveries;
  token_available = false;
  tokens_parsed = 0;
  stream_end_produced = false;
  comments = [];
  head_comment = [];
  line_comment = [];
  foot_comment = [];
  tail_comment = [];
  stem_comment = none;
  state = stream_start_state;
  states = [];
  marks = [];
  tag_directives = [];
}

pub data ErrorType : Type 0 where
  no_error reader_error scanner_error parser_error writer_error emitter_error : ErrorType

-- The parts of the text of an error: the line, if it is known, and the problem.
pub record Failure : Type 0 where
  pub line : Option ℕ
  pub problem : Bytes

abbrev is_scanner_error : ErrorType → Bool
is_scanner_error scanner_error = true
is_scanner_error _ = false

-- The error of buildParserError for any type but NO_ERROR.
unfoldable failure_at : ErrorType → Bytes → ℕ → ℕ → Failure
failure_at type problem problem_line context_line =
    let line = if context_line == 0 then problem_line else context_line in
    record {
      line = if line == 0 then none else some (if is_scanner_error type then suc line else line);
      problem = if is_empty problem then codes "unknown problem parsing YAML content" else problem;
    }

-- buildParserError; `none` is a nil error.
unfoldable build_parser_error : ErrorType → Bytes → ℕ → ℕ → Option Failure
unfolding failure_at
build_parser_error no_error problem problem_line context_line = none
build_parser_error type problem problem_line context_line =
    some (failure_at type problem problem_line context_line)

-- What Parse returns as its error: one of the scanner, or one that buildParserError builds.
pub data Error : Type 0 where
  scanning : Error
  built : Option Failure → Error

abbrev pub M : Type 0 → Type 0
M A = Parser → Outcome Parser Error A

-- `return nil, buildParserError(yamlh.PARSER_ERROR, …)`
unfoldable pub fail_at : {A : Type 0} → Bytes → ℕ → ℕ → M A
unfolding build_parser_error
fail_at problem problem_line context_line p =
    err (built (build_parser_error parser_error problem problem_line context_line)) p

abbrev pub set_state : ParserState → M (Unit {0})
set_state s p = ok tt (record p { state = s })

abbrev pub push_state : ParserState → M (Unit {0})
push_state s p = ok tt (record p { states = s ∷ p.states })

-- `parser.State = parser.States[len(parser.States)-1]` and the shortening of the stack
unfoldable pub pop_state : M (Unit {0})
pop_state p = elim p.states [
  | [] ↦ panic
  | s ∷ rest ↦ ok tt (record p { state = s; states = rest })
]

abbrev pub push_mark : Position → M (Unit {0})
push_mark m p = ok tt (record p { marks = m ∷ p.marks })

-- The top of the stack of marks, which is removed.
unfoldable pub pop_mark : M Position
pop_mark p = elim p.marks [ [] ↦ panic | m ∷ rest ↦ ok m (record p { marks = rest }) ]
