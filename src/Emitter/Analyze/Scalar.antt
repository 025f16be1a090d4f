-- ===== src/Emitter/Analyze/Scalar.antt =====
-- analyzeScalar of internal/emitter/analyze.go: which styles a value allows.
use yaml.Common.{
  ℕ, Bool, true, false, not, ◌&&◌, ◌||◌, some, [], ◌∷◌, Bytes, length, is_empty, get_elem?, take,
  ltb, leb, ◌==◌, if◌then◌else◌, codes, bytes_eq, one_of,
}
use yaml.Chars.{is_break, is_blankz, is_printable, blank, width}
use yaml.Emitter.State.{ScalarData, M, ◌>>=◌, pure, checked, slice, panic_here, for_value}

abbrev no_plain : ScalarData → ScalarData
no_plain sd = record sd { flow_plain_allowed = false; block_plain_allowed = false }

-- What the first character forbids.
unfoldable pub first_indicator : ℕ → Bool → ScalarData → ScalarData
first_indicator c next_whitespace sd =
    if one_of (codes "#,[]{}&*!|>'\"%@` ") c
    then no_plain sd
    else if c == b'?' || c == b':'
    then record sd {
      flow_plain_allowed = false;
      block_plain_allowed = sd.block_plain_allowed && not next_whitespace;
    }
    else if c == b'-' && next_whitespace
    then no_plain sd
    else sd

-- What a later character forbids.
unfoldable pub later_indicator : ℕ → Bool → Bool → ScalarData → ScalarData
later_indicator c previous_whitespace next_whitespace sd =
    if one_of (codes ",?[]{}") c
    then record sd { flow_plain_allowed = false }
    else if c == b':'
    then record sd {
      flow_plain_allowed = false;
      block_plain_allowed = sd.block_plain_allowed && not next_whitespace;
    }
    else if c == b'#' && previous_whitespace
    then no_plain sd
    else sd

-- A tab, and a character that cannot be printed.
unfoldable pub special_char : ℕ → Bool → ScalarData → ScalarData
special_char c printable sd =
    if c == 0x09
    then record sd { block_plain_allowed = false; single_quoted_allowed = false }
    else if printable
    then sd
    else record sd {
      flow_plain_allowed = false;
      block_plain_allowed = false;
      single_quoted_allowed = false;
      block_allowed = false;
    }

-- The variables of the loop of analyzeScalar.
pub record Scan : Type 0 where
  pub scalar : ScalarData
  pub previous_whitespace : Bool
  pub previous_space : Bool
  pub previous_break : Bool
  pub first : Bool

-- A space.
unfoldable at_space : Bool → Bool → ScalarData → ScalarData
at_space last previous_break sd = record sd {
  block_plain_allowed = sd.block_plain_allowed && not (last || previous_break);
  flow_plain_allowed = sd.flow_plain_allowed && not (last || previous_break);
  block_allowed = sd.block_allowed && not last;
  single_quoted_allowed = sd.single_quoted_allowed && not previous_break;
}

-- A line break.
unfoldable at_break : Bool → ScalarData → ScalarData
at_break previous_space sd = record sd {
  multiline = true;
  block_plain_allowed = false;
  flow_plain_allowed = false;
  single_quoted_allowed = sd.single_quoted_allowed && not previous_space;
  block_allowed = sd.block_allowed && not previous_space;
}

-- The switch that keeps track of spaces and breaks.
unfoldable pub spacing : ℕ → Bool → Bool → Scan → Scan
unfolding at_space at_break
spacing c break last s =
    if c == b' '
    then record s {
      scalar = at_space last s.previous_break s.scalar;
      previous_space = true;
      previous_break = false;
    }
    else if break
    then record s {
      scalar = at_break s.previous_space s.scalar;
      previous_space = false;
      previous_break = true;
    }
    else record s { previous_space = false; previous_break = false }

-- What a round of the loop makes of its character and what it has found out about it.
unfoldable pub scan_char : Scan → ℕ → Bool → Bool → Bool → Bool → Scan
unfolding first_indicator later_indicator special_char spacing
scan_char s c next_whitespace last printable break =
    let sd =
      if s.first
      then first_indicator c next_whitespace s.scalar
      else later_indicator c s.previous_whitespace next_whitespace s.scalar in
    spacing c break last (record s { scalar = special_char c printable sd; first = false })

unfoldable pub scan_round : Scan → Bytes → M (Scan × Bytes)
unfolding scan_char width blank is_printable is_break is_blankz
scan_round s [] = panic_here
scan_round s (c ∷ value) = do
  let w = width c
  next_char ← if ltb w (length (c ∷ value)) then checked (get_elem? (c ∷ value) w) else pure 0
  let last = leb (length (c ∷ value)) w
  let next_whitespace = last || blank next_char
  let sd =
      if s.first
      then first_indicator c next_whitespace s.scalar
      else later_indicator c s.previous_whitespace next_whitespace s.scalar
  printable ← checked (if c == 0x09 then some true else is_printable (c ∷ value))
  break ← checked (if c == b' ' then some false else is_break (c ∷ value) 0)
  let s' = scan_char s c next_whitespace last printable break
  previous_whitespace ← checked (is_blankz (c ∷ value) 0)
  rest ← slice w (c ∷ value)
  pure (record s' { previous_whitespace = previous_whitespace }, rest)

-- The result for an empty value.
abbrev pub empty_scalar : ScalarData
empty_scalar = record {
  value = [];
  multiline = false;
  flow_plain_allowed = false;
  block_plain_allowed = true;
  single_quoted_allowed = true;
  block_allowed = false;
  style = 0;
}

-- `---` and `...` at the start forbid the plain style.
unfoldable pub initial_scan : Bytes → Scan
initial_scan value =
    let marker =
      leb 3 (length value)
      && (bytes_eq (take 3 value) (codes "---") || bytes_eq (take 3 value) (codes "...")) in
    record {
      scalar = record {
        value = value;
        multiline = false;
        flow_plain_allowed = not marker;
        block_plain_allowed = not marker;
        single_quoted_allowed = true;
        block_allowed = true;
        style = 0;
      };
      previous_whitespace = true;
      previous_space = false;
      previous_break = false;
      first = true;
    }

unfoldable pub analyze_scalar : Bytes → M ScalarData
unfolding initial_scan scan_round for_value
analyze_scalar value =
    if is_empty value
    then pure empty_scalar
    else (do s ← for_value scan_round (initial_scan value) value; pure s.scalar)
