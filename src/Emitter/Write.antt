-- ===== src/Emitter/Write.antt =====
-- internal/emitter/write.go: indentation, indicators, anchors and tags.
pub mod Comment
pub mod Plain
pub mod Quoted
pub mod Block
use yaml.Common.{
  ℕ, zero, suc, ◌+◌, ◌-◌, ◌/◌, ◌%◌, Bool, true, false, not, ◌&&◌, ◌||◌, [], ◌∷◌, Bytes, ltb, ◌==◌,
  if◌then◌else◌, floor_zero, is_nat, minus_one,
}
use yaml.Chars.{width, alpha}
use yaml.Emitter.State.{
  Emitter, M, ◌>>=◌, ◌>>◌, pure, done, get, modify, when, exhausted, slice, panic_here, for_value,
}
use yaml.Emitter.Output.{put, put_break, write, write_all}

-- writeBom
unfoldable pub write_bom : M (Unit {0})
unfolding write_all
write_bom = write_all (0xEF ∷ 0xBB ∷ 0xBF ∷ [])

-- `for e.column < indent { put(' ') }`, in at most `rounds` rounds
unfoldable pub pad : ℕ → ℕ → M (Unit {0})
unfolding put
pad zero indent e = if ltb e.column indent then exhausted else done e
pad (suc rounds) indent e =
    let again = (put b' ' >> pad rounds indent) e in if ltb e.column indent then again else done e

-- The test by which writeIndent starts a new line.
unfoldable pub needs_break : Emitter → ℕ → Bool
needs_break e indent =
    not e.last_char_indent
    || ltb indent e.column
    || (e.column == indent && not e.last_char_whitespace)

-- writeIndent; the column grows in each round of the padding, so `indent` rounds are enough.
unfoldable pub write_indent : M (Unit {0})
unfolding pad needs_break put_break
write_indent = do
  e ← get
  let indent = floor_zero e.indent_level
  when (needs_break e indent) put_break
  e ← get
  when (is_nat e.foot_indent indent) put_break
  pad indent indent
  modify (λ e. record e { last_char_whitespace = true; foot_indent = minus_one })

-- `if cond && !e.lastCharWhitepace { put(' ') }`
unfoldable pub separate : Bool → M (Unit {0})
unfolding put
separate cond = do e ← get; when (cond && not e.last_char_whitespace) (put b' ')

unfoldable pub write_indicator : Bytes → Bool → Bool → Bool → M (Unit {0})
unfolding separate write_all
write_indicator indicator need_whitespace is_whitespace is_indention = do
  separate need_whitespace
  write_all indicator
  modify (λ e. record e {
    last_char_whitespace = is_whitespace;
    last_char_indent = e.last_char_indent && is_indention;
    open_ended = false;
  })

-- What most writers do last.
abbrev pub plain_char : Emitter → Emitter
plain_char e = record e { last_char_whitespace = false; last_char_indent = false }

unfoldable pub write_anchor : Bytes → M (Unit {0})
unfolding write_all
write_anchor value = do write_all value; modify plain_char

unfoldable pub write_tag_handle : Bytes → M (Unit {0})
unfolding separate write_all
write_tag_handle value = do separate true; write_all value; modify plain_char

-- The bytes of a tag that are written as they are.
unfoldable pub is_tag_char : ℕ → Bool
unfolding alpha
is_tag_char c =
    c == b';'
    || c == b'/'
    || c == b'?'
    || c == b':'
    || c == b'@'
    || c == b'&'
    || c == b'='
    || c == b'+'
    || c == b'$'
    || c == b','
    || c == b'_'
    || c == b'.'
    || c == b'~'
    || c == b'*'
    || c == b'\''
    || c == b'('
    || c == b')'
    || c == b'['
    || c == b']'
    || alpha c

-- A digit of an escape, `'0' + c` or `'A' + c - 10`.
unfoldable pub hex_digit : ℕ → ℕ
hex_digit c = if ltb c 10 then c + b'0' else c + b'A' - 10

-- The loop over `k`: its body reads `value[0]` in every round.
unfoldable pub write_octets : ℕ → ℕ → M (Unit {0})
unfolding put hex_digit
write_octets zero octet = done
write_octets (suc k) octet = do
  put b'%'
  put (hex_digit (octet / 16))
  put (hex_digit (octet % 16))
  write_octets k octet

-- One round of the loop of writeTagContent; the local variables are none.
unfoldable pub tag_round : Unit {0} → Bytes → M (Unit {0} × Bytes)
unfolding is_tag_char write write_octets width
tag_round _ [] = panic_here
tag_round _ (c ∷ value) = do
  n ← if is_tag_char c then write (c ∷ value) else (do write_octets (width c) c; pure (width c))
  rest ← slice n (c ∷ value)
  pure (tt, rest)

unfoldable pub write_tag_content : Bytes → Bool → M (Unit {0})
unfolding separate tag_round for_value
write_tag_content value need_whitespace = do
  separate need_whitespace
  for_value tag_round tt value
  modify plain_char
