-- ===== src/Emitter/Write/Quoted.antt =====
-- writeSingleQuotedScalar, writeDoubleQuotedScalar and writeDoubleQuotedEscapedChar of
-- internal/emitter/write.go.
use yaml.Common.{
  ℕ, zero, suc, ◌+◌, ◌-◌, ◌*◌, ◌/◌, ◌%◌, ◌^◌, bit_and, Bool, true, false, not, ◌&&◌, ◌||◌, Option,
  none, some, [], ◌∷◌, Bytes, length, ltb, leb, ◌==◌, if◌then◌else◌, exceeds,
}
use yaml.Chars.{Checked, is_break, is_space, is_printable, is_bom, width, ◌&&?◌, ◌||?◌, not?}
use yaml.Emitter.State.{
  M, ◌>>=◌, ◌>>◌, pure, done, get, modify, when, checked, slice, panic_here, for_value,
}
use yaml.Emitter.Output.{put, write}
use yaml.Emitter.Write.{write_indent, write_indicator, hex_digit, plain_char}
use yaml.Emitter.Write.Plain.{ScalarVars, break_round, space_round, plain_char_round}

-- The variables `spaces`, `breaks` and `count` of the single-quoted loop.
abbrev pub QuotedVars : Type 0
QuotedVars = ScalarVars × ℕ

abbrev pub with_count : ℕ → M (ScalarVars × Bytes) → M (QuotedVars × Bytes)
with_count count m = do (vars, rest) ← m; pure ((vars, count), rest)

unfoldable pub single_space : Bool → Bool → Bool → ℕ → ℕ → Bytes → M (ScalarVars × Bytes)
unfolding is_space space_round
single_space allow_breaks spaces breaks count w value = do
  e ← get
  fold ← checked (
      some (
        allow_breaks
        && not spaces
        && exceeds e.column e.best_width
        && ltb 1 count
        && ltb w (length value))
      &&? not? (is_space value 1))
  space_round fold breaks w value

-- A quote is doubled.
unfoldable pub single_char : Bool → ℕ → Bytes → M (ScalarVars × Bytes)
unfolding write_indent put plain_char_round
single_char breaks c value = do
  when breaks write_indent
  when (c == b'\'') (put b'\'')
  plain_char_round false value

unfoldable pub single_round : Bool → QuotedVars → Bytes → M (QuotedVars × Bytes)
unfolding is_break width break_round single_space single_char
single_round allow_breaks _ [] = panic_here
single_round allow_breaks ((spaces, breaks), count) (c ∷ value) =
    if c == b' '
    then with_count (count + 1)
        (single_space allow_breaks spaces breaks (count + 1) (width c) (c ∷ value))
    else (do
      break ← checked (is_break (c ∷ value) 0)
      with_count (count + 1) (
          if break
          then break_round spaces breaks c (c ∷ value)
          else single_char breaks c (c ∷ value)))

unfoldable pub write_single_quoted_scalar : Bytes → Bool → M (Unit {0})
unfolding write_indicator single_round for_value
write_single_quoted_scalar value allow_breaks = do
  write_indicator (b'\'' ∷ []) true false false
  _ ← for_value (single_round allow_breaks) ((false, false), 0) value
  write_indicator (b'\'' ∷ []) false false false
  modify plain_char

-- The bits of the code point that a first byte carries.
unfoldable pub first_bits : ℕ → ℕ
first_bits c =
    if bit_and c 0x80 == 0
    then bit_and c 0x7F
    else if bit_and c 0xE0 == 0xC0
    then bit_and c 0x1F
    else if bit_and c 0xF0 == 0xE0
    then bit_and c 0x0F
    else if bit_and c 0xF8 == 0xF0
    then bit_and c 0x07
    else 0

-- `for k := 1; k < w; k++ { v = (v << 6) + (rune(value[k]) & 0x3F) }`
unfoldable pub next_bits : ℕ → ℕ → Bytes → Option ℕ
next_bits zero v b = some v
next_bits (suc k) v [] = none
next_bits (suc k) v (c ∷ b) = next_bits k (v * 64 + bit_and c 0x3F) b

-- The letter of a short escape.
unfoldable pub short_escape : ℕ → Option ℕ
short_escape v =
    if v == 0x00
    then some b'0'
    else if v == 0x07
    then some b'a'
    else if v == 0x08
    then some b'b'
    else if v == 0x09
    then some b't'
    else if v == 0x0A
    then some b'n'
    else if v == 0x0B
    then some b'v'
    else if v == 0x0C
    then some b'f'
    else if v == 0x0D
    then some b'r'
    else if v == 0x1B
    then some b'e'
    else if v == 0x22
    then some b'"'
    else if v == 0x5C
    then some b'\\'
    else if v == 0x85
    then some b'N'
    else if v == 0xA0
    then some b'_'
    else if v == 0x2028
    then some b'L'
    else if v == 0x2029
    then some b'P'
    else none

-- The `n` lowest hex digits of `v`, the highest first.
unfoldable pub put_hex : ℕ → ℕ → M (Unit {0})
unfolding put hex_digit
put_hex zero v = done
put_hex (suc n) v = do put (hex_digit (v / 16 ^ n % 16)); put_hex n v

unfoldable pub put_long_escape : ℕ → M (Unit {0})
unfolding put put_hex
put_long_escape v =
    if leb v 0xFF
    then (do put b'x'; put_hex 2 v)
    else if leb v 0xFFFF
    then (do put b'u'; put_hex 4 v)
    else (do put b'U'; put_hex 8 v)

unfoldable pub put_escape : ℕ → M (Unit {0})
unfolding put short_escape put_long_escape
put_escape v = do
  put b'\\'
  elim (short_escape v) [ some letter ↦ put letter | none ↦ put_long_escape v ]

-- writeDoubleQuotedEscapedChar; it returns the rest of the value.
unfoldable pub write_escaped_char : Bytes → M Bytes
unfolding first_bits next_bits width put_escape
write_escaped_char [] = panic_here
write_escaped_char (c ∷ value) = do
  v ← checked (next_bits (width c - 1) (first_bits c) value)
  rest ← slice (width c) (c ∷ value)
  put_escape v
  pure rest

-- The variables `spaces` and `count` of the double-quoted loop.
abbrev pub DoubleVars : Type 0
DoubleVars = Bool × ℕ

unfoldable pub needs_escape : Bool → ℕ → Bytes → Checked
unfolding is_printable is_break
needs_escape bom c value =
    not? (is_printable value) ||? some bom ||? is_break value 0 ||? some (c == b'"' || c == b'\\')

-- A space that is folded is followed by a backslash, if another space follows it.
unfoldable pub fold_or_write : Bool → ℕ → Bytes → M ℕ
unfolding write_indent is_space put write
fold_or_write true w value = do
  write_indent
  space ← checked (is_space value 1)
  when space (put b'\\')
  pure w
fold_or_write false w value = write value

unfoldable pub double_space : Bool → Bool → ℕ → ℕ → Bytes → M (DoubleVars × Bytes)
unfolding fold_or_write
double_space allow_breaks spaces count w value = do
  e ← get
  n ←
      fold_or_write
        (allow_breaks
          && not spaces
          && exceeds e.column e.best_width
          && ltb 1 count
          && ltb w (length value))
        w value
  rest ← slice n value
  pure ((true, count), rest)

unfoldable pub double_round : Bool → Bool → DoubleVars → Bytes → M (DoubleVars × Bytes)
unfolding needs_escape write_escaped_char double_space width write
double_round bom allow_breaks _ [] = panic_here
double_round bom allow_breaks (spaces, count) (c ∷ value) = do
  escape ← checked (needs_escape bom c (c ∷ value))
  if escape
      then (do rest ← write_escaped_char (c ∷ value); pure ((false, count + 1), rest))
      else (if c == b' '
          then double_space allow_breaks spaces (count + 1) (width c) (c ∷ value)
          else (do
            n ← write (c ∷ value)
            rest ← slice n (c ∷ value)
            pure ((false, count + 1), rest)))

unfoldable pub write_double_quoted_scalar : Bytes → Bool → M (Unit {0})
unfolding write_indicator is_bom double_round for_value
write_double_quoted_scalar value allow_breaks = do
  write_indicator (b'"' ∷ []) true false false
  bom ← checked (some (leb 3 (length value)) &&? is_bom value)
  _ ← for_value (double_round bom allow_breaks) (false, 0) value
  write_indicator (b'"' ∷ []) false false false
  modify plain_char
