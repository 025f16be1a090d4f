-- ===== src/Scanner.antt =====
-- internal/parserc/scannerc.go: the escape sequences of double-quoted scalars in
-- yaml_parser_scan_flow_scalar. A parser that has text to read is that text, and `none` is the
-- error of the scanner; the refills of its buffer are left out.
use yaml.Common.{
  ℕ, zero, suc, ◌+◌, ◌*◌, ◌/◌, ◌%◌, Bool, ◌&&◌, ◌||◌, Option, none, some, [], ◌∷◌, Bytes, ltb, leb,
  ◌==◌, if◌then◌else◌,
}
use yaml.Chars.{hex, as_hex}

-- The cases that append bytes at once.
unfoldable pub short_value : ℕ → Option Bytes
short_value c =
    if c == b'0'
    then some (0x00 ∷ [])
    else if c == b'a'
    then some (0x07 ∷ [])
    else if c == b'b'
    then some (0x08 ∷ [])
    else if c == b't' || c == 0x09
    then some (0x09 ∷ [])
    else if c == b'n'
    then some (0x0A ∷ [])
    else if c == b'v'
    then some (0x0B ∷ [])
    else if c == b'f'
    then some (0x0C ∷ [])
    else if c == b'r'
    then some (0x0D ∷ [])
    else if c == b'e'
    then some (0x1B ∷ [])
    else if c == b' '
    then some (0x20 ∷ [])
    else if c == b'"'
    then some (b'"' ∷ [])
    else if c == b'\''
    then some (b'\'' ∷ [])
    else if c == b'\\'
    then some (b'\\' ∷ [])
    else if c == b'N'
    then some (0xC2 ∷ 0x85 ∷ [])
    else if c == b'_'
    then some (0xC2 ∷ 0xA0 ∷ [])
    else if c == b'L'
    then some (0xE2 ∷ 0x80 ∷ 0xA8 ∷ [])
    else if c == b'P'
    then some (0xE2 ∷ 0x80 ∷ 0xA9 ∷ [])
    else none

-- The cases that announce a code.
unfoldable pub code_length : ℕ → Option ℕ
code_length c =
    if c == b'x' then some 2 else if c == b'u' then some 4 else if c == b'U' then some 8 else none

-- The loop over the digits, with the value so far.
unfoldable pub scan_hex : ℕ → ℕ → Bytes → Option (ℕ × Bytes)
unfolding hex as_hex
scan_hex zero value b = some (value, b)
scan_hex (suc k) value [] = none
scan_hex (suc k) value (c ∷ b) =
    let more = scan_hex k (value * 16 + as_hex c) b in if hex c then more else none

-- The bytes that are appended for a code.
unfoldable pub encoded : ℕ → Bytes
encoded v =
    if leb v 0x7F
    then v ∷ []
    else if leb v 0x7FF
    then (0xC0 + v / 64) ∷ (0x80 + v % 64) ∷ []
    else if leb v 0xFFFF
    then (0xE0 + v / 4096) ∷ (0x80 + v / 64 % 64) ∷ (0x80 + v % 64) ∷ []
    else (0xF0 + v / 262144) ∷ (0x80 + v / 4096 % 64) ∷ (0x80 + v / 64 % 64) ∷ (0x80 + v % 64) ∷ []

-- The check of the value of a code.
unfoldable pub invalid_code : ℕ → Bool
invalid_code v = (leb 0xD800 v && leb v 0xDFFF) || ltb 0x10FFFF v

unfoldable pub scan_code : ℕ → Bytes → Option (Bytes × Bytes)
unfolding scan_hex encoded invalid_code
scan_code k b = elim (scan_hex k 0 b) [
  | none ↦ none
  | some (v, rest) ↦ if invalid_code v then none else some (encoded v, rest)
]

-- An escape, from the byte behind the backslash: the bytes that are appended, and the rest.
unfoldable pub scan_escape : Bytes → Option (Bytes × Bytes)
unfolding short_value code_length scan_code
scan_escape [] = none
scan_escape (c ∷ b) = elim (short_value c) [
  | some s ↦ some (s, b)
  | none ↦ elim (code_length c) [ some k ↦ scan_code k b | none ↦ none ]
]
