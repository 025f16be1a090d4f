-- ===== src/Chars.antt =====
-- The byte classes of internal/yamlh/privateh.go. A class reads the bytes that Go's short circuits
-- read; `none` is the index-out-of-range panic of a read behind the end of the slice.
pub mod Text
use yaml.Common.{
  ℕ, ◌+◌, ◌-◌, bit_and, Bool, true, false, not, ◌&&◌, ◌||◌, Option, none, some, Bytes, get_elem?,
  ltb, leb, ◌==◌, if◌then◌else◌,
}

abbrev pub Checked : Type 0
Checked = Option Bool

infixr 30 ◌||?◌
abbrev pub ◌||?◌ : Checked → Checked → Checked
none ||? y = none
some true ||? y = some true
some false ||? y = y

infixr 35 ◌&&?◌
abbrev pub ◌&&?◌ : Checked → Checked → Checked
none &&? y = none
some false &&? y = some false
some true &&? y = y

abbrev pub not? : Checked → Checked
not? none = none
not? (some b) = some (not b)

-- A test of the byte `b[i]`.
abbrev test : (ℕ → Bool) → Bytes → ℕ → Checked
test p b i = elim (get_elem? b i) [ none ↦ none | some c ↦ some (p c) ]

abbrev is : ℕ → Bytes → ℕ → Checked
is c = test (λ x. x == c)

abbrev pub within : ℕ → ℕ → ℕ → Bool
within lo hi c = leb lo c && leb c hi

-- Is_alpha
unfoldable pub alpha : ℕ → Bool
alpha c = within b'0' b'9' c || within b'A' b'Z' c || within b'a' b'z' c || c == b'_' || c == b'-'

unfoldable is_alpha : Bytes → ℕ → Checked
unfolding alpha
is_alpha = test alpha

unfoldable is_digit : Bytes → ℕ → Checked
is_digit = test (within b'0' b'9')

-- The test of Is_hex on one byte.
unfoldable pub hex : ℕ → Bool
hex c = within b'0' b'9' c || within b'A' b'F' c || within b'a' b'f' c

unfoldable is_hex : Bytes → ℕ → Checked
is_hex = test hex

-- As_hex, on the byte read; it is called on hex digits only.
unfoldable pub as_hex : ℕ → ℕ
as_hex c =
    if within b'A' b'F' c
    then c - b'A' + 10
    else if within b'a' b'f' c
    then c - b'a' + 10
    else c - b'0'

unfoldable pub is_printable : Bytes → Checked
is_printable b =
    is 0x0A b 0
    ||? test (within 0x20 0x7E) b 0
    ||? (is 0xC2 b 0 &&? test (leb 0xA0) b 1)
    ||? test (λ c. ltb 0xC2 c && ltb c 0xED) b 0
    ||? (is 0xED b 0 &&? test (λ c. ltb c 0xA0) b 1)
    ||? is 0xEE b 0
    ||? (is 0xEF b 0
        &&? not? (is 0xBB b 1 &&? is 0xBF b 2)
        &&? not? (is 0xBF b 1 &&? (is 0xBE b 2 ||? is 0xBF b 2)))

unfoldable is_z : Bytes → ℕ → Checked
is_z = is 0

unfoldable pub is_bom : Bytes → Checked
is_bom b = is 0xEF b 0 &&? is 0xBB b 1 &&? is 0xBF b 2

unfoldable pub is_space : Bytes → ℕ → Checked
is_space = is b' '

unfoldable is_tab : Bytes → ℕ → Checked
is_tab = is 0x09

unfoldable pub is_blank : Bytes → ℕ → Checked
is_blank b i = is b' ' b i ||? is 0x09 b i

-- IsBlank, on a byte
unfoldable pub blank : ℕ → Bool
blank c = c == b' ' || c == 0x09

-- Is_break; IsBreak is the same test at index 0.
unfoldable pub is_break : Bytes → ℕ → Checked
is_break b i =
    is 0x0D b i
    ||? is 0x0A b i
    ||? (is 0xC2 b i &&? is 0x85 b (i + 1))
    ||? (is 0xE2 b i &&? is 0x80 b (i + 1) &&? is 0xA8 b (i + 2))
    ||? (is 0xE2 b i &&? is 0x80 b (i + 1) &&? is 0xA9 b (i + 2))

unfoldable is_crlf : Bytes → ℕ → Checked
is_crlf b i = is 0x0D b i &&? is 0x0A b (i + 1)

unfoldable is_breakz : Bytes → ℕ → Checked
unfolding is_break is_z
is_breakz b i = is_break b i ||? is_z b i

unfoldable is_spacez : Bytes → ℕ → Checked
unfolding is_space is_breakz
is_spacez b i = is_space b i ||? is_breakz b i

-- Is_blankz; IsBlankz is the same test at index 0.
unfoldable pub is_blankz : Bytes → ℕ → Checked
unfolding is_blank is_breakz
is_blankz b i = is_blank b i ||? is_breakz b i

-- Width: the length of the UTF-8 sequence that a byte leads, 0 for a byte that leads none.
unfoldable pub width : ℕ → ℕ
width c =
    if bit_and c 0x80 == 0
    then 1
    else if bit_and c 0xE0 == 0xC0
    then 2
    else if bit_and c 0xF0 == 0xE0
    then 3
    else if bit_and c 0xF8 == 0xF0
    then 4
    else 0
