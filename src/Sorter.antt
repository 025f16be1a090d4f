-- ===== src/Sorter.antt =====
-- internal/sorter/sorter.go: the order of the keys of maps that are strings.
use yaml.Common.{
  ℕ, zero, suc, ◌+◌, ◌-◌, ◌*◌, ◌%◌, ℤ, pos, negsuc, Bool, true, false, not, ◌&&◌, ◌||◌, Option,
  none, some, List, Bytes, [], ◌∷◌, ltb, leb, ◌==◌, if◌then◌else◌,
}
pub mod Order
pub mod Keys
pub mod Examples

-- What the order uses of Go: the conversion of a string to runes, and IsLetter and IsDigit of the
-- package unicode. Different strings that are no UTF-8 may have the same runes.
pub record Unicode : Type 0 where
  pub runes : Bytes → List ℕ
  pub is_letter : ℕ → Bool
  pub is_digit : ℕ → Bool

-- The values of an int64, from 0, with the negative ones behind the others.
abbrev pub two_64 : ℕ
two_64 = 18446744073709551616

abbrev pub two_63 : ℕ
two_63 = 9223372036854775808

-- `<` on int64
abbrev pub signed_less : ℕ → ℕ → Bool
signed_less m n = ltb ((m + two_63) % two_64) ((n + two_63) % two_64)

-- The numbers, then how many digits they have, then the runes.
unfoldable pub parsed_less : ℕ × ℕ → ℕ × ℕ → ℕ → ℕ → Bool
parsed_less (an, ai) (bn, bi) a b =
    if not (an == bn) then signed_less an bn else if not (ai == bi) then ltb ai bi else ltb a b

module _ (unicode : Unicode) where
  -- The loop back over the digits before the difference: whether one of them is not 0.
  unfoldable pub nonzero_before : List ℕ → Bool
  nonzero_before [] = false
  nonzero_before (c ∷ seen) =
      let rest = nonzero_before seen in
      if not (unicode.is_digit c) then false else if not (c == b'0') then true else rest

  -- The number that the digits continue, with its wrap-around, and how many they are.
  unfoldable pub scan_number : ℕ → List ℕ → ℕ × ℕ
  scan_number n [] = (n, 0)
  scan_number n (c ∷ rs) =
      let (m, count) = scan_number ((n * 10 + (c + two_64 - b'0')) % two_64) rs in
      if unicode.is_digit c then (m, suc count) else (n, 0)

  -- Two runes that differ, neither of them a letter.
  unfoldable pub number_less : List ℕ → ℕ → List ℕ → ℕ → List ℕ → Bool
  unfolding nonzero_before scan_number parsed_less
  number_less seen a ar b br =
      let start = if (a == b'0' || b == b'0') && nonzero_before seen then 1 else 0 in
      parsed_less (scan_number start (a ∷ ar)) (scan_number start (b ∷ br)) a b

  -- The first runes that differ; `digits` tells whether the rune before is a digit.
  unfoldable pub rune_less : Bool → List ℕ → ℕ → List ℕ → ℕ → List ℕ → Bool
  unfolding number_less
  rune_less digits seen a ar b br =
      let al = unicode.is_letter a in
      let bl = unicode.is_letter b in
      if al && bl
      then ltb a b
      else if al || bl
      then (if digits then al else bl)
      else number_less seen a ar b br

  -- The loop over the runes of two strings; `seen` are the runes before, the last one first.
  unfoldable pub runes_less : Bool → List ℕ → List ℕ → List ℕ → Bool
  unfolding rune_less
  runes_less digits seen [] [] = false
  runes_less digits seen [] (b ∷ br) = true
  runes_less digits seen (a ∷ ar) [] = false
  runes_less digits seen (a ∷ ar) (b ∷ br) =
      let rest = runes_less (unicode.is_digit a) (a ∷ seen) ar br in
      if a == b then rest else rune_less digits seen a ar b br

  -- stringLess, on two strings.
  unfoldable pub string_less : Bytes → Bytes → Bool
  unfolding runes_less
  string_less a b = runes_less false [] (unicode.runes a) (unicode.runes b)
