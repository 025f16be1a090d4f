-- ===== src/Sorter/Examples.antt =====
-- String keys: a witness of the theorem on their order, and tests.
use yaml.Common.{
  ℕ, ◌≡◌, ◌≢◌, refl, Bool, true, not, ◌&&◌, ◌||◌, codes, leb, ltb, ◌==◌, pos, negsuc, some,
  if◌then◌else◌, arith,
}
use yaml.Sorter.{Unicode, string_less}
use yaml.Sorter.Keys.{Floats, int_key, bool_key, pointer_key, less, less-Some}
use yaml.Sorter.Order.{string_less-Opposite}

-- For strings of ASCII characters.
abbrev ascii : Unicode
ascii = record {
  runes = λ s. s;
  is_letter = λ c. (leb b'a' c && leb c b'z') || (leb b'A' c && leb c b'Z');
  is_digit = λ c. leb b'0' c && leb c b'9';
}

-- The number 2 comes before the number 10.
by_number : string_less ascii (codes "a2") (codes "a10") ≡ true
unfolding string_less
by_number = refl

-- Digits come before letters.
digit_first : string_less ascii (codes "a1") (codes "ab") ≡ true
unfolding string_less
digit_first = refl

different : codes "a2" ≢ codes "a10"
different e = cc

string_less-Opposite_example :
    not (string_less ascii (codes "a2") (codes "a10"))
    ≡ string_less ascii (codes "a10") (codes "a2")
string_less-Opposite_example = string_less-Opposite ascii (codes "a2") (codes "a10") different

-- Floats that are integers of at most 53 bits, the others rounded to 0.
abbrev rounding : Floats ℕ
rounding = record {
  of_int = λ z. elim z [ pos n ↦ if leb n 9007199254740992 then n else 0 | negsuc n ↦ 0 ];
  equal = λ a b. a == b;
  less_than = λ a b. ltb a b;
}

-- Integers that are one float are compared as integers, also behind a pointer.
by_integer :
    less rounding ascii
      (pointer_key (int_key 0 (pos 9007199254740993)))
      (int_key 0 (pos 9007199254740994))
    ≡ some true
unfolding less
by_integer = refl

less-Some_example :
    (r : Bool) × (less rounding ascii (pointer_key (int_key 0 (pos 3))) (bool_key true) ≡ some r)
less-Some_example =
    less-Some rounding ascii (pointer_key (int_key 0 (pos 3))) (bool_key true) (omega arith) tt
