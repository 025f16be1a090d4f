-- ===== src/Emitter/Escape/Digits.antt =====
-- The hex digits of an escape.
use yaml.Common.{
  ℕ, zero, suc, ◌+◌, ◌*◌, ◌/◌, ◌%◌, ◌^◌, ◌<◌, ◌≤◌, ◌≡◌, refl, true, ◌&&◌, some, [], ◌∷◌, ◌++◌,
  Bytes, ◌==◌, all_below, all_below_sound, arith,
}
use yaml.Chars.{hex, as_hex}
use yaml.Emitter.Write.{hex_digit}
use yaml.Scanner.{scan_hex}

hex_table : all_below 16 (λ d. as_hex (hex_digit d) == d && hex (hex_digit d)) ≡ true
unfolding as_hex hex_digit hex
hex_table = refl

digit_table : (d : ℕ) → d < 16 → (as_hex (hex_digit d) == d && hex (hex_digit d)) ≡ true
digit_table d h =
    all_below_sound 16 (λ d. as_hex (hex_digit d) == d && hex (hex_digit d)) d hex_table h

as_hex-hex_digit : (d : ℕ) → d < 16 → as_hex (hex_digit d) ≡ d
as_hex-hex_digit d h = ground (arith, digit_table d h)

hex-hex_digit : (d : ℕ) → d < 16 → hex (hex_digit d) ≡ true
hex-hex_digit d h = ground (arith, digit_table d h)

scan_hex_step :
    (k value c : ℕ) (b : Bytes)
    → hex c ≡ true
    → scan_hex (suc k) value (c ∷ b) ≡ scan_hex k (value * 16 + as_hex c) b
unfolding scan_hex
scan_hex_step k value c b h = rw (scan_hex, h) refl

-- The `n` lowest hex digits, the highest first.
abbrev pub digits : ℕ → ℕ → Bytes
digits zero v = []
digits (suc n) v = hex_digit (v / 16 ^ n % 16) ∷ digits n v

-- Division by 16 and by a power of 16 in turn.
div_step : (v n : ℕ) → n < 8 → v / 16 ^ suc n * 16 + v / 16 ^ n % 16 ≡ v / 16 ^ n
div_step v zero h = omega arith
div_step v (suc zero) h = omega arith
div_step v (suc (suc zero)) h = omega arith
div_step v (suc (suc (suc zero))) h = omega arith
div_step v (suc (suc (suc (suc zero)))) h = omega arith
div_step v (suc (suc (suc (suc (suc zero))))) h = omega arith
div_step v (suc (suc (suc (suc (suc (suc zero)))))) h = omega arith
div_step v (suc (suc (suc (suc (suc (suc (suc zero))))))) h = omega arith
div_step v (suc (suc (suc (suc (suc (suc (suc (suc n)))))))) h = omega arith

div_one : (v : ℕ) → v / 1 ≡ v
div_one v = omega arith

pub scan_hex-digits :
    (n v : ℕ) (rest : Bytes) → n ≤ 8 → scan_hex n (v / 16 ^ n) (digits n v ++ rest) ≡ some (v, rest)
unfolding scan_hex
scan_hex-digits zero v rest h = rw (div_one v) refl
scan_hex-digits (suc n) v rest h =
    let d = v / 16 ^ n % 16 in
    rw
      (
        scan_hex_step n (v / 16 ^ suc n) (hex_digit d) (digits n v ++ rest)
            (hex-hex_digit d (omega arith)),
        as_hex-hex_digit d (omega arith),
        div_step v n (omega arith),
      )
      (scan_hex-digits n v rest (omega arith))
