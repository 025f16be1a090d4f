-- ===== src/Chars/Text.antt =====
-- Text in UTF-8, by the shape of its characters, and what the byte classes of internal/yamlh read of
-- it.
use yaml.Common.{
  ℕ, ◌≤◌, ◌<◌, ◌≡◌, ◌≢◌, refl, sym, subst, ◌∙◌, true, none, [], ◌∷◌, Bytes, length, drop, arith,
  ltb, ◌==◌, ==_iff, if◌then◌else◌, all_below, all_below_sound,
}
use yaml.Chars.{width, is_break, is_printable, is_blankz}

-- A continuation byte.
abbrev pub IsTail : ℕ → Type 0
IsTail c = (0x80 ≤ c) × (c < 0xC0)

-- Every character has as many bytes as its first byte announces. All valid UTF-8 is such a text.
pub data Text : Bytes → Type 0 where
  empty : Text []
  one : {a : ℕ} {b : Bytes} → a < 0x80 → Text b → Text (a ∷ b)
  two : {a c : ℕ} {b : Bytes} → 0xC0 ≤ a → a < 0xE0 → IsTail c → Text b → Text (a ∷ c ∷ b)
  three :
      {a c d : ℕ} {b : Bytes}
      → 0xE0 ≤ a
      → a < 0xF0
      → IsTail c
      → IsTail d
      → Text b
      → Text (a ∷ c ∷ d ∷ b)
  four :
      {a c d g : ℕ} {b : Bytes}
      → 0xF0 ≤ a
      → a < 0xF8
      → IsTail c
      → IsTail d
      → IsTail g
      → Text b
      → Text (a ∷ c ∷ d ∷ g ∷ b)

-- The length of a character by the range of its first byte.
abbrev pub lead_length : ℕ → ℕ
lead_length c =
    if ltb c 0x80
    then 1
    else if ltb c 0xC0
    then 0
    else if ltb c 0xE0
    then 2
    else if ltb c 0xF0
    then 3
    else if ltb c 0xF8
    then 4
    else 0

width_table : all_below 256 (λ c. width c == lead_length c) ≡ true
unfolding width
width_table = refl

-- Width tells the length of a character from its first byte: by the ranges 0x00 to 0x7F, 0xC0 to 0xDF,
-- 0xE0 to 0xEF and 0xF0 to 0xF7, and 0 for a continuation byte and for the bytes from 0xF8 on.
pub width-lead_length : (c : ℕ) → c < 256 → width c ≡ lead_length c
width-lead_length c h =
    (==_iff _ _).0 (all_below_sound 256 (λ x. width x == lead_length x) c width_table h)

-- The first `n` bytes are a character, and text follows it.
pub record CharOf (n c : ℕ) (b : Bytes) : Type 0 where
  pub positive : 1 ≤ n
  pub fits : n ≤ length (c ∷ b)
  pub rest : Text (drop n (c ∷ b))
  pub shorter : length (drop n (c ∷ b)) < length (c ∷ b)

width_is : (c n : ℕ) → c < 256 → lead_length c ≡ n → n ≡ width c
width_is c n h e = sym (width-lead_length c h ∙ e)

-- The first character of a text that is not empty is as long as Width says.
pub first_char : {c : ℕ} {b : Bytes} → Text (c ∷ b) → CharOf (width c) c b
first_char {c} {b} (one h t) =
    subst (λ n. CharOf n c b) (width_is c 1 (omega arith) (ground arith))
      (record { positive = omega arith; fits = omega arith; rest = t; shorter = omega arith })
first_char {c} {b} (two h k p t) =
    subst (λ n. CharOf n c b) (width_is c 2 (omega arith) (ground arith))
      (record { positive = omega arith; fits = omega arith; rest = t; shorter = omega arith })
first_char {c} {b} (three h k p q t) =
    subst (λ n. CharOf n c b) (width_is c 3 (omega arith) (ground arith))
      (record { positive = omega arith; fits = omega arith; rest = t; shorter = omega arith })
first_char {c} {b} (four h k p q r t) =
    subst (λ n. CharOf n c b) (width_is c 4 (omega arith) (ground arith))
      (record { positive = omega arith; fits = omega arith; rest = t; shorter = omega arith })

-- On text the classes read no byte behind the end.
pub is_break-ne-none : {c : ℕ} {b : Bytes} → Text (c ∷ b) → is_break (c ∷ b) 0 ≢ none
unfolding is_break
is_break-ne-none (one h t) = ground arith
is_break-ne-none (two h k p t) = ground arith
is_break-ne-none (three h k p q t) = ground arith
is_break-ne-none (four h k p q r t) = ground arith

pub is_blankz-ne-none : {c : ℕ} {b : Bytes} → Text (c ∷ b) → is_blankz (c ∷ b) 0 ≢ none
unfolding is_blankz
is_blankz-ne-none (one h t) = ground arith
is_blankz-ne-none (two h k p t) = ground arith
is_blankz-ne-none (three h k p q t) = ground arith
is_blankz-ne-none (four h k p q r t) = ground arith

pub is_printable-ne-none : {c : ℕ} {b : Bytes} → Text (c ∷ b) → is_printable (c ∷ b) ≢ none
unfolding is_printable
is_printable-ne-none (one h t) = ground arith
is_printable-ne-none (two h k p t) = ground arith
is_printable-ne-none (three h k p q t) = ground arith
is_printable-ne-none (four h k p q r t) = ground arith
