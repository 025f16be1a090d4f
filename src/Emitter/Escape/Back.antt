-- ===== src/Emitter/Escape/Back.antt =====
-- writeDoubleQuotedEscapedChar of internal/emitter/write.go and the escapes of the scanner.
use yaml.Common.{
  ℕ, ◌+◌, ◌-◌, ◌*◌, ◌/◌, ◌%◌, ◌<◌, ◌≡◌, refl, Bool, true, false, ◌&&◌, some, ◌∷◌, ◌++◌, Bytes,
  length, drop, subst, bit_and, ◌==◌, leb, all_below, all_below_sound, arith, Bool-cases, inl, inr,
}
use yaml.Chars.{width}
use yaml.Emitter.State.{Emitter, slice, pure, ◌>>◌}
use yaml.Emitter.Write.Quoted.{first_bits, next_bits, put_escape, write_escaped_char}
use yaml.Emitter.Bind.{Ends, returns, Ends-bind, Ends-map}
use yaml.Emitter.Frame.{Laid}
use yaml.Emitter.Escape.{escape, put_escape-Writes, scan_escape-escape, invalid_code-false}
use yaml.Scanner.{encoded, invalid_code, scan_escape}

-- A first byte of `n` bytes that carries the bits `x`.
abbrev leads : ℕ → ℕ → ℕ → Bool
leads n x c = width c == n && first_bits c == x

lead1_table : all_below 0x80 (λ x. leads 1 x x) ≡ true
unfolding width first_bits
lead1_table = refl

lead2_table : all_below 0x20 (λ x. leads 2 x (0xC0 + x)) ≡ true
unfolding width first_bits
lead2_table = refl

lead3_table : all_below 0x10 (λ x. leads 3 x (0xE0 + x)) ≡ true
unfolding width first_bits
lead3_table = refl

lead4_table : all_below 0x08 (λ x. leads 4 x (0xF0 + x)) ≡ true
unfolding width first_bits
lead4_table = refl

tail_table : all_below 0x40 (λ x. bit_and (0x80 + x) 0x3F == x) ≡ true
tail_table = refl

tail_bits : (x : ℕ) → x < 0x40 → bit_and (0x80 + x) 0x3F ≡ x
tail_bits x h =
    ground (arith, all_below_sound 0x40 (λ x. bit_and (0x80 + x) 0x3F == x) x tail_table h)

-- The escape of the character that begins the value was written, and the scanner reads it back.
pub record Escaped (v : ℕ) (e : Emitter) (rest r : Bytes) (e' : Emitter) : Type 0 where
  pub left : r ≡ rest
  pub body : Bytes
  pub laid : Laid (b'\\' ∷ body) e e'
  pub read : (t : Bytes) → scan_escape (body ++ t) ≡ some (encoded v, t)

slice-Ends :
    (n : ℕ) (b rest : Bytes) (e : Emitter) {Q : Bytes → Emitter → Type 0}
    → leb n (length b) ≡ true
    → drop n b ≡ rest
    → Q rest e
    → Ends Q (slice n b e)
slice-Ends n b rest e h p q = rw (h, p) (returns q)

put_escape-Escaped :
    (v : ℕ) (rest : Bytes) (e : Emitter)
    → invalid_code v ≡ false
    → Ends (Escaped v e rest) ((put_escape v >> pure rest) e)
put_escape-Escaped v rest e valid =
    Ends-bind (put_escape v) (λ _. pure rest) e
      (Ends-map
        (λ _ e₁ laid. returns (record {
          left = refl;
          body = escape v;
          laid = laid;
          read = λ t. scan_escape-escape v t valid;
        }))
        (put_escape-Writes v e))

escaped :
    (v c x n : ℕ) (value rest : Bytes) (e : Emitter)
    → invalid_code v ≡ false
    → leads n x c ≡ true
    → next_bits (n - 1) x value ≡ some v
    → leb n (length (c ∷ value)) ≡ true
    → drop n (c ∷ value) ≡ rest
    → Ends (Escaped v e rest) (write_escaped_char (c ∷ value) e)
unfolding write_escaped_char
escaped v c x n value rest e valid lead bits fits dropped =
    let w : width c ≡ n = ground (arith, lead) in
    let f : first_bits c ≡ x = ground (arith, lead) in
    rw (w, f, bits)
      (Ends-bind (slice n (c ∷ value)) _ e
        (slice-Ends n (c ∷ value) rest e fits dropped (put_escape-Escaped v rest e valid)))

-- The bits of two, three and four bytes.
bits2 : (v : ℕ) (rest : Bytes) → next_bits 1 (v / 64) ((0x80 + v % 64) ∷ rest) ≡ some v
unfolding next_bits
bits2 v rest =
    let sum : v / 64 * 64 + v % 64 ≡ v = omega arith in
    rw (tail_bits (v % 64) (omega arith), sum) refl

bits3 :
    (v : ℕ) (rest : Bytes)
    → next_bits 2 (v / 4096) ((0x80 + v / 64 % 64) ∷ (0x80 + v % 64) ∷ rest) ≡ some v
unfolding next_bits
bits3 v rest =
    let sum : (v / 4096 * 64 + v / 64 % 64) * 64 + v % 64 ≡ v = omega arith in
    rw (tail_bits (v / 64 % 64) (omega arith), tail_bits (v % 64) (omega arith), sum) refl

bits4 :
    (v : ℕ) (rest : Bytes)
    → next_bits 3
        (v / 262144)
        ((0x80 + v / 4096 % 64) ∷ (0x80 + v / 64 % 64) ∷ (0x80 + v % 64) ∷ rest)
      ≡ some v
unfolding next_bits
bits4 v rest =
    let sum : ((v / 262144 * 64 + v / 4096 % 64) * 64 + v / 64 % 64) * 64 + v % 64 ≡ v =
      omega arith in
    rw
      (
        tail_bits (v / 4096 % 64) (omega arith),
        tail_bits (v / 64 % 64) (omega arith),
        tail_bits (v % 64) (omega arith),
        sum,
      )
      refl

abbrev Escapes : ℕ → Bytes → Bytes → Type 0
Escapes v rest b = (e : Emitter) → Ends (Escaped v e rest) (write_escaped_char b e)

module _ (v : ℕ) (rest : Bytes) (valid : invalid_code v ≡ false) where
  escaped1 : v < 0x80 → Escapes v rest (v ∷ rest)
  unfolding next_bits
  escaped1 h e =
      escaped v v v 1 rest rest e valid (all_below_sound 0x80 (λ x. leads 1 x x) v lead1_table h)
        refl (ground arith) refl

  escaped2 : v < 0x800 → Escapes v rest ((0xC0 + v / 64) ∷ (0x80 + v % 64) ∷ rest)
  escaped2 h e =
      escaped v _ (v / 64) 2 _ rest e valid
        (all_below_sound 0x20 (λ x. leads 2 x (0xC0 + x)) (v / 64) lead2_table (omega arith))
        (bits2 v rest) (ground arith) refl

  escaped3 :
      v < 0x10000
      → Escapes v rest ((0xE0 + v / 4096) ∷ (0x80 + v / 64 % 64) ∷ (0x80 + v % 64) ∷ rest)
  escaped3 h e =
      escaped v _ (v / 4096) 3 _ rest e valid
        (all_below_sound 0x10 (λ x. leads 3 x (0xE0 + x)) (v / 4096) lead3_table (omega arith))
        (bits3 v rest) (ground arith) refl

  escaped4 :
      Escapes v rest (
        (0xF0 + v / 262144)
        ∷ (0x80 + v / 4096 % 64)
        ∷ (0x80 + v / 64 % 64)
        ∷ (0x80 + v % 64)
        ∷ rest)
  escaped4 e =
      let bound = invalid_code-false v valid in
      escaped v _ (v / 262144) 4 _ rest e valid
        (all_below_sound 0x08 (λ x. leads 4 x (0xF0 + x)) (v / 262144) lead4_table (omega arith))
        (bits4 v rest) (ground arith) refl

  escapes : (b : Bytes) → encoded v ≡ b → Escapes v rest (b ++ rest)
  unfolding encoded
  escapes b p = elim (Bool-cases (leb v 0x7F)) [
    | inl h ↦ subst (λ x. Escapes v rest (x ++ rest)) (rw h at p) (escaped1 (ground arith))
    | inr h ↦ elim (Bool-cases (leb v 0x7FF)) [
      | inl h₂ ↦ subst (λ x. Escapes v rest (x ++ rest)) (rw (h, h₂) at p) (escaped2 (ground arith))
      | inr h₂ ↦ elim (Bool-cases (leb v 0xFFFF)) [
        | inl h₃ ↦
            subst (λ x. Escapes v rest (x ++ rest)) (rw (h, h₂, h₃) at p) (escaped3 (ground arith))
        | inr h₃ ↦ subst (λ x. Escapes v rest (x ++ rest)) (rw (h, h₂, h₃) at p) escaped4
      ]
    ]
  ]

-- On a value that begins with the UTF-8 encoding of a code point, which is no surrogate,
-- writeDoubleQuotedEscapedChar returns an error, or it returns what follows the
-- character, and has written a backslash and an escape that the scanner reads as that encoding,
-- whatever follows it; only the output fields have changed.
pub write_escaped_char-Escaped :
    (v : ℕ) (rest : Bytes) (e : Emitter)
    → invalid_code v ≡ false
    → Ends (Escaped v e rest) (write_escaped_char (encoded v ++ rest) e)
write_escaped_char-Escaped v rest e valid = escapes v rest valid (encoded v) refl e
