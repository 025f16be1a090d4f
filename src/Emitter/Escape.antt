-- ===== src/Emitter/Escape.antt =====
-- An escape that writeDoubleQuotedEscapedChar of internal/emitter/write.go writes is read back by the
-- scanner.
pub mod Digits
pub mod Back
use yaml.Common.{
  ℕ, zero, suc, ◌+◌, ◌-◌, ◌*◌, ◌/◌, ◌%◌, ◌^◌, ◌<◌, ◌≤◌, ◌≡◌, refl, Bool, true, false, Option, none,
  some, [], ◌∷◌, ◌++◌, Bytes, arith, if◌then◌else◌, leb, ◌==◌, Bool-cases, inl, inr, append-nil,
}
use yaml.Emitter.State.{Emitter, M, ◌>>◌, ok, done}
use yaml.Emitter.Output.{put}
use yaml.Emitter.Write.{hex_digit}
use yaml.Emitter.Write.Quoted.{put_hex, put_long_escape, short_escape, put_escape}
use yaml.Emitter.Bind.{Ends, returns, Ends-bind, Ends-map}
use yaml.Emitter.Frame.{Laid, Laid-trans, put-Ends}
use yaml.Emitter.Escape.Digits.{digits, scan_hex-digits}
use yaml.Scanner.{scan_hex, short_value, code_length, encoded, invalid_code, scan_code, scan_escape}

-- What follows the backslash.
abbrev long_escape : ℕ → Bytes
long_escape v =
    if leb v 0xFF
    then b'x' ∷ digits 2 v
    else if leb v 0xFFFF
    then b'u' ∷ digits 4 v
    else b'U' ∷ digits 8 v

abbrev pub escape : ℕ → Bytes
escape v = elim (short_escape v) [ some letter ↦ letter ∷ [] | none ↦ long_escape v ]

-- From `e`, the run writes `s`, or returns an error.
abbrev pub Writes : Bytes → M (Unit {0}) → Type 0
Writes s m = (e : Emitter) → Ends (λ _ e'. Laid s e e') (m e)

put-Writes : (c : ℕ) → Writes (c ∷ []) (put c)
put-Writes c e = put-Ends c e (record { written = refl; frame = refl })

then-Writes : (c : ℕ) {s : Bytes} {m : M (Unit {0})} → Writes s m → Writes (c ∷ s) (put c >> m)
then-Writes c {s} {m} h e =
    Ends-bind (put c) (λ _. m) e
      (Ends-map (λ _ e₁ p. Ends-map (λ _ e₂ q. Laid-trans p q) (h e₁)) (put-Writes c e))

done-Writes : Writes [] done
done-Writes e = returns (record { written = rw (append-nil e.writer.written) refl; frame = refl })

put_hex-Writes : (n v : ℕ) → Writes (digits n v) (put_hex n v)
unfolding put_hex
put_hex-Writes zero v = done-Writes
put_hex-Writes (suc n) v = then-Writes (hex_digit (v / 16 ^ n % 16)) (put_hex-Writes n v)

if-Writes :
    (b : Bool) {s t : Bytes} {m n : M (Unit {0})}
    → Writes s m
    → Writes t n
    → Writes (if b then s else t) (if b then m else n)
if-Writes true h g = h
if-Writes false h g = g

put_long_escape-Writes : (v : ℕ) → Writes (long_escape v) (put_long_escape v)
unfolding put_long_escape
put_long_escape-Writes v = if-Writes (leb v 0xFF) (then-Writes b'x' (put_hex-Writes 2 v)) (
    if-Writes (leb v 0xFFFF) (then-Writes b'u' (put_hex-Writes 4 v))
      (then-Writes b'U' (put_hex-Writes 8 v)))

put_chosen-Writes :
    (o : Option ℕ) (v : ℕ)
    → Writes
        (elim o [ some letter ↦ letter ∷ [] | none ↦ long_escape v ])
        (elim o [ some letter ↦ put letter | none ↦ put_long_escape v ])
put_chosen-Writes (some letter) v = put-Writes letter
put_chosen-Writes none v = put_long_escape-Writes v

pub put_escape-Writes : (v : ℕ) → Writes (b'\\' ∷ escape v) (put_escape v)
unfolding put_escape
put_escape-Writes v = then-Writes b'\\' (put_chosen-Writes (short_escape v) v)

short_escape-short_value :
    (v letter : ℕ) → short_escape v ≡ some letter → short_value letter ≡ some (encoded v)
unfolding short_escape short_value encoded
short_escape-short_value v letter h = ground arith

scan_code-digits :
    (n v : ℕ) (s rest : Bytes)
    → n ≤ 8
    → v / 16 ^ n ≡ 0
    → invalid_code v ≡ false
    → encoded v ≡ s
    → scan_code n (digits n v ++ rest) ≡ some (s, rest)
unfolding scan_code
scan_code-digits n v s rest le small valid p =
    let read = rw small at (scan_hex-digits n v rest le) in rw (scan_code, read, valid, p) refl

pub invalid_code-false : (v : ℕ) → invalid_code v ≡ false → v ≤ 0x10FFFF
unfolding invalid_code
invalid_code-false v h = ground arith

scan_escape-long_escape :
    (v : ℕ) (s rest : Bytes)
    → invalid_code v ≡ false
    → encoded v ≡ s
    → scan_escape (long_escape v ++ rest) ≡ some (s, rest)
unfolding scan_escape short_value code_length
scan_escape-long_escape v s rest valid p =
    let bound = invalid_code-false v valid in
    elim (Bool-cases (leb v 0xFF)) [
      | inl short ↦ rw short (scan_code-digits 2 v s rest (omega arith) (ground arith) valid p)
      | inr long ↦ elim (Bool-cases (leb v 0xFFFF)) [
        | inl middle ↦
            rw (long, middle) (scan_code-digits 4 v s rest (omega arith) (ground arith) valid p)
        | inr longer ↦
            rw (long, longer) (scan_code-digits 8 v s rest (omega arith) (ground arith) valid p)
      ]
    ]

scan_chosen :
    (o : Option ℕ) (v : ℕ) (rest : Bytes)
    → short_escape v ≡ o
    → invalid_code v ≡ false
    → scan_escape ((elim o [ some letter ↦ letter ∷ [] | none ↦ long_escape v ]) ++ rest)
      ≡ some (encoded v, rest)
unfolding scan_escape
scan_chosen (some letter) v rest h valid =
    rw (scan_escape, short_escape-short_value v letter h) refl
scan_chosen none v rest h valid = scan_escape-long_escape v (encoded v) rest valid refl

pub scan_escape-escape :
    (v : ℕ) (rest : Bytes)
    → invalid_code v ≡ false
    → scan_escape (escape v ++ rest) ≡ some (encoded v, rest)
scan_escape-escape v rest valid = scan_chosen (short_escape v) v rest refl valid
