-- ===== src/Sorter/Order.antt =====
-- The order of string keys is asymmetric, and tells strings with different runes apart.
use yaml.Common.{
  ℕ, ◌+◌, ◌-◌, ◌*◌, ◌%◌, ◌<◌, ◌≡◌, ◌≢◌, refl, sym, ap, subst, ◌∙◌, Bool, true, false, not, ◌&&◌,
  ◌||◌, List, Bytes, [], ◌∷◌, ltb, ◌==◌, if◌then◌else◌, arith, Bool-cases, inl, inr,
}
use yaml.Sorter.{
  Unicode, two_64, two_63, signed_less, nonzero_before, scan_number, parsed_less, number_less,
  rune_less, runes_less, string_less,
}

-- Exactly one of two answers.
abbrev Opposite : Bool → Bool → Type 0
Opposite p q = not p ≡ q

ltb-Opposite : (a b : ℕ) → (a == b) ≡ false → Opposite (ltb a b) (ltb b a)
ltb-Opposite a b e = ground arith

signed_less-Opposite :
    (m n : ℕ)
    → m < two_64
    → n < two_64
    → (m == n) ≡ false
    → Opposite (signed_less m n) (signed_less n m)
signed_less-Opposite m n h k e =
    let distinct : ((m + two_63) % two_64 == (n + two_63) % two_64) ≡ false =
      ground (arith, h, k, e) in
    ltb-Opposite ((m + two_63) % two_64) ((n + two_63) % two_64) distinct

==_comm : (a b : ℕ) → (a == b) ≡ (b == a)
==_comm a b = ground arith

parsed_less-Opposite :
    (m n : ℕ × ℕ) (a b : ℕ)
    → m.0 < two_64
    → n.0 < two_64
    → (a == b) ≡ false
    → Opposite (parsed_less m n a b) (parsed_less n m b a)
unfolding parsed_less
parsed_less-Opposite (an, ai) (bn, bi) a b h k e = rw (==_comm bn an) (
    rw (==_comm bi ai)
      (go (an == bn) (ai == bi) (signed_less-Opposite an bn h k) (ltb-Opposite ai bi)))
  where
    go :
        (p q : Bool)
        → (p ≡ false → Opposite (signed_less an bn) (signed_less bn an))
        → (q ≡ false → Opposite (ltb ai bi) (ltb bi ai))
        → Opposite
            (if not p then signed_less an bn else if not q then ltb ai bi else ltb a b)
            (if not p then signed_less bn an else if not q then ltb bi ai else ltb b a)
    go false q f g = f refl
    go true false f g = g refl
    go true true f g = ltb-Opposite a b e

either-Opposite :
    {p q : Bool} (x x' y y' : Bool)
    → p ≡ q
    → (p ≡ true → Opposite x x')
    → (p ≡ false → Opposite y y')
    → Opposite (if p then x else y) (if q then x' else y')
either-Opposite {p} {q} x x' y y' e f g = go p e f g
  where
    go :
        (p : Bool)
        → p ≡ q
        → (p ≡ true → Opposite x x')
        → (p ≡ false → Opposite y y')
        → Opposite (if p then x else y) (if q then x' else y')
    go true e f g = rw⁻¹ e (f refl)
    go false e f g = rw⁻¹ e (g refl)

or_comm : (p q : Bool) → (p || q) ≡ (q || p)
or_comm true true = refl
or_comm true false = refl
or_comm false true = refl
or_comm false false = refl

module _ (unicode : Unicode) where
  scan_number-bound : (n : ℕ) (rs : List ℕ) → n < two_64 → (scan_number unicode n rs).0 < two_64
  unfolding scan_number
  scan_number-bound n [] h = h
  scan_number-bound n (c ∷ rs) h = elim (Bool-cases (unicode.is_digit c)) [
    | inl d ↦ rw d (scan_number-bound ((n * 10 + (c + two_64 - b'0')) % two_64) rs (omega arith))
    | inr d ↦ rw d h
  ]

  start : List ℕ → ℕ → ℕ → ℕ
  start seen a b = if (a == b'0' || b == b'0') && nonzero_before unicode seen then 1 else 0

  start-bound : (seen : List ℕ) (a b : ℕ) → start seen a b < two_64
  unfolding start
  start-bound seen a b = ground arith

  start_comm : (seen : List ℕ) (a b : ℕ) → start seen b a ≡ start seen a b
  unfolding start
  start_comm seen a b = rw (or_comm (b == b'0') (a == b'0')) refl

  number_less-Opposite :
      (seen : List ℕ) (a : ℕ) (ar : List ℕ) (b : ℕ) (br : List ℕ)
      → (a == b) ≡ false
      → Opposite (number_less unicode seen a ar b br) (number_less unicode seen b br a ar)
  unfolding number_less start
  number_less-Opposite seen a ar b br e =
      let s = start seen a b in
      let bound = start-bound seen a b in
      parsed_less-Opposite (scan_number unicode s (a ∷ ar)) (scan_number unicode s (b ∷ br)) a b
        (scan_number-bound s (a ∷ ar) bound) (scan_number-bound s (b ∷ br) bound) e
      ∙ ap (λ t. parsed_less (scan_number unicode t (b ∷ br)) (scan_number unicode t (a ∷ ar)) b a)
          (sym (start_comm seen a b))

  rune_less-Opposite :
      (digits : Bool) (seen : List ℕ) (a : ℕ) (ar : List ℕ) (b : ℕ) (br : List ℕ)
      → (a == b) ≡ false
      → Opposite (rune_less unicode digits seen a ar b br) (rune_less unicode digits seen b br a ar)
  unfolding rune_less
  rune_less-Opposite digits seen a ar b br e = go digits (unicode.is_letter a) (unicode.is_letter b)
    where
      go :
          (d p q : Bool)
          → Opposite
              (if p && q
                then ltb a b
                else if p || q
                then (if d then p else q)
                else number_less unicode seen a ar b br)
              (if q && p
                then ltb b a
                else if q || p
                then (if d then q else p)
                else number_less unicode seen b br a ar)
      go d true true = ltb-Opposite a b e
      go true true false = refl
      go false true false = refl
      go true false true = refl
      go false false true = refl
      go d false false = number_less-Opposite seen a ar b br e

  runes_less-Opposite_from :
      (digits : Bool) (seen ar br : List ℕ)
      → ar ≢ br
      → Opposite (runes_less unicode digits seen ar br) (runes_less unicode digits seen br ar)
  unfolding runes_less
  runes_less-Opposite_from digits seen [] [] h = absurd (h refl)
  runes_less-Opposite_from digits seen [] (b ∷ br) h = refl
  runes_less-Opposite_from digits seen (a ∷ ar) [] h = refl
  runes_less-Opposite_from digits seen (a ∷ ar) (b ∷ br) h =
      either-Opposite {p = a == b} {q = b == a}
        (runes_less unicode (unicode.is_digit a) (a ∷ seen) ar br) _
        (rune_less unicode digits seen a ar b br) _ (==_comm a b)
        (λ e.
          let same : a ≡ b = ground (arith, e) in
          subst
            (λ x.
              Opposite (runes_less unicode (unicode.is_digit a) (a ∷ seen) ar br)
                (runes_less unicode (unicode.is_digit x) (x ∷ seen) br ar))
            same (runes_less-Opposite_from (unicode.is_digit a) (a ∷ seen) ar br (λ r. h cc)))
        (λ e. rune_less-Opposite digits seen a ar b br e)

  -- Of two strings that have different runes just one is less than the other, whatever unicode takes for
  -- a letter or a digit, and although the numbers in them may wrap around.
  pub string_less-Opposite :
      (a b : Bytes)
      → unicode.runes a ≢ unicode.runes b
      → not (string_less unicode a b) ≡ string_less unicode b a
  unfolding string_less
  string_less-Opposite a b h =
      runes_less-Opposite_from false [] (unicode.runes a) (unicode.runes b) h
