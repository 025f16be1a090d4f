-- ===== src/Emitter/Returns.antt =====
-- analyzeScalar of internal/emitter/analyze.go returns on text.
use yaml.Common.{
  ℕ, zero, suc, ◌≤◌, ◌≡◌, ◌≢◌, refl, sym, subst, Bool, true, false, Option, none, some, [], ◌∷◌,
  Bytes, length, drop, get_elem?, ltb, leb, ◌==◌, if◌then◌else◌, arith, Bool-cases, inl, inr,
}
use yaml.Chars.{width, is_break, is_printable, is_blankz}
use yaml.Chars.Text.{Text, first_char, is_break-ne-none, is_printable-ne-none, is_blankz-ne-none}
use yaml.Emitter.State.{Emitter, ScalarData, ok, M, ◌>>=◌, pure, checked, slice, walk, for_value}
use yaml.Emitter.Analyze.Scalar.{Scan, scan_round, initial_scan, empty_scalar, analyze_scalar}
use yaml.Emitter.Flow.{scan_round-Passed}
use yaml.Emitter.Sound.Scalar.{get_elem?-ne-none}

-- The run returns a value and leaves the state as it is.
record Returns (e : Emitter) {A : Type 0} (m : M A) : Type 0 where
  result : A
  ends : m e ≡ ok result e

module _ {e : Emitter} where
  Returns-bind :
      {A B : Type 0} (m : M A) (f : A → M B)
      → Returns e m
      → ((a : A) → Returns e (f a))
      → Returns e (m >>= f)
  Returns-bind m f first g =
      let next = g first.result in
      record { result = next.result; ends = rw (◌>>=◌, first.ends) next.ends }

  Returns-pure : {A : Type 0} (a : A) → Returns e (pure a)
  Returns-pure a = record { result = a; ends = refl }

  Returns-checked : {A : Type 0} (o : Option A) → o ≢ none → Returns e (checked o)
  Returns-checked none h = absurd (h refl)
  Returns-checked (some a) h = record { result = a; ends = refl }

  Returns-slice : (n : ℕ) (b : Bytes) → n ≤ length b → Returns e (slice n b)
  Returns-slice n b h =
      let fits : leb n (length b) ≡ true = ground arith in
      record { result = drop n b; ends = rw fits refl }

  next_char-Returns :
      (w : ℕ) (b : Bytes) → Returns e (if ltb w (length b) then checked (get_elem? b w) else pure 0)
  next_char-Returns w b = elim (Bool-cases (ltb w (length b))) [
    | inl h ↦ rw h (Returns-checked (get_elem? b w) (get_elem?-ne-none b w (ground arith)))
    | inr h ↦ rw h (Returns-pure 0)
  ]

  test-Returns :
      (known : Bool) (b : Bool) (o : Option Bool)
      → o ≢ none
      → Returns e (checked (if known then some b else o))
  test-Returns true b o h = record { result = b; ends = refl }
  test-Returns false b o h = Returns-checked o h

  scan_round-Returns :
      (s : Scan) (c : ℕ) (b : Bytes) → Text (c ∷ b) → Returns e (scan_round s (c ∷ b))
  unfolding scan_round
  scan_round-Returns s c b t =
      let value = c ∷ b in
      Returns-bind _ _ (next_char-Returns (width c) value) (λ next.
        Returns-bind _ _
          (test-Returns (c == 0x09) true (is_printable value) (is_printable-ne-none t))
          (λ printable.
            Returns-bind _ _
              (test-Returns (c == b' ') false (is_break value 0) (is_break-ne-none t))
              (λ break.
                Returns-bind _ _ (Returns-checked (is_blankz value 0) (is_blankz-ne-none t))
                  (λ previous.
                    Returns-bind _ _ (Returns-slice (width c) value (first_char t).fits)
                      (λ rest. Returns-pure _)))))

walk-Returns :
    (fuel : ℕ) (s : Scan) (value : Bytes) (e : Emitter)
    → Text value
    → length value ≤ fuel
    → Returns e (walk scan_round fuel s value)
unfolding walk
walk-Returns zero s [] e t h = record { result = s; ends = refl }
walk-Returns (suc fuel) s [] e t h = record { result = s; ends = refl }
walk-Returns zero s (c ∷ b) e t h = ground arith
walk-Returns (suc fuel) s (c ∷ b) e t h =
    let round = scan_round-Returns {e = e} s c b t in
    let s₁ = round.result.0 in
    let rest = round.result.1 in
    let moved = (scan_round-Passed s s₁ c b rest e e round.ends).advanced in
    let char = first_char t in
    let more =
      walk-Returns fuel s₁ (drop (width c) (c ∷ b)) e char.rest (omega (arith, char.shorter)) in
    let last = subst (λ x. Returns e (walk scan_round fuel s₁ x)) (sym moved) more in
    record { result = last.result; ends = rw (◌>>=◌, round.ends) last.ends }

-- On text analyzeScalar returns, with an analysis of the value, and changes nothing.
pub analyze_scalar-Returns :
    (value : Bytes) (e : Emitter)
    → Text value
    → (sd : ScalarData) × (analyze_scalar value e ≡ ok sd e)
unfolding analyze_scalar for_value
analyze_scalar-Returns [] e t = (empty_scalar, refl)
analyze_scalar-Returns (c ∷ b) e t =
    let walked = walk-Returns (length (c ∷ b)) (initial_scan (c ∷ b)) (c ∷ b) e t (omega arith) in
    (walked.result.scalar, rw (◌>>=◌, walked.ends) refl)
