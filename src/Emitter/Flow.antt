-- ===== src/Emitter/Flow.antt =====
-- What analyzeScalar of internal/emitter/analyze.go finds out about plain scalars in flow collections.
use yaml.Common.{
  ℕ, zero, suc, ◌≡◌, sym, subst, Bool, true, false, some, [], ◌∷◌, Bytes, length, drop, get_elem?,
  ltb, ◌==◌, if◌then◌else◌, one_of, codes, arith,
}
use yaml.Chars.{width, is_break, is_printable, is_blankz}
use yaml.Emitter.State.{Emitter, ScalarData, ok, pure, checked, slice, walk, for_value}
use yaml.Emitter.Analyze.Scalar.{
  Scan, first_indicator, later_indicator, special_char, spacing, scan_char, scan_round,
  initial_scan, analyze_scalar,
}
use yaml.Emitter.Bind.{>>=-eq-ok}

-- The byte begins a character of the value, as Width divides it.
pub data Begins (c : ℕ) : Bytes → Type 0 where
  here : {b : Bytes} → Begins c (c ∷ b)
  later : {d : ℕ} {b : Bytes} → Begins c (drop (width d) (d ∷ b)) → Begins c (d ∷ b)

-- The indicators of flow collections and mappings.
abbrev flow_indicator : ℕ → Bool
flow_indicator = one_of (codes ",?[]{}:")

-- Plain style in flow collections is still allowed, and was so before at a byte that is no indicator.
pub record Allowed (c : ℕ) (sd : ScalarData) : Type 0 where
  before : sd.flow_plain_allowed ≡ true
  harmless : flow_indicator c ≡ false

first_indicator-Allowed :
    (c : ℕ) (w : Bool) (sd : ScalarData)
    → (first_indicator c w sd).flow_plain_allowed ≡ true
    → Allowed c sd
unfolding first_indicator
first_indicator-Allowed c w sd h = record { before = ground arith; harmless = ground arith }

later_indicator-Allowed :
    (c : ℕ) (p w : Bool) (sd : ScalarData)
    → (later_indicator c p w sd).flow_plain_allowed ≡ true
    → Allowed c sd
unfolding later_indicator
later_indicator-Allowed c p w sd h = record { before = ground arith; harmless = ground arith }

special_char-allowed :
    (c : ℕ) (p : Bool) (sd : ScalarData)
    → (special_char c p sd).flow_plain_allowed ≡ true
    → sd.flow_plain_allowed ≡ true
unfolding special_char
special_char-allowed c p sd h = ground arith

spacing-allowed :
    (c : ℕ) (break last : Bool) (s : Scan)
    → (spacing c break last s).scalar.flow_plain_allowed ≡ true
    → s.scalar.flow_plain_allowed ≡ true
unfolding spacing
spacing-allowed c break last s h = ground arith

slice-drop :
    (n : ℕ) (b : Bytes) {r : Bytes} (e : Emitter) {e' : Emitter}
    → slice n b e ≡ ok r e'
    → r ≡ drop n b
slice-drop n b e h = ground arith

-- What a round at `c` leaves behind: less text, and plain style only where it was allowed.
pub record Passed (c : ℕ) (b : Bytes) (s s' : Scan) (rest : Bytes) : Type 0 where
  pub advanced : rest ≡ drop (width c) (c ∷ b)
  allowed : s'.scalar.flow_plain_allowed ≡ true → Allowed c s.scalar

indicator-Allowed :
    (first : Bool) (c : ℕ) (p w : Bool) (sd : ScalarData)
    → (if first then first_indicator c w sd else later_indicator c p w sd).flow_plain_allowed ≡ true
    → Allowed c sd
indicator-Allowed true c p w sd h = first_indicator-Allowed c w sd h
indicator-Allowed false c p w sd h = later_indicator-Allowed c p w sd h

scan_char-Allowed :
    (s : Scan) (c : ℕ) (w last printable break : Bool)
    → (scan_char s c w last printable break).scalar.flow_plain_allowed ≡ true
    → Allowed c s.scalar
unfolding scan_char
scan_char-Allowed s c w last printable break h =
    indicator-Allowed s.first c s.previous_whitespace w s.scalar
      (special_char-allowed c printable _ (spacing-allowed c break last _ h))

pure-injective : {A : Type 0} {a b : A} {e e' : Emitter} → pure a e ≡ ok b e' → a ≡ b
pure-injective h = cc

pub scan_round-Passed :
    (s s' : Scan) (c : ℕ) (b rest : Bytes) (e e' : Emitter)
    → scan_round s (c ∷ b) e ≡ ok (s', rest) e'
    → Passed c b s s' rest
unfolding scan_round
scan_round-Passed s s' c b rest e e' h =
    let value = c ∷ b in
    let (next, e₁, _, h₁) =
      >>=-eq-ok
        (if ltb (width c) (length value) then checked (get_elem? value (width c)) else pure 0) _ e
        h in
    let (printable, e₂, _, h₂) =
      >>=-eq-ok (checked (if c == 0x09 then some true else is_printable value)) _ e₁ h₁ in
    let (break, e₃, _, h₃) =
      >>=-eq-ok (checked (if c == b' ' then some false else is_break value 0)) _ e₂ h₂ in
    let (previous, e₄, _, h₄) = >>=-eq-ok (checked (is_blankz value 0)) _ e₃ h₃ in
    let (left, e₅, sliced, h₅) = >>=-eq-ok (slice (width c) value) _ e₄ h₄ in
    subst (λ (r : Scan × Bytes). Passed c b s r.0 r.1) (pure-injective h₅)
      (record {
        advanced = slice-drop (width c) value e₄ sliced;
        allowed = λ p. scan_char-Allowed s c _ _ printable break p;
      })

harmless-cons :
    {c d : ℕ} {b rest : Bytes}
    → rest ≡ drop (width c) (c ∷ b)
    → flow_indicator c ≡ false
    → ((x : ℕ) → Begins x rest → flow_indicator x ≡ false)
    → Begins d (c ∷ b)
    → flow_indicator d ≡ false
harmless-cons p q f here = q
harmless-cons p q f (later y) = f _ (subst (Begins _) (sym p) y)

harmless-nil : {c : ℕ} → Begins c [] → flow_indicator c ≡ false
harmless-nil x = elim x [ ]

-- The loop from a value to its end.
walk-Allowed :
    (fuel : ℕ) (s s' : Scan) (value : Bytes) (e e' : Emitter)
    → walk scan_round fuel s value e ≡ ok s' e'
    → s'.scalar.flow_plain_allowed ≡ true
    → (s.scalar.flow_plain_allowed ≡ true) × ((c : ℕ) → Begins c value → flow_indicator c ≡ false)
unfolding walk
walk-Allowed zero s s' [] e e' h p = (
  subst (λ (x : Scan). x.scalar.flow_plain_allowed ≡ true) (sym (pure-injective h)) p,
  λ c x. harmless-nil x,
)
walk-Allowed (suc fuel) s s' [] e e' h p = (
  subst (λ (x : Scan). x.scalar.flow_plain_allowed ≡ true) (sym (pure-injective h)) p,
  λ c x. harmless-nil x,
)
walk-Allowed zero s s' (c ∷ b) e e' h p = cc
walk-Allowed (suc fuel) s s' (c ∷ b) e e' h p =
    let ((s₁, rest), e₁, round, h₁) = >>=-eq-ok (scan_round s (c ∷ b)) _ e h in
    let passed = scan_round-Passed s s₁ c b rest e e₁ round in
    let (q, behind) = walk-Allowed fuel s₁ s' rest e₁ e' h₁ p in
    let at = passed.allowed q in
    (at.before, λ d x. harmless-cons passed.advanced at.harmless behind x)

-- When analyzeScalar succeeds and allows the plain style in flow collections, no character of the
-- value begins with one of `,`, `?`, `[`, `]`, `{`, `}` and `:`.
pub analyze_scalar-flow :
    (value : Bytes) (sd : ScalarData) (e e' : Emitter) (c : ℕ)
    → analyze_scalar value e ≡ ok sd e'
    → sd.flow_plain_allowed ≡ true
    → Begins c value
    → one_of (codes ",?[]{}:") c ≡ false
unfolding analyze_scalar for_value
analyze_scalar-flow [] sd e e' c h p x = harmless-nil x
analyze_scalar-flow (a ∷ b) sd e e' c h p x =
    let (s, e₁, walked, h₁) =
      >>=-eq-ok (for_value scan_round (initial_scan (a ∷ b)) (a ∷ b)) (λ s. pure s.scalar) e h in
    let q = subst (λ (d : ScalarData). d.flow_plain_allowed ≡ true) (sym (pure-injective h₁)) p in
    (walk-Allowed (length (a ∷ b)) (initial_scan (a ∷ b)) s (a ∷ b) e e₁ walked q).1 c x
