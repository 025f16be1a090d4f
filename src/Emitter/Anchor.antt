-- ===== src/Emitter/Anchor.antt =====
-- analyzeAnchor of internal/emitter/analyze.go.
use yaml.Common.{
  ℕ, zero, suc, ◌+◌, ◌≤◌, ◌<◌, ◌≡◌, refl, Bool, true, false, ◌&&◌, some, [], ◌∷◌, Bytes, length,
  is_empty, not, get_elem?, drop, arith, ltb, Bool-cases, inl, inr,
}
use yaml.Chars.{width, alpha}
use yaml.Chars.Text.{width-lead_length}
use yaml.Emitter.State.{Emitter, Error, Outcome, ok, err}
use yaml.Emitter.Analyze.{alpha_from, analyze_anchor}

alpha-width : (c : ℕ) → alpha c ≡ true → width c ≡ 1
unfolding alpha
alpha-width c h = ground (arith, width-lead_length c)

-- Every byte is a letter, a digit, `_` or `-`.
abbrev all_alpha : Bytes → Bool
all_alpha [] = true
all_alpha (c ∷ b) = alpha c && all_alpha b

-- An index within the list splits what is left from it.
record At (b : Bytes) (i : ℕ) : Type 0 where
  byte : ℕ
  found : get_elem? b i ≡ some byte
  split : drop i b ≡ byte ∷ drop (suc i) b

drop-At : (b : Bytes) (i : ℕ) → i < length b → At b i
drop-At [] i h = ground arith
drop-At (x ∷ b) zero h = record { byte = x; found = refl; split = refl }
drop-At (x ∷ b) (suc i) h =
    let at = drop-At b i (omega arith) in
    record { byte = at.byte; found = at.found; split = at.split }

drop-length : (b : Bytes) (i : ℕ) → length b ≤ i → drop i b ≡ []
drop-length [] zero h = refl
drop-length [] (suc i) h = refl
drop-length (x ∷ b) zero h = ground arith
drop-length (x ∷ b) (suc i) h = drop-length b i (omega arith)

step : {i : ℕ} (c : ℕ) → alpha c ≡ true → i + width c ≡ suc i
step c h = omega (arith, alpha-width c h)

alpha_from-all_alpha :
    (fuel : ℕ) (b : Bytes) (i : ℕ)
    → length b < fuel + i
    → i ≤ length b
    → alpha_from fuel b i (length b) ≡ some (all_alpha (drop i b))
unfolding alpha_from
alpha_from-all_alpha zero b i h le = ground arith
alpha_from-all_alpha (suc fuel) b i h le = elim (Bool-cases (ltb i (length b))) [
  | inl inside ↦
      let at = drop-At b i (ground arith) in
      elim (Bool-cases (alpha at.byte)) [
        | inl all ↦
            rw (inside, at.found, at.split, all, step at.byte all)
              (alpha_from-all_alpha fuel b (suc i) (omega arith) (ground arith))
        | inr other ↦ rw (inside, at.found, at.split, other) refl
      ]
  | inr behind ↦ rw (behind, drop-length b i (ground arith)) refl
]

-- What is to come of an anchor: it is stored, or refused with nothing changed.
pub data Judged (anchor : Bytes) (is_alias : Bool) (e : Emitter) : Outcome (Unit {0}) → Type 0 where
  stored :
      (not (is_empty anchor) && all_alpha anchor) ≡ true
      → Judged anchor is_alias e
          (ok tt (record e { anchor_data = record { anchor = some anchor; is_alias = is_alias } }))
  refused :
      (x : Error)
      → (not (is_empty anchor) && all_alpha anchor) ≡ false
      → Judged anchor is_alias e (err x e)

-- analyzeAnchor stores the anchor if it has a byte and all of its bytes are letters, digits, `_` or `-`,
-- and otherwise returns an error and changes nothing.
pub analyze_anchor-Judged :
    (anchor : Bytes) (is_alias : Bool) (e : Emitter)
    → Judged anchor is_alias e (analyze_anchor anchor is_alias e)
unfolding analyze_anchor
analyze_anchor-Judged [] is_alias e = refused _ refl
analyze_anchor-Judged (c ∷ b) is_alias e =
    let scanned = alpha_from-all_alpha (length (c ∷ b) + 1) (c ∷ b) 0 (omega arith) (omega arith) in
    elim (Bool-cases (all_alpha (c ∷ b))) [
      | inl all ↦ rw (scanned, all) (stored all)
      | inr other ↦ rw (scanned, other) (refused _ other)
    ]
