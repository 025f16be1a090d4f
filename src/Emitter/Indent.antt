-- ===== src/Emitter/Indent.antt =====
-- writeIndent and increaseIndent of internal/emitter: where the next line stands.
use yaml.Common.{
  ℕ, zero, suc, ◌+◌, ◌-◌, ◌≤◌, ◌<◌, ◌≡◌, refl, sym, subst, ◌∙◌, Bool, true, false, [], ◌∷◌, ◌++◌,
  append-nil, replicate, is_nat, floor_zero, minus_one, arith, if◌then◌else◌, ltb, Bool-cases, inl,
  inr,
}
use yaml.Emitter.State.{Emitter, when}
use yaml.Emitter.Output.{put, put_break, absorb, advance}
use yaml.Emitter.Write.{pad, needs_break, write_indent}
use yaml.Emitter.Bind.{Ends, returns, Ends-bind, Ends-map}
use yaml.Emitter.Frame.{Laid, Laid-trans, put-Ends, put_break-Ends}

-- `b` line breaks, or none, were written.
record Broken (b : Bool) (e e' : Emitter) : Type 0 where
  laid : Laid (replicate (if b then 1 else 0) 0x0A) e e'
  column : e'.column ≡ (if b then 0 else e.column)
  line : e'.line ≡ e.line + (if b then 1 else 0)
  foot : e'.foot_indent ≡ e.foot_indent

when_break-Ends : (b : Bool) (e : Emitter) → Ends (λ _ e'. Broken b e e') (when b put_break e)
when_break-Ends true e = put_break-Ends e (record {
  laid = record { written = refl; frame = refl };
  column = refl;
  line = omega arith;
  foot = refl;
})
when_break-Ends false e = returns (record {
  laid = record { written = sym (append-nil _); frame = refl };
  column = refl;
  line = omega arith;
  foot = refl;
})

-- Spaces were written up to the column.
record Padded (indent : ℕ) (e e' : Emitter) : Type 0 where
  laid : Laid (replicate (indent - e.column) b' ') e e'
  column : e.column ≤ indent → e'.column ≡ indent
  line : e'.line ≡ e.line

no_padding : (indent : ℕ) (e : Emitter) → indent ≤ e.column → Padded indent e e
no_padding indent e h =
    let none_left : indent - e.column ≡ 0 = omega arith in
    record {
      laid = record { written = rw none_left (sym (append-nil _)); frame = refl };
      column = λ le. omega arith;
      line = refl;
    }

-- One space, and then the rest.
one_padding :
    (indent : ℕ) (e e' : Emitter)
    → e.column < indent
    → Padded indent (advance (absorb (b' ' ∷ []) e)) e'
    → Padded indent e e'
one_padding indent e e' h p =
    let one_less : indent - e.column ≡ suc (indent - suc e.column) = omega arith in
    record {
      laid =
          rw one_less (Laid-trans {s = b' ' ∷ []} (record { written = refl; frame = refl }) p.laid);
      column = λ _. p.column h;
      line = p.line;
    }

pad-Ends :
    (rounds indent : ℕ) (e : Emitter)
    → indent ≤ rounds + e.column
    → Ends (λ _ e'. Padded indent e e') (pad rounds indent e)
unfolding pad
pad-Ends zero indent e h =
    let stop : ltb e.column indent ≡ false = ground arith in
    rw stop (returns (no_padding indent e (omega arith)))
pad-Ends (suc rounds) indent e h = elim (Bool-cases (ltb e.column indent)) [
  | inl more ↦ rw more (
      Ends-bind (put b' ') _ e (
        put-Ends b' ' e (
          Ends-map (λ _ e' p. one_padding indent e e' (ground arith) p)
            (pad-Ends rounds indent (advance (absorb (b' ' ∷ []) e)) (omega arith)))))
  | inr stop ↦ rw stop (returns (no_padding indent e (ground arith)))
]

-- The line breaks that writeIndent writes.
abbrev breaks_first : Emitter → Bool
breaks_first e = needs_break e (floor_zero e.indent_level)

abbrev breaks_foot : Emitter → Bool
breaks_foot e = is_nat e.foot_indent (floor_zero e.indent_level)

abbrev break_count : Emitter → ℕ
break_count e = (if breaks_first e then 1 else 0) + (if breaks_foot e then 1 else 0)

-- The spaces that it writes: up to the level, from the column or from the start of a line.
abbrev space_count : Emitter → ℕ
space_count e =
    floor_zero e.indent_level
    - (if breaks_first e then 0 else if breaks_foot e then 0 else e.column)

-- The next character stands at the level.
pub record Indented (e e' : Emitter) : Type 0 where
  pub laid : Laid (replicate (break_count e) 0x0A ++ replicate (space_count e) b' ') e e'
  pub column : e'.column ≡ floor_zero e.indent_level
  pub line : e'.line ≡ e.line + break_count e
  pub whitespace : e'.last_char_whitespace ≡ true
  pub foot : e'.foot_indent ≡ minus_one

abbrev count : Bool → ℕ
count b = if b then 1 else 0

replicate-count :
    (b c : Bool) (x : ℕ)
    → replicate (count b + count c) x ≡ replicate (count b) x ++ replicate (count c) x
replicate-count true true x = refl
replicate-count true false x = refl
replicate-count false true x = refl
replicate-count false false x = refl

abbrev settled : Emitter → Emitter
settled e = record e { last_char_whitespace = true; foot_indent = minus_one }

module _ (e e₁ e₂ e₃ : Emitter) where
  -- The column behind the breaks is not past the level.
  column_behind_breaks :
      Broken (breaks_first e) e e₁
      → Broken (breaks_foot e) e₁ e₂
      → (e₂.column ≤ floor_zero e.indent_level)
        × (space_count e ≡ floor_zero e.indent_level - e₂.column)
        × (e₂.line ≡ e.line + break_count e)
  unfolding needs_break
  column_behind_breaks p q = ground (arith, p.column, q.column, p.line, q.line)

  indented :
      Broken (breaks_first e) e e₁
      → Broken (breaks_foot e) e₁ e₂
      → Padded (floor_zero e.indent_level) e₂ e₃
      → Indented e (settled e₃)
  indented p q r =
      let (low, spaces, lines) = column_behind_breaks p q in
      let all_laid = Laid-trans (Laid-trans p.laid q.laid) r.laid in
      record {
        laid = record {
          written =
              rw (replicate-count (breaks_first e) (breaks_foot e) 0x0A, spaces) all_laid.written;
          frame = all_laid.frame;
        };
        column = r.column low;
        line = r.line ∙ lines;
        whitespace = refl;
        foot = refl;
      }

-- writeIndent returns an error, or it has written its line breaks, at most two, and
-- the spaces that bring the column to the indentation level; the line counts the breaks, and only the
-- output fields have changed.
pub write_indent-Indented : (e : Emitter) → Ends (λ _ e'. Indented e e') (write_indent e)
unfolding write_indent
write_indent-Indented e =
    let n = floor_zero e.indent_level in
    Ends-bind (when (breaks_first e) put_break) _ e (
      Ends-map
        (λ _ e₁ p. Ends-bind (when (is_nat e₁.foot_indent n) put_break) _ e₁ (
          Ends-map
            (λ _ e₂ q. Ends-bind (pad n n) _ e₂ (
              Ends-map
                (λ _ e₃ r.
                  returns
                    (indented e e₁ e₂ e₃ p (subst (λ z. Broken (is_nat z n) e₁ e₂) p.foot q) r))
                (pad-Ends n n e₂ (omega arith))))
            (when_break-Ends (is_nat e₁.foot_indent n) e₁)))
        (when_break-Ends (breaks_first e) e))
