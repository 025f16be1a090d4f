-- ===== src/Emitter/Frame.antt =====
-- What the output primitives of internal/emitter/emitter.go change: the writer, the position and the
-- layout flags. Everything else stays as it is.
use yaml.Common.{
  ℕ, ◌≡◌, ◌∙◌, false, Option, none, some, [], ◌∷◌, ◌++◌, Bytes, take, minus_one, append_assoc,
}
use yaml.Emitter.State.{Writer, Emitter, ok, err, write_error}
use yaml.Emitter.Output.{raw_write, absorb, advance, new_line, put, put_break}
use yaml.Emitter.Bind.{Ends, returns, raises, Ends-bind}

abbrev no_writer : Writer
no_writer = record { written = []; fault = λ w b. none }

-- The emitter with the fields erased that output changes.
abbrev pub fixed : Emitter → Emitter
fixed e = record e {
  writer = no_writer;
  line = 0;
  column = 0;
  last_char_whitespace = false;
  last_char_indent = false;
  open_ended = false;
  foot_indent = minus_one;
}

-- From `e` to `e'` the bytes `s` were written, and nothing but the output fields changed.
pub record Laid (s : Bytes) (e e' : Emitter) : Type 0 where
  pub written : e'.writer.written ≡ e.writer.written ++ s
  pub frame : fixed e' ≡ fixed e

pub Laid-trans : {s t : Bytes} {e e₁ e₂ : Emitter} → Laid s e e₁ → Laid t e₁ e₂ → Laid (s ++ t) e e₂
Laid-trans {s} {t} {e} {e₁} {e₂} p q = record {
  written = simp (q.written, p.written, append_assoc);
  frame = q.frame ∙ p.frame;
}

pub raw_write-Ends :
    (b : Bytes) (e : Emitter) {Q : Unit {0} → Emitter → Type 0}
    → Q tt (absorb b e)
    → Ends Q (raw_write b e)
unfolding raw_write
raw_write-Ends b e {Q} q = go (e.writer.fault e.writer.written b)
  where
    go :
        (o : Option ℕ)
        → Ends Q
            (elim o [ none ↦ ok tt (absorb b e) | some n ↦ err write_error (absorb (take n b) e) ])
    go none = returns q
    go (some n) = raises

pub put-Ends :
    (c : ℕ) (e : Emitter) {Q : Unit {0} → Emitter → Type 0}
    → Q tt (advance (absorb (c ∷ []) e))
    → Ends Q (put c e)
unfolding put
put-Ends c e q = Ends-bind (raw_write (c ∷ [])) _ e (raw_write-Ends (c ∷ []) e (returns q))

pub put_break-Ends :
    (e : Emitter) {Q : Unit {0} → Emitter → Type 0}
    → Q tt (new_line (absorb (0x0A ∷ []) e))
    → Ends Q (put_break e)
unfolding put_break
put_break-Ends e q =
    Ends-bind (raw_write (0x0A ∷ [])) _ e (raw_write-Ends (0x0A ∷ []) e (returns q))
