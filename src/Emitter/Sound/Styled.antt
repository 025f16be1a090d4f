-- ===== src/Emitter/Sound/Styled.antt =====
-- processScalar ends on text: the writers of the plain, single-quoted, double-quoted and literal styles.
use yaml.Common.{ℕ, ◌≡◌, ◌≢◌, refl, Bool, [], ◌∷◌, Bytes}
use yaml.Chars.Text.{Text}
use yaml.Event.{
  plain_scalar_style, single_quoted_scalar_style, double_quoted_scalar_style, literal_scalar_style,
}
use yaml.Emitter.State.{Emitter}
use yaml.Emitter.Node.{write_styled}
use yaml.Emitter.Bind.{Ends}
use yaml.Emitter.Sound.{Sound, stem, Kept, Any, Keeps}
use yaml.Emitter.Sound.Scalar.{write_plain_scalar-Keeps}
use yaml.Emitter.Sound.Quoted.{write_single_quoted_scalar-Keeps, write_double_quoted_scalar-Keeps}
use yaml.Emitter.Sound.Literal.{write_literal_scalar-Keeps}

-- A style that can write the value: the plain or a quoted one, or the literal one if there is a value.
pub data Writes (value : Bytes) : ℕ → Type 0 where
  plain : {s : ℕ} → s ≡ plain_scalar_style → Writes value s
  single_quoted : {s : ℕ} → s ≡ single_quoted_scalar_style → Writes value s
  double_quoted : {s : ℕ} → s ≡ double_quoted_scalar_style → Writes value s
  literal : {s : ℕ} → s ≡ literal_scalar_style → value ≢ [] → Writes value s

literal-Keeps :
    {k : Emitter} (value : Bytes) (allow : Bool)
    → Text value
    → value ≢ []
    → Keeps k (write_styled literal_scalar_style value allow)
unfolding write_styled
literal-Keeps [] allow t h = absurd (h refl)
literal-Keeps (c ∷ b) allow t h = write_literal_scalar-Keeps c b t

-- On text, with text for the pending comments, the writer of a plain, single-quoted or double-quoted
-- scalar, and that of a literal scalar on a value that is not empty, neither panics nor loops for ever,
-- whatever the io.Writer does: it returns an error, or it ends with the comments still text and nothing
-- changed but comments, position and layout flags.
pub write_styled-Keeps :
    (k : Emitter) (style : ℕ) (value : Bytes) (allow_breaks : Bool)
    → Writes value style
    → Text value
    → (e : Emitter) → Sound e
    → stem e ≡ k
    → Ends (Kept k Any) (write_styled style value allow_breaks e)
unfolding write_styled
write_styled-Keeps k style value allow (plain p) t = rw p (write_plain_scalar-Keeps value allow t)
write_styled-Keeps k style value allow (single_quoted p) t =
    rw p (write_single_quoted_scalar-Keeps value allow t)
write_styled-Keeps k style value allow (double_quoted p) t =
    rw p (write_double_quoted_scalar-Keeps value allow t)
write_styled-Keeps k style value allow (literal p h) t = rw p (literal-Keeps value allow t h)
