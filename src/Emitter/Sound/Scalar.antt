-- ===== src/Emitter/Sound/Scalar.antt =====
-- The writers of tags and of plain, single-quoted and double-quoted scalars end on text.
use yaml.Common.{
  ℕ, zero, suc, ◌<◌, ◌≡◌, ◌≢◌, refl, Bool, true, false, not, ◌&&◌, ◌||◌, none, some, [], ◌∷◌, Bytes,
  length, is_empty, get_elem?, ltb, ◌==◌, exceeds, arith,
}
use yaml.Chars.{width, is_break, is_space, ◌&&?◌}
use yaml.Chars.Text.{Text, is_break-ne-none}
use yaml.Emitter.State.{Emitter}
use yaml.Emitter.Write.{is_tag_char, tag_round, write_tag_content}
use yaml.Emitter.Write.Comment.{clear_indent}
use yaml.Emitter.Write.Plain.{
  ScalarVars, break_round, space_round, plain_char_round, plain_space, plain_round,
  write_plain_scalar,
}
use yaml.Emitter.Sound.{
  Meets, Keeps, Meets-bind, Meets-pure, Keeps-when, Meets-checked, Less, Keeps-for_value,
}
use yaml.Emitter.Sound.Write.{
  put_break-Keeps, write_indent-Keeps, separate-Keeps, fields-Keeps, plain_char-Keeps,
  write_octets-Keeps, write-Meets, write_break-Meets, slice-Meets,
}
use yaml.Emitter.Sound.Comment.{if-Meets}

pub get_elem?-ne-none : (b : Bytes) (i : ℕ) → i < length b → get_elem? b i ≢ none
get_elem?-ne-none [] i h = elim h [ ]
get_elem?-ne-none (c ∷ b) zero h = cc
get_elem?-ne-none (c ∷ b) (suc i) h = get_elem?-ne-none b i (omega arith)

next_space-ne-none : (w : ℕ) (b : Bytes) → (some (ltb w (length b)) &&? is_space b w) ≢ none
unfolding is_space
next_space-ne-none w b = ground (arith, get_elem?-ne-none b w)

module _ {k : Emitter} where
  tag_round-Meets :
      (u : Unit {0}) (c : ℕ) (b : Bytes)
      → Text (c ∷ b)
      → Meets k (Less (length (c ∷ b))) (tag_round u (c ∷ b))
  unfolding tag_round
  tag_round-Meets u c b t =
      Meets-bind
        (if-Meets {Q = λ n. n ≡ width c} (is_tag_char c) (write-Meets c b)
          (Meets-bind (write_octets-Keeps (width c) c) (λ _ _. Meets-pure refl)))
        (λ n q.
          Meets-bind (slice-Meets n c b t q)
            (λ r (x, y). Meets-pure {a = (tt, r)} (record { text = x; less = y })))

  pub write_tag_content-Keeps : (b : Bytes) (w : Bool) → Text b → Keeps k (write_tag_content b w)
  unfolding write_tag_content
  write_tag_content-Keeps b w t = Meets-bind (separate-Keeps w) (λ _ _.
      Meets-bind (Keeps-for_value tag_round tag_round-Meets tt b t) (λ _ _. plain_char-Keeps))

  pub break_round-Meets :
      (spaces breaks : Bool) (c : ℕ) (b : Bytes)
      → Text (c ∷ b)
      → Meets k (Less (length (c ∷ b))) (break_round spaces breaks c (c ∷ b))
  unfolding break_round
  break_round-Meets spaces breaks c b t =
      Meets-bind (Keeps-when (not breaks && c == 0x0A) put_break-Keeps) (λ _ _.
        Meets-bind (write_break-Meets c b) (λ n q.
          Meets-bind (slice-Meets n c b t q)
            (λ r (x, y). Meets-pure {a = ((spaces, true), r)} (record { text = x; less = y }))))

  pub space_round-Meets :
      (fold breaks : Bool) (c : ℕ) (b : Bytes)
      → Text (c ∷ b)
      → Meets k (Less (length (c ∷ b))) (space_round fold breaks (width c) (c ∷ b))
  unfolding space_round
  space_round-Meets fold breaks c b t =
      Meets-bind
        (if-Meets {Q = λ n. n ≡ width c} fold
          (Meets-bind write_indent-Keeps (λ _ _. Meets-pure refl)) (write-Meets c b))
        (λ n q.
          Meets-bind (slice-Meets n c b t q)
            (λ r (x, y). Meets-pure {a = ((true, breaks), r)} (record { text = x; less = y })))

  pub plain_char_round-Meets :
      (breaks : Bool) (c : ℕ) (b : Bytes)
      → Text (c ∷ b)
      → Meets k (Less (length (c ∷ b))) (plain_char_round breaks (c ∷ b))
  unfolding plain_char_round
  plain_char_round-Meets breaks c b t = Meets-bind (Keeps-when breaks write_indent-Keeps) (λ _ _.
      Meets-bind (write-Meets c b) (λ n q. Meets-bind (slice-Meets n c b t q) (λ r (x, y).
        Meets-bind (fields-Keeps clear_indent (λ e. refl))
          (λ _ _. Meets-pure {a = ((false, false), r)} (record { text = x; less = y })))))

  plain_space-Meets :
      (allow spaces breaks : Bool) (c : ℕ) (b : Bytes)
      → Text (c ∷ b)
      → Meets k (Less (length (c ∷ b))) (plain_space allow spaces breaks (width c) (c ∷ b))
  unfolding plain_space
  plain_space-Meets allow spaces breaks c b t =
      Meets-bind
        (Meets-checked (some (ltb (width c) (length (c ∷ b))) &&? is_space (c ∷ b) (width c))
          (next_space-ne-none (width c) (c ∷ b)))
        (λ next _ e s p.
          space_round-Meets (allow && not spaces && exceeds e.column e.best_width && not next)
            breaks c b t e s p)

  plain_round-Meets :
      (allow : Bool) (v : ScalarVars) (c : ℕ) (b : Bytes)
      → Text (c ∷ b)
      → Meets k (Less (length (c ∷ b))) (plain_round allow v (c ∷ b))
  unfolding plain_round
  plain_round-Meets allow (spaces, breaks) c b t =
      if-Meets (c == b' ') (plain_space-Meets allow spaces breaks c b t) (
        Meets-bind (Meets-checked (is_break (c ∷ b) 0) (is_break-ne-none t)) (λ break _.
          if-Meets break (break_round-Meets spaces breaks c b t)
            (plain_char_round-Meets breaks c b t)))

  pub write_plain_scalar-Keeps :
      (b : Bytes) (allow : Bool) → Text b → Keeps k (write_plain_scalar b allow)
  unfolding write_plain_scalar
  write_plain_scalar-Keeps b allow t = Meets-bind (separate-Keeps (not (is_empty b))) (λ _ _.
      Meets-bind (Keeps-for_value (plain_round allow) (plain_round-Meets allow) (false, false) b t)
        (λ _ _.
          fields-Keeps
            (λ e. record e {
              last_char_whitespace = is_empty b && e.last_char_whitespace;
              last_char_indent = false;
              open_ended = e.root_context || e.open_ended;
            })
            (λ e. refl)))
