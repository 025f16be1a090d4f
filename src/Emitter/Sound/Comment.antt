-- ===== src/Emitter/Sound/Comment.antt =====
-- writeComment and the handlers of pending comments end on text, and keep the comments text.
use yaml.Common.{
  ℕ, refl, Bool, true, false, not, ◌&&◌, [], ◌∷◌, Bytes, length, is_empty, ◌==◌, codes,
  if◌then◌else◌,
}
use yaml.Chars.{is_break}
use yaml.Chars.Text.{Text, empty, is_break-ne-none}
use yaml.Emitter.State.{Emitter, M}
use yaml.Emitter.Write.Comment.{
  CommentVars, comment_break, comment_char, comment_round, write_comment, process_line_comment,
  process_tail_comment, process_head_comment, process_foot_comment, clear_indent, mark_foot,
}
use yaml.Emitter.Sound.{
  Meets, Keeps, Meets-bind, Meets-pure, Keeps-modify, Keeps-when, Meets-checked, Less,
  Keeps-for_value,
}
use yaml.Emitter.Sound.Write.{
  put_break-Keeps, write_all-Keeps, write_indent-Keeps, separate-Keeps, fields-Keeps, write-Meets,
  write_break-Meets, slice-Meets,
}

pub if-Meets :
    {k : Emitter} {A : Type 0} {Q : A → Type 0} (b : Bool) {m n : M A}
    → Meets k Q m
    → Meets k Q n
    → Meets k Q (if b then m else n)
if-Meets true h g = h
if-Meets false h g = g

module _ {k : Emitter} where
  -- `n ← write value; rest ← slice n value; pure (s, rest)`, and the same with writeBreak.
  comment_break-Meets :
      (c : ℕ) (b : Bytes) → Text (c ∷ b) → Meets k (Less (length (c ∷ b))) (comment_break (c ∷ b))
  unfolding comment_break
  comment_break-Meets c b t = Meets-bind (write_break-Meets c b) (λ n q.
      Meets-bind (slice-Meets n c b t q) (λ r (x, y). Meets-pure (record { text = x; less = y })))

  comment_char-Meets :
      (breaks pound : Bool) (c : ℕ) (b : Bytes)
      → Text (c ∷ b)
      → Meets k (Less (length (c ∷ b))) (comment_char breaks pound c (c ∷ b))
  unfolding comment_char
  comment_char-Meets breaks pound c b t = Meets-bind (Keeps-when breaks write_indent-Keeps) (λ _ _.
      Meets-bind (Keeps-when (not pound && not (c == b'#')) (write_all-Keeps (codes "# "))) (λ _ _.
        Meets-bind (write-Meets c b) (λ n q. Meets-bind (slice-Meets n c b t q) (λ r (x, y).
          Meets-bind (fields-Keeps clear_indent (λ e. refl))
            (λ _ _. Meets-pure {a = ((false, true), r)} (record { text = x; less = y }))))))

  comment_round-Meets :
      (v : CommentVars) (c : ℕ) (b : Bytes)
      → Text (c ∷ b)
      → Meets k (Less (length (c ∷ b))) (comment_round v (c ∷ b))
  unfolding comment_round
  comment_round-Meets (breaks, pound) c b t =
      Meets-bind (Meets-checked (is_break (c ∷ b) 0) (is_break-ne-none t)) (λ break _.
        if-Meets break (comment_break-Meets c b t) (comment_char-Meets breaks pound c b t))

  pub write_comment-Keeps : (b : Bytes) → Text b → Keeps k (write_comment b)
  unfolding write_comment
  write_comment-Keeps b t =
      Meets-bind (Keeps-for_value comment_round comment_round-Meets (false, false) b t) (λ v _.
        Meets-bind (Keeps-when (not v.0) put_break-Keeps)
          (λ _ _. fields-Keeps (λ e. record e { last_char_whitespace = true }) (λ e. refl)))

  pub process_line_comment-Keeps : Keeps k process_line_comment
  unfolding process_line_comment
  process_line_comment-Keeps e s p =
      Keeps-when (not (is_empty e.line_comment))
        (Meets-bind (separate-Keeps true) (λ _ _.
          Meets-bind (write_comment-Keeps e.line_comment s.line) (λ _ _.
            Keeps-modify {f = λ e. record e { line_comment = [] }} (λ e s p. (
              record { head = s.head; line = empty; foot = s.foot; tail = s.tail; key = s.key },
              p,
            )))))
        e s p

  process_tail_comment-Keeps : Keeps k process_tail_comment
  unfolding process_tail_comment
  process_tail_comment-Keeps e s p =
      Keeps-when (not (is_empty e.tail_comment))
        (Meets-bind write_indent-Keeps (λ _ _.
          Meets-bind (write_comment-Keeps e.tail_comment s.tail) (λ _ _.
            Keeps-modify {f = λ e. mark_foot (record e { tail_comment = [] })} (λ e s p. (
              record { head = s.head; line = s.line; foot = s.foot; tail = empty; key = s.key },
              p,
            )))))
        e s p

  pub process_head_comment-Keeps : Keeps k process_head_comment
  unfolding process_head_comment
  process_head_comment-Keeps = Meets-bind process_tail_comment-Keeps (λ _ _ e s p.
      Keeps-when (not (is_empty e.head_comment))
        (Meets-bind write_indent-Keeps (λ _ _.
          Meets-bind (write_comment-Keeps e.head_comment s.head) (λ _ _.
            Keeps-modify {f = λ e. record e { head_comment = [] }} (λ e s p. (
              record { head = empty; line = s.line; foot = s.foot; tail = s.tail; key = s.key },
              p,
            )))))
        e s p)

  pub process_foot_comment-Keeps : Keeps k process_foot_comment
  unfolding process_foot_comment
  process_foot_comment-Keeps e s p =
      Keeps-when (not (is_empty e.foot_comment))
        (Meets-bind write_indent-Keeps (λ _ _.
          Meets-bind (write_comment-Keeps e.foot_comment s.foot) (λ _ _.
            Keeps-modify {f = λ e. mark_foot (record e { foot_comment = [] })} (λ e s p. (
              record { head = s.head; line = s.line; foot = empty; tail = s.tail; key = s.key },
              p,
            )))))
        e s p
