-- ===== src/Emitter/Write/Comment.antt =====
-- writeComment of internal/emitter/write.go, and the handlers of internal/emitter/process.go that
-- write the pending comments.
use yaml.Common.{
  ℕ, Bool, true, false, not, ◌&&◌, [], ◌∷◌, Bytes, is_empty, ◌==◌, if◌then◌else◌, pos, floor_zero,
  codes,
}
use yaml.Chars.{is_break}
use yaml.Emitter.State.{
  Emitter, M, ◌>>=◌, ◌>>◌, pure, get, modify, when, checked, slice, panic_here, for_value,
}
use yaml.Emitter.Output.{put_break, write, write_all, write_break}
use yaml.Emitter.Write.{separate, write_indent}

abbrev pub clear_indent : Emitter → Emitter
clear_indent e = record e { last_char_indent = false }

-- The variables `breaks` and `pound` of the loop.
abbrev pub CommentVars : Type 0
CommentVars = Bool × Bool

-- A round at a line break.
unfoldable pub comment_break : Bytes → M (CommentVars × Bytes)
unfolding write_break
comment_break comment = do
  n ← write_break comment
  rest ← slice n comment
  pure ((true, false), rest)

-- A round at any other character, the first byte of which is `c`.
unfoldable pub comment_char : Bool → Bool → ℕ → Bytes → M (CommentVars × Bytes)
unfolding write_indent write_all write
comment_char breaks pound c comment = do
  when breaks write_indent
  when (not pound && not (c == b'#')) (write_all (codes "# "))
  n ← write comment
  rest ← slice n comment
  modify clear_indent
  pure ((false, true), rest)

unfoldable pub comment_round : CommentVars → Bytes → M (CommentVars × Bytes)
unfolding is_break comment_break comment_char
comment_round _ [] = panic_here
comment_round (breaks, pound) (c ∷ comment) = do
  break ← checked (is_break (c ∷ comment) 0)
  if break then comment_break (c ∷ comment) else comment_char breaks pound c (c ∷ comment)

unfoldable pub write_comment : Bytes → M (Unit {0})
unfolding comment_round for_value put_break
write_comment comment = do
  (breaks, pound) ← for_value comment_round (false, false) comment
  when (not breaks) put_break
  modify (λ e. record e { last_char_whitespace = true })

unfoldable pub process_line_comment : M (Unit {0})
unfolding separate write_comment
process_line_comment = do
  e ← get
  when (not (is_empty e.line_comment))
      (do separate true; write_comment e.line_comment; modify (λ e. record e { line_comment = [] }))

abbrev pub mark_foot : Emitter → Emitter
mark_foot e = record e { foot_indent = pos (floor_zero e.indent_level) }

-- The first half of processHeadComment.
unfoldable pub process_tail_comment : M (Unit {0})
unfolding write_indent write_comment
process_tail_comment = do
  e ← get
  when (not (is_empty e.tail_comment)) (do
    write_indent
    write_comment e.tail_comment
    modify (λ e. mark_foot (record e { tail_comment = [] })))

unfoldable pub process_head_comment : M (Unit {0})
unfolding process_tail_comment write_indent write_comment
process_head_comment = do
  process_tail_comment
  e ← get
  when (not (is_empty e.head_comment))
      (do write_indent; write_comment e.head_comment; modify (λ e. record e { head_comment = [] }))

unfoldable pub process_foot_comment : M (Unit {0})
unfolding write_indent write_comment
process_foot_comment = do
  e ← get
  when (not (is_empty e.foot_comment)) (do
    write_indent
    write_comment e.foot_comment
    modify (λ e. mark_foot (record e { foot_comment = [] })))
