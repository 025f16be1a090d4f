-- ===== src/Emitter/Write/Plain.antt =====
-- writePlainScalar of internal/emitter/write.go.
use yaml.Common.{
  ℕ, Bool, true, false, not, ◌&&◌, ◌||◌, some, [], ◌∷◌, Bytes, length, is_empty, ltb, ◌==◌,
  if◌then◌else◌, exceeds,
}
use yaml.Chars.{is_break, is_space, width, ◌&&?◌}
use yaml.Emitter.State.{
  M, ◌>>=◌, ◌>>◌, pure, get, modify, when, checked, slice, panic_here, for_value,
}
use yaml.Emitter.Output.{put_break, write, write_break}
use yaml.Emitter.Write.{separate, write_indent}
use yaml.Emitter.Write.Comment.{clear_indent}

-- The variables `spaces` and `breaks` of the loop.
abbrev pub ScalarVars : Type 0
ScalarVars = Bool × Bool

-- A round at a line break, the same in the plain and the single-quoted writer.
unfoldable pub break_round : Bool → Bool → ℕ → Bytes → M (ScalarVars × Bytes)
unfolding put_break write_break
break_round spaces breaks c value = do
  when (not breaks && c == 0x0A) put_break
  n ← write_break value
  rest ← slice n value
  pure ((spaces, true), rest)

-- A space is folded to a line break, or written.
unfoldable pub space_round : Bool → Bool → ℕ → Bytes → M (ScalarVars × Bytes)
unfolding write_indent write
space_round fold breaks w value = do
  n ← if fold then (do write_indent; pure w) else write value
  rest ← slice n value
  pure ((true, breaks), rest)

unfoldable pub plain_char_round : Bool → Bytes → M (ScalarVars × Bytes)
unfolding write_indent write
plain_char_round breaks value = do
  when breaks write_indent
  n ← write value
  rest ← slice n value
  modify clear_indent
  pure ((false, false), rest)

unfoldable pub plain_space : Bool → Bool → Bool → ℕ → Bytes → M (ScalarVars × Bytes)
unfolding is_space space_round
plain_space allow_breaks spaces breaks w value = do
  next_is_space ← checked (some (ltb w (length value)) &&? is_space value w)
  e ← get
  let fold = allow_breaks && not spaces && exceeds e.column e.best_width && not next_is_space
  space_round fold breaks w value

unfoldable pub plain_round : Bool → ScalarVars → Bytes → M (ScalarVars × Bytes)
unfolding is_break width break_round plain_space plain_char_round
plain_round allow_breaks _ [] = panic_here
plain_round allow_breaks (spaces, breaks) (c ∷ value) =
    if c == b' ' then plain_space allow_breaks spaces breaks (width c) (c ∷ value) else (do
      break ← checked (is_break (c ∷ value) 0)
      if break
          then break_round spaces breaks c (c ∷ value)
          else plain_char_round breaks (c ∷ value))

unfoldable pub write_plain_scalar : Bytes → Bool → M (Unit {0})
unfolding separate plain_round for_value
write_plain_scalar value allow_breaks = do
  separate (not (is_empty value))
  _ ← for_value (plain_round allow_breaks) (false, false) value
  modify (λ e. record e {
    last_char_whitespace = is_empty value && e.last_char_whitespace;
    last_char_indent = false;
    open_ended = e.root_context || e.open_ended;
  })
