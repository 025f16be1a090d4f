-- ===== src/Emitter/Write/Block.antt =====
-- writeBlockScalarHints, writeLiteralScalar and writeFoldedScalar of internal/emitter/write.go.
use yaml.Common.{
  ℕ, zero, suc, ◌+◌, ◌%◌, bit_and, Bool, true, false, not, ◌&&◌, Option, none, some, [], ◌∷◌, Bytes,
  length, get_elem?, ltb, ◌==◌, if◌then◌else◌, exceeds,
}
use yaml.Chars.{Checked, is_break, is_space, is_blank, is_blankz, width, ◌&&?◌, ◌||?◌, not?}
use yaml.Emitter.State.{
  M, ◌>>=◌, ◌>>◌, pure, done, get, modify, when, checked, slice, panic_here, for_value,
}
use yaml.Emitter.Output.{put_break, write, write_break}
use yaml.Emitter.Write.{write_indent, write_indicator}
use yaml.Emitter.Write.Comment.{process_line_comment, clear_indent}

pub data Chomp : Type 0 where
  strip clip keep : Chomp

-- `for value[i]&0xC0 == 0x80 { i-- }`: the index that the loop stops at.
unfoldable pub lead_index : Bytes → ℕ → Option ℕ
lead_index value zero = elim (get_elem? value 0) [
  | none ↦ none
  | some c ↦ if bit_and c 0xC0 == 0x80 then none else some 0
]
lead_index value (suc i) =
    let before = lead_index value i in
    elim (get_elem? value (suc i)) [
      | none ↦ none
      | some c ↦ if bit_and c 0xC0 == 0x80 then before else some (suc i)
    ]

-- The hint of a value whose last character, a line break, begins at the index.
unfoldable pub chomp_at : Bytes → ℕ → Option Chomp
unfolding lead_index is_break
chomp_at value zero = some keep
chomp_at value (suc i) = elim (lead_index value i) [
  | none ↦ none
  | some j ↦ elim (is_break value j) [ none ↦ none | some b ↦ some (if b then keep else clip) ]
]

unfoldable pub chomp : Bytes → Option Chomp
unfolding lead_index is_break chomp_at
chomp [] = some strip
chomp (c ∷ value) = elim (lead_index (c ∷ value) (length value)) [
  | none ↦ none
  | some i ↦ elim (is_break (c ∷ value) i) [
    | none ↦ none
    | some b ↦ if b then chomp_at (c ∷ value) i else some strip
  ]
]

unfoldable pub write_chomp : Chomp → M (Unit {0})
unfolding write_indicator
write_chomp strip = write_indicator (b'-' ∷ []) false false false
write_chomp clip = done
write_chomp keep = do
  modify (λ e. record e { open_ended = true })
  write_indicator (b'+' ∷ []) false false false

unfoldable pub write_block_scalar_hints : Bytes → M (Unit {0})
unfolding is_space is_break chomp write_chomp write_indicator
write_block_scalar_hints value = do
  hinted ← checked (is_space value 0 ||? is_break value 0)
  e ← get
  when hinted (write_indicator (((b'0' + e.indent) % 256) ∷ []) false false false)
  modify (λ e. record e { open_ended = false })
  hint ← checked (chomp value)
  write_chomp hint

-- What both block writers do before their loops.
unfoldable pub write_block_header : ℕ → Bytes → M (Unit {0})
unfolding write_indicator write_block_scalar_hints process_line_comment
write_block_header indicator value = do
  write_indicator (indicator ∷ []) true false false
  write_block_scalar_hints value
  process_line_comment
  modify (λ e. record e { last_char_whitespace = true })

-- The variable of the loop is `breaks`.
unfoldable pub literal_round : Bool → Bytes → M (Bool × Bytes)
unfolding is_break write_break write_indent write
literal_round breaks value = do
  break ← checked (is_break value 0)
  if break then (do n ← write_break value; rest ← slice n value; pure (true, rest)) else (do
    when breaks write_indent
    n ← write value
    rest ← slice n value
    modify clear_indent
    pure (false, rest))

unfoldable pub write_literal_scalar : Bytes → M (Unit {0})
unfolding write_block_header literal_round for_value
write_literal_scalar value = do
  write_block_header b'|' value
  _ ← for_value literal_round true value
  done

-- `for Is_break(value, k) { k += Width(value[k]) }`; a break is a byte or more, and the text ends.
unfoldable skip_breaks : ℕ → Bytes → ℕ → Option ℕ
unfolding is_break width
skip_breaks zero value k = none
skip_breaks (suc fuel) value k = elim (is_break value k) [
  | none ↦ none
  | some false ↦ some k
  | some true ↦ elim (get_elem? value k) [
    | none ↦ none
    | some c ↦ skip_breaks fuel value (k + width c)
  ]
]

-- Whether the run of breaks ends before a character that is no blank, break or NUL.
unfoldable breaks_before_text : Bytes → Checked
unfolding skip_breaks is_blankz
breaks_before_text value = elim (skip_breaks (length value + 1) value 0) [
  | none ↦ none
  | some k ↦ not? (is_blankz value k)
]

-- The variables `breaks` and `leading_spaces` of the loop.
abbrev FoldedVars : Type 0
FoldedVars = Bool × Bool

unfoldable folded_break : FoldedVars → ℕ → Bytes → M (FoldedVars × Bytes)
unfolding breaks_before_text put_break write_break
folded_break (breaks, leading_spaces) c value = do
  double ←
      checked (some (not breaks && not leading_spaces && c == 0x0A) &&? breaks_before_text value)
  when double put_break
  n ← write_break value
  rest ← slice n value
  pure ((true, leading_spaces), rest)

unfoldable folded_char : FoldedVars → ℕ → Bytes → M (FoldedVars × Bytes)
unfolding write_indent is_blank is_space width write
folded_char (breaks, leading_spaces) c value = do
  when breaks write_indent
  blank ← checked (is_blank value 0)
  let w = width c
  next_is_space ← checked (some (ltb w (length value)) &&? is_space value w)
  e ← get
  n ←
      if not breaks && c == b' ' && not next_is_space && exceeds e.column e.best_width
      then (do write_indent; pure w)
      else write value
  rest ← slice n value
  modify clear_indent
  pure ((false, if breaks then blank else leading_spaces), rest)

unfoldable folded_round : FoldedVars → Bytes → M (FoldedVars × Bytes)
unfolding is_break folded_break folded_char
folded_round vars [] = panic_here
folded_round vars (c ∷ value) = do
  break ← checked (is_break (c ∷ value) 0)
  if break then folded_break vars c (c ∷ value) else folded_char vars c (c ∷ value)

unfoldable pub write_folded_scalar : Bytes → M (Unit {0})
unfolding write_block_header folded_round for_value
write_folded_scalar value = do
  write_block_header b'>' value
  _ ← for_value folded_round (true, true) value
  done
