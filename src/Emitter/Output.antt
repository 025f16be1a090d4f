-- ===== src/Emitter/Output.antt =====
-- The output primitives of internal/emitter/emitter.go.
use yaml.Common.{
  ℕ, zero, suc, ◌+◌, ◌-◌, ◌*◌, ◌/◌, Bool, true, false, not, ◌&&◌, ◌||◌, Option, none, some, List,
  [], ◌∷◌, ◌++◌, Bytes, length, is_empty, take, drop, ltb, leb, ◌==◌, if◌then◌else◌, ℤ, pos, negsuc,
  is_nat, increment, decrement, bytes_eq,
}
use yaml.Chars.{width, within}
use yaml.Event.{
  Event, EventType, TagDirective, stream_start, stream_end, document_start, document_end,
  sequence_start, sequence_end, mapping_start, mapping_end,
}
use yaml.Emitter.State.{
  Emitter, EmitterState, emit_block_sequence_item, message, write_error, ok, err, panic, M, ◌>>=◌,
  ◌>>◌, pure, done, get, modify, fail, checked, when,
}

abbrev pub absorb : Bytes → Emitter → Emitter
absorb b e = record e { writer = record (e.writer) { written = e.writer.written ++ b } }

-- `e.writer.Write(b)`
unfoldable pub raw_write : Bytes → M (Unit {0})
raw_write b e = elim (e.writer.fault e.writer.written b) [
  | none ↦ ok tt (absorb b e)
  | some n ↦ err write_error (absorb (take n b) e)
]

abbrev pub advance : Emitter → Emitter
advance e = record e { column = suc e.column }

-- The end of a line: what putBreak and writeBreak do to the counters.
abbrev pub new_line : Emitter → Emitter
new_line e = record e { column = 0; line = suc e.line; last_char_indent = true }

unfoldable pub put : ℕ → M (Unit {0})
unfolding raw_write
put c = do raw_write (c ∷ []); modify advance

unfoldable pub put_break : M (Unit {0})
unfolding raw_write
put_break = do raw_write (0x0A ∷ []); modify new_line

-- io.CopyN of `w` bytes of `b`: nothing is written for `w = 0`, and a source that ends too early is
-- the error io.EOF.
unfoldable pub copy_n : ℕ → Bytes → M (Unit {0})
unfolding raw_write
copy_n zero b e = ok tt e
copy_n (suc w) b e =
    if leb (suc w) (length b)
    then raw_write (take (suc w) b) e
    else (raw_write b >> fail write_error) e

-- write: one character of `b`; it returns the number of bytes read.
unfoldable pub write : Bytes → M ℕ
unfolding copy_n width
write [] e = panic
write (c ∷ b) e = (do copy_n (width c) (c ∷ b); modify advance; pure (width c)) e

unfoldable continuation : ℕ → Bool
continuation = within 0x80 0xBF

unfoldable two_bytes : ℕ → ℕ → Bool
unfolding continuation
two_bytes a b = within 0xC2 0xDF a && continuation b

unfoldable three_bytes : ℕ → ℕ → ℕ → Bool
unfolding continuation
three_bytes a b c =
    (a == 0xE0 && within 0xA0 0xBF b
      || within 0xE1 0xEC a && continuation b
      || a == 0xED && within 0x80 0x9F b
      || within 0xEE 0xEF a && continuation b)
    && continuation c

unfoldable four_bytes : ℕ → ℕ → ℕ → ℕ → Bool
unfolding continuation
four_bytes a b c d =
    (a == 0xF0 && within 0x90 0xBF b
      || within 0xF1 0xF3 a && continuation b
      || a == 0xF4 && within 0x80 0x8F b)
    && continuation c
    && continuation d

-- The number of bytes that Go's conversion to []rune takes for the first rune: a byte that begins no
-- well-formed sequence is one rune.
unfoldable rune_width : Bytes → ℕ
unfolding two_bytes three_bytes four_bytes
rune_width [] = 0
rune_width (a ∷ []) = 1
rune_width (a ∷ b ∷ []) = if two_bytes a b then 2 else 1
rune_width (a ∷ b ∷ c ∷ []) = if two_bytes a b then 2 else if three_bytes a b c then 3 else 1
rune_width (a ∷ b ∷ c ∷ d ∷ r) =
    if two_bytes a b
    then 2
    else if three_bytes a b c
    then 3
    else if four_bytes a b c d
    then 4
    else 1

-- `skip` bytes still belong to the last rune.
unfoldable runes : ℕ → Bytes → ℕ
unfolding rune_width
runes skip [] = 0
runes zero (c ∷ b) = suc (runes (rune_width (c ∷ b) - 1) b)
runes (suc skip) (c ∷ b) = runes skip b

-- len([]rune(string(b)))
unfoldable pub rune_count : Bytes → ℕ
unfolding runes
rune_count = runes 0

-- writeAll: a Write that takes all of `b` ends the loop, and no Write is made for an empty `b`.
unfoldable pub write_all : Bytes → M (Unit {0})
unfolding rune_count raw_write
write_all b = do
  modify (λ e. record e { column = e.column + rune_count b })
  when (not (is_empty b)) (raw_write b)

-- writeBreak
unfoldable pub write_break : Bytes → M ℕ
unfolding put_break write
write_break [] e = panic
write_break (c ∷ b) e =
    (if c == 0x0A then (do put_break; pure 1) else (do n ← write (c ∷ b); modify new_line; pure n))
      e

-- SetIndent, for a number of spaces that is not negative: the source panics on a negative one.
abbrev set_indent : ℤ → M (Unit {0})
set_indent (pos n) e = ok tt (record e { indent = n })
set_indent (negsuc n) e = panic

unfoldable pub is_block_sequence_item : EmitterState → Bool
is_block_sequence_item emit_block_sequence_item = true
is_block_sequence_item _ = false

-- Everything else than a sequence aligns to the chosen indentation; Go panics on a division by zero.
unfoldable aligned : ℕ → ℕ → Option ℤ
aligned indent level =
    if indent == 0 then none else some (pos (indent * ((level + indent) / indent)))

-- The level that increaseIndent sets, from the indent, the level and the stack of states.
unfoldable pub next_level : ℕ → ℤ → List EmitterState → Bool → Bool → Option ℤ
unfolding aligned is_block_sequence_item
next_level indent (negsuc n) states flow indentless = some (pos (if flow then indent else 0))
next_level indent (pos n) states flow true = some (pos n)
next_level indent (pos n) [] flow false = none
next_level indent (pos n) (s ∷ states) flow false =
    if is_block_sequence_item s then some (pos (n + 2)) else aligned indent n

-- increaseIndent
unfoldable pub increase_indent : Bool → Bool → M (Unit {0})
unfolding next_level
increase_indent flow indentless = do
  e ← get
  level ← checked (next_level e.indent e.indent_level e.states flow indentless)
  modify (λ e. record e { indent_stack = e.indent_level ∷ e.indent_stack; indent_level = level })

-- Whether one of the directives has the handle.
unfoldable pub has_handle : Bytes → List TagDirective → Bool
has_handle handle [] = false
has_handle handle (d ∷ ds) = bytes_eq handle d.handle || has_handle handle ds

-- appendTagDirective
unfoldable pub append_tag_directive : TagDirective → Bool → M (Unit {0})
unfolding has_handle
append_tag_directive d allow_duplicates = do
  e ← get
  if has_handle d.handle e.tag_directives
      then (if allow_duplicates then done else fail (message "duplicate %TAG directive"))
      else modify (λ e. record e { tag_directives = e.tag_directives ++ d ∷ [] })

-- The number of further events that readyToEmit waits for behind a start event.
unfoldable accumulate : EventType → Option ℕ
accumulate document_start = some 1
accumulate sequence_start = some 2
accumulate mapping_start = some 3
accumulate _ = none

-- What an event adds to the nesting level.
unfoldable level_step : EventType → ℤ → ℤ
level_step stream_start i = increment i
level_step document_start i = increment i
level_step sequence_start i = increment i
level_step mapping_start i = increment i
level_step stream_end i = decrement i
level_step document_end i = decrement i
level_step sequence_end i = decrement i
level_step mapping_end i = decrement i
level_step _ i = i

-- Whether the level is zero behind one of the events.
unfoldable balances : ℤ → List Event → Bool
unfolding level_step
balances level [] = false
balances level (ev ∷ evs) =
    let next = level_step ev.event_type level in is_nat next 0 || balances next evs

-- readyToEmit, on the events from the head of the queue on.
unfoldable pub ready : List Event → Bool
unfolding accumulate balances
ready [] = false
ready (ev ∷ evs) = elim (accumulate ev.event_type) [
  | none ↦ true
  | some n ↦ ltb n (length (ev ∷ evs)) || balances (pos 0) (ev ∷ evs)
]

unfoldable pub ready_to_emit : Emitter → Bool
unfolding ready
ready_to_emit e = ready (drop e.events_head e.events_queue)
