-- ===== src/Emitter/Analyze.antt =====
-- internal/emitter/analyze.go: what an event asks of the emitter.
pub mod Scalar
use yaml.Common.{
  ℕ, zero, suc, ◌+◌, ◌-◌, Bool, true, false, not, ◌&&◌, ◌||◌, Option, none, some, List, [], ◌∷◌,
  Bytes, length, is_empty, get_elem?, take, drop, ltb, leb, ◌==◌, if◌then◌else◌, is_nat, codes,
  bytes_eq, has_prefix, one_of,
}
use yaml.Chars.{Checked, is_break, is_blankz, is_printable, alpha, blank, width}
use yaml.Event.{
  Event, EventType, VersionDirective, TagDirective, alias, scalar, sequence_start, mapping_start,
}
use yaml.Emitter.State.{
  Emitter, ScalarData, message, M, ◌>>=◌, ◌>>◌, pure, done, get, modify, fail, when, checked, slice,
  panic_here, for_value,
}
use yaml.Emitter.Analyze.Scalar.{analyze_scalar}

-- `for i < end { … i += Width(b[i]) }`, whether each character that it visits is alphanumerical. Such
-- a character is one byte wide, so that the length of `b` bounds the rounds.
unfoldable pub alpha_from : ℕ → Bytes → ℕ → ℕ → Checked
unfolding alpha width
alpha_from zero b i end = none
alpha_from (suc fuel) b i end =
    let round : Checked = elim (get_elem? b i) [
      | none ↦ none
      | some c ↦ if alpha c then alpha_from fuel b (i + width c) end else some false
    ] in
    if ltb i end then round else some true

unfoldable pub analyze_anchor : Bytes → Bool → M (Unit {0})
unfolding alpha_from
analyze_anchor anchor is_alias =
    if is_empty anchor
    then fail (
        message
          (if is_alias then "alias value must not be empty" else "anchor value must not be empty"))
    else (do
      valid ← checked (alpha_from (length anchor + 1) anchor 0 (length anchor))
      if valid
          then modify
              (λ e. record e { anchor_data = record { anchor = some anchor; is_alias = is_alias } })
          else fail (
              message (
                if is_alias
                then "alias value must contain alphanumerical characters only"
                else "anchor value must contain alphanumerical characters only")))

-- The first directive whose prefix begins the tag.
unfoldable matching : Bytes → List TagDirective → Option TagDirective
matching tag [] = none
matching tag (d ∷ ds) = if has_prefix tag d.prefix then some d else matching tag ds

abbrev set_tag : Bytes → Bytes → Emitter → Emitter
set_tag handle suffix e = record e { tag_data = record { handle = handle; suffix = suffix } }

unfoldable pub analyze_tag : Bytes → M (Unit {0})
unfolding matching
analyze_tag tag = if is_empty tag then fail (message "tag value must not be empty") else (do
  e ← get
  elim (matching tag e.tag_directives) [
    | some d ↦ modify (set_tag d.handle (drop (length d.prefix) tag))
    | none ↦ modify (set_tag e.tag_data.handle tag)
  ])

unfoldable pub analyze_version_directive : VersionDirective → M (Unit {0})
analyze_version_directive v =
    if is_nat v.major 1 && is_nat v.minor 1
    then done
    else fail (message "incompatible %YAML directive")

-- The tests of analyzeTagDirective on the handle and the prefix.
unfoldable pub analyze_tag_directive : TagDirective → M (Unit {0})
unfolding alpha_from
analyze_tag_directive d = do
  first ←
      if is_empty d.handle
      then fail (message "tag handle must not be empty")
      else checked (get_elem? d.handle 0)
  when (not (first == b'!')) (fail (message "tag handle must start with '!'"))
  last ← checked (get_elem? d.handle (length d.handle - 1))
  when (not (last == b'!')) (fail (message "tag handle must end with '!'"))
  valid ← checked (alpha_from (length d.handle + 1) d.handle 1 (length d.handle - 1))
  when (not valid) (fail (message "tag handle must contain alphanumerical characters only"))
  when (is_empty d.prefix) (fail (message "tag prefix must not be empty"))

-- A comment of the event replaces the pending one, if it is not empty.
abbrev newer : Bytes → Bytes → Bytes
newer [] old = old
newer (c ∷ b) old = c ∷ b

-- What analyzeEvent does before it looks at the type of the event.
unfoldable pub prepare : Event → Emitter → Emitter
prepare event e = record e {
  anchor_data = record (e.anchor_data) { anchor = none };
  tag_data = record { handle = []; suffix = [] };
  scalar_data = record (e.scalar_data) { value = [] };
  head_comment = newer event.head_comment e.head_comment;
  line_comment = newer event.line_comment e.line_comment;
  foot_comment = newer event.foot_comment e.foot_comment;
  tail_comment = newer event.tail_comment e.tail_comment;
}

unfoldable analyze_scalar_event : Event → M (Unit {0})
unfolding analyze_anchor analyze_tag analyze_scalar
analyze_scalar_event event = do
  when (not (is_empty event.anchor)) (analyze_anchor event.anchor false)
  when (not (is_empty event.tag) && not event.implicit && not event.quoted_implicit)
      (analyze_tag event.tag)
  sd ← analyze_scalar event.value
  modify (λ e. record e { scalar_data = sd })

-- A sequence or a mapping; the source passes `true` for `alias`.
unfoldable pub analyze_collection : Event → M (Unit {0})
unfolding analyze_anchor analyze_tag
analyze_collection event = do
  when (not (is_empty event.anchor)) (analyze_anchor event.anchor true)
  when (not (is_empty event.tag) && not event.implicit) (analyze_tag event.tag)

unfoldable pub analyze_by_type : EventType → Event → M (Unit {0})
unfolding analyze_anchor analyze_scalar_event analyze_collection
analyze_by_type alias event = analyze_anchor event.anchor true
analyze_by_type scalar event = analyze_scalar_event event
analyze_by_type sequence_start event = analyze_collection event
analyze_by_type mapping_start event = analyze_collection event
analyze_by_type _ event = done

unfoldable pub analyze_event : Event → M (Unit {0})
unfolding prepare analyze_by_type
analyze_event event = do modify (prepare event); analyze_by_type event.event_type event
