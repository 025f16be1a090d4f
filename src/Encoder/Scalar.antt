-- ===== src/Encoder/Scalar.antt =====
-- The methods of the Encoder of encode.go that write scalars and aliases.
use yaml.Common.{
  ℕ, Bool, false, not, none, some, [], Bytes, bytes_eq, codes, is_empty, one_of, if◌then◌else◌,
}
use yaml.Event.{
  plain_scalar_style, double_quoted_scalar_style, single_quoted_scalar_style, literal_scalar_style,
  folded_scalar_style,
}
use yaml.Event.Make.{alias_event, scalar_event}
use yaml.Run.{panic, ◌>>=◌, pure, fail}
use yaml.Resolve.Tags.{binary_tag}
use yaml.Resolve.Base64.{encode_base64}
use yaml.Node.{
  Node, has_style, double_quoted_style, single_quoted_style, literal_style, folded_style,
}
use yaml.Encoder.State.{Sink, Text, M, binary_not_encoded, invalid_utf8, emit, to_long}

-- The style of the event for a scalar.
unfoldable pub event_style : Node → Bytes → Bool → ℕ
event_style n value force_quoting =
    if has_style n.style double_quoted_style
    then double_quoted_scalar_style
    else if has_style n.style single_quoted_style
    then single_quoted_scalar_style
    else if has_style n.style literal_style
    then literal_scalar_style
    else if has_style n.style folded_style
    then folded_scalar_style
    else if one_of value b'\n'
    then literal_scalar_style
    else if force_quoting
    then double_quoted_scalar_style
    else plain_scalar_style

module _ {S E : Type 0} (sink : Sink S E) where
  -- emitScalar
  unfoldable pub emit_scalar :
      Bytes → Bytes → Bytes → ℕ → Bytes → Bytes → Bytes → Bytes → M S E (Unit {0})
  unfolding to_long emit
  emit_scalar value anchor tag style head line foot tail = do
    let implicit = is_empty tag
    long ← (if implicit then pure tag else to_long tag)
    emit sink false (record (scalar_event anchor long value implicit implicit style) {
      head_comment = head;
      line_comment = line;
      foot_comment = foot;
      tail_comment = tail;
    })

  -- encodeNil
  unfoldable pub encode_nil : M S E (Unit {0})
  unfolding emit_scalar
  encode_nil = emit_scalar (codes "null") [] [] plain_scalar_style [] [] [] []

  -- encodeBool
  unfoldable pub encode_bool : Bytes → Bool → M S E (Unit {0})
  unfolding emit_scalar
  encode_bool tag v =
      emit_scalar (if v then codes "true" else codes "false") [] tag plain_scalar_style [] [] [] []

  -- encodeAliasNode
  unfoldable pub encode_alias_node : Node → M S E (Unit {0})
  unfolding emit
  encode_alias_node n = emit sink false (record (alias_event n.value) {
    head_comment = n.head_comment;
    line_comment = n.line_comment;
    foot_comment = n.foot_comment;
  })

  -- The value and the tag of a scalar that may be no text.
  unfoldable pub text_of : Text → Bytes → Bytes → Bytes → M S E (Bytes × Bytes)
  unfolding encode_base64
  text_of text value short_tag tag =
      if text.valid value
      then pure (value, tag)
      else if bytes_eq short_tag binary_tag
      then fail binary_not_encoded
      else if not (is_empty short_tag)
      then fail (invalid_utf8 short_tag)
      else elim (encode_base64 text.encode text.encoded_len value) [
        | none ↦ λ e. panic
        | some encoded ↦ pure (encoded, binary_tag)
      ]

  -- encodeScalarNode
  unfoldable pub encode_scalar_node : Text → Node → Bytes → Bytes → Bytes → Bool → M S E (Unit {0})
  unfolding text_of event_style emit_scalar
  encode_scalar_node text n tail short_tag tag force_quoting = do
    (value, shown) ← text_of text n.value short_tag tag
    emit_scalar value n.anchor shown (event_style n value force_quoting) n.head_comment
        n.line_comment n.foot_comment tail
