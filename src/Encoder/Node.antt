-- ===== src/Encoder/Node.antt =====
-- The methods of the Encoder of encode.go that write nodes.
use yaml.Common.{
  ℕ, zero, suc, Bool, true, false, not, ◌&&◌, ◌||◌, Option, none, some, List, [], ◌∷◌, Bytes,
  bytes_eq, is_empty, if◌then◌else◌,
}
use yaml.Event.{block_sequence_style, flow_sequence_style, block_mapping_style, flow_mapping_style}
use yaml.Event.Make.{
  stream_start_event, stream_end_event, document_start_event, document_end_event,
  sequence_start_event, sequence_end_event, mapping_start_event, mapping_end_event,
}
use yaml.Run.{ok, err, panic, exhausted, ◌>>=◌, ◌>>◌, pure, get, modify, fail, when}
use yaml.Resolve.Tags.{str_tag, map_tag, seq_tag}
use yaml.Resolve.Value.{Platform, resolve}
use yaml.Node.{
  Node, Kind, zero_kind, document_node, sequence_node, mapping_node, scalar_node, alias_node,
  ◌is_kind◌, has_style, quoted_styles, tagged_style, flow_style, is_zero,
}
use yaml.Encoder.State.{Sink, Text, M, resolving, unknown_kind, emit, to_long, to_short}
use yaml.Encoder.Scalar.{encode_nil, encode_alias_node, encode_scalar_node}

-- `rtag` for a node that is no scalar.
abbrev pub kind_tag : Kind → Bytes
kind_tag mapping_node = map_tag
kind_tag sequence_node = seq_tag
kind_tag _ = []

module _ {S E : Type 0} (sink : Sink S E) where
  -- `for _, n := range node.Content`, over the nodes at their addresses; a nil pointer panics.
  unfoldable pub encode_each :
      (ℕ → Node) → (Node → Bytes → M S E (Unit {0})) → List (Option ℕ) → M S E (Unit {0})
  encode_each heap encode [] = pure tt
  encode_each heap encode (none ∷ content) = λ e. panic
  encode_each heap encode (some a ∷ content) = do
    encode (heap a) []
    encode_each heap encode content

  -- encodeDocumentNode
  unfoldable pub encode_document_node :
      (ℕ → Node) → (Node → Bytes → M S E (Unit {0})) → Node → M S E (Unit {0})
  unfolding emit encode_each
  encode_document_node heap encode n = do
    emit sink false (record document_start_event { head_comment = n.head_comment })
    encode_each heap encode n.content
    emit sink false (record document_end_event { foot_comment = n.foot_comment })

  -- encodeSequenceNode
  unfoldable pub encode_sequence_node :
      (ℕ → Node) → (Node → Bytes → M S E (Unit {0})) → Node → Bytes → M S E (Unit {0})
  unfolding to_long emit encode_each
  encode_sequence_node heap encode n tag = do
    let style = if has_style n.style flow_style then flow_sequence_style else block_sequence_style
    long ← to_long tag
    emit sink false (record (sequence_start_event n.anchor long (is_empty tag) style) {
      head_comment = n.head_comment;
    })
    encode_each heap encode n.content
    emit sink false
        (record sequence_end_event { line_comment = n.line_comment; foot_comment = n.foot_comment })

  -- The loop over keys and values, which returns the last tail; a key that has none behind it is left
  -- out. The foot comment of a key becomes the tail of the next.
  unfoldable pub encode_pairs :
      (ℕ → Node) → (Node → Bytes → M S E (Unit {0})) → List (Option ℕ) → Bytes → M S E Bytes
  encode_pairs heap encode (some k ∷ some v ∷ content) tail = do
    encode (record (heap k) { foot_comment = [] }) tail
    encode (heap v) []
    encode_pairs heap encode content (heap k).foot_comment
  encode_pairs heap encode (none ∷ v ∷ content) tail = λ e. panic
  encode_pairs heap encode (some k ∷ none ∷ content) tail = do
    encode (record (heap k) { foot_comment = [] }) tail
    (λ e. panic)
  encode_pairs heap encode _ tail = pure tail

  -- encodeMappingNode
  unfoldable pub encode_mapping_node :
      (ℕ → Node) → (Node → Bytes → M S E (Unit {0})) → Node → Bytes → Bytes → M S E (Unit {0})
  unfolding to_long emit encode_pairs
  encode_mapping_node heap encode n tail tag = do
    let style = if has_style n.style flow_style then flow_mapping_style else block_mapping_style
    long ← to_long tag
    emit sink false (record (mapping_start_event n.anchor long (is_empty tag) style) {
      head_comment = n.head_comment;
      tail_comment = tail;
    })
    last ← encode_pairs heap encode n.content []
    emit sink false (record mapping_end_event {
      tail_comment = last;
      line_comment = n.line_comment;
      foot_comment = n.foot_comment;
    })

  module _ {F T : Type 0} (go : Platform F T) (text : Text) where
    -- `resolve.Resolve("", value)`, as far as the tag.
    unfoldable pub resolved_tag : Bytes → M S E Bytes
    unfolding resolve
    resolved_tag value e = elim (resolve go [] value e.shorts) [
      | none ↦ panic
      | some r ↦ elim r.0.error [
        | none ↦ ok r.0.tag (record e { shorts = r.1 })
        | some x ↦ err (resolving x) (record e { shorts = r.1 })
      ]
    ]

    -- The tag to write, and whether to force quotes.
    unfoldable pub shown_tag : Node → Bytes → M S E (Bytes × Bool)
    unfolding resolved_tag
    shown_tag n short_tag =
        if is_empty n.tag || has_style n.style tagged_style
        then pure (n.tag, false)
        else if n.kind is_kind scalar_node
        then (if bytes_eq short_tag str_tag && has_style n.style quoted_styles
            then pure ([], false)
            else (do
              rtag ← resolved_tag n.value
              if bytes_eq rtag short_tag
                  then pure ([], false)
                  else if bytes_eq short_tag str_tag
                  then pure ([], true)
                  else pure (n.tag, false)))
        else if bytes_eq (kind_tag n.kind) short_tag
        then pure ([], false)
        else pure (n.tag, false)

    -- The cases of the kind of a node.
    unfoldable pub encode_kind :
        (ℕ → Node)
        → (Node → Bytes → M S E (Unit {0}))
        → Node
        → Bytes
        → Bytes
        → Bytes
        → Bool
        → Kind
        → M S E (Unit {0})
    unfolding encode_document_node encode_sequence_node encode_mapping_node encode_alias_node
        encode_scalar_node
    encode_kind heap encode n tail short_tag tag force_quoting document_node =
        encode_document_node heap encode n
    encode_kind heap encode n tail short_tag tag force_quoting sequence_node =
        encode_sequence_node heap encode n tag
    encode_kind heap encode n tail short_tag tag force_quoting mapping_node =
        encode_mapping_node heap encode n tail tag
    encode_kind heap encode n tail short_tag tag force_quoting alias_node = encode_alias_node sink n
    encode_kind heap encode n tail short_tag tag force_quoting scalar_node =
        encode_scalar_node sink text n tail short_tag tag force_quoting
    encode_kind heap encode n tail short_tag tag force_quoting zero_kind = fail (unknown_kind 0)

    -- encodeNode. The fuel bounds how deep nodes nest.
    unfoldable pub encode_node : ℕ → (ℕ → Node) → Node → Bytes → M S E (Unit {0})
    unfolding is_zero encode_nil to_short shown_tag encode_kind
    encode_node zero heap n tail e = exhausted
    encode_node (suc fuel) heap n tail e =
        let again : Node → Bytes → M S E (Unit {0}) = encode_node fuel heap in
        (if n.kind is_kind zero_kind && is_zero n then encode_nil sink else (do
          short ← to_short n.tag
          (tag, force_quoting) ← shown_tag n short
          encode_kind heap again n tail short tag force_quoting n.kind))
          e

    -- Encode of a pointer to a node.
    unfoldable pub encode : ℕ → (ℕ → Node) → Node → M S E (Unit {0})
    unfolding encode_node emit
    encode fuel heap n = do
      e ← get
      when (not e.started)
          (do emit sink false stream_start_event; modify (λ e. record e { started = true }))
      if n.kind is_kind document_node then encode_node fuel heap n [] else (do
        emit sink false document_start_event
        encode_node fuel heap n []
        emit sink false document_end_event)

  -- Close
  unfoldable pub close : M S E (Unit {0})
  unfolding emit
  close = emit sink true stream_end_event
