-- ===== src/Encoder/Alike/Content.antt =====
-- The methods of the Encoder of encode.go for the content of nodes do the same over any emitter.
use yaml.Common.{ℕ, false, Option, none, some, List, [], ◌∷◌, Bytes, is_empty, if◌then◌else◌}
use yaml.Event.{
  block_sequence_style, flow_sequence_style, block_mapping_style, flow_mapping_style, Event,
}
use yaml.Event.Make.{
  sequence_end_event, sequence_start_event, mapping_start_event, mapping_end_event,
}
use yaml.Node.{Node, has_style, flow_style}
use yaml.Encoder.State.{Sink, M, emit, to_long}
use yaml.Encoder.Node.{
  encode_each, encode_document_node, encode_sequence_node, encode_pairs, encode_mapping_node,
}
use yaml.Encoder.Replay.{collector, Alike, Alike-pure, Alike-bind, Alike-emit}
use yaml.Encoder.Alike.Scalar.{Alike-breaks, to_long-Alike}

module _ {S E : Type 0} (sink : Sink S E) (s₀ : S) where
  -- The loops over nodes, where the nodes are encoded alike.
  module _ (heap : ℕ → Node) {c : Node → Bytes → M (List Event) (Unit {0}) (Unit {0})}
      {c' : Node → Bytes → M S E (Unit {0})}
      (C : (n : Node) (tail : Bytes) → Alike sink s₀ (c n tail) (c' n tail)) where
    encode_each-Alike :
        (content : List (Option ℕ))
        → Alike sink s₀ (encode_each collector heap c content) (encode_each sink heap c' content)
    unfolding encode_each
    encode_each-Alike [] = Alike-pure sink s₀ tt
    encode_each-Alike (none ∷ content) = Alike-breaks sink s₀
    encode_each-Alike (some a ∷ content) =
        Alike-bind sink s₀ (c (heap a) []) (c' (heap a) []) _ _ (C (heap a) [])
          (λ u. encode_each-Alike content)

    encode_pairs-Alike :
        (content : List (Option ℕ)) (tail : Bytes)
        → Alike sink s₀
            (encode_pairs collector heap c content tail)
            (encode_pairs sink heap c' content tail)
    unfolding encode_pairs
    encode_pairs-Alike [] tail = Alike-pure sink s₀ tail
    encode_pairs-Alike (some k ∷ []) tail = Alike-pure sink s₀ tail
    encode_pairs-Alike (none ∷ []) tail = Alike-pure sink s₀ tail
    encode_pairs-Alike (none ∷ v ∷ content) tail = Alike-breaks sink s₀
    encode_pairs-Alike (some k ∷ none ∷ content) tail =
        let key : Node = record (heap k) { foot_comment = [] } in
        Alike-bind sink s₀ (c key tail) (c' key tail) _ _ (C key tail) (λ u. Alike-breaks sink s₀)
    encode_pairs-Alike (some k ∷ some v ∷ content) tail =
        let key : Node = record (heap k) { foot_comment = [] } in
        Alike-bind sink s₀ (c key tail) (c' key tail) _ _ (C key tail) (λ u.
          Alike-bind sink s₀ (c (heap v) []) (c' (heap v) []) _ _ (C (heap v) [])
            (λ u. encode_pairs-Alike content (heap k).foot_comment))

    pub encode_document_node-Alike :
        (n : Node)
        → Alike sink s₀
            (encode_document_node collector heap c n)
            (encode_document_node sink heap c' n)
    unfolding encode_document_node
    encode_document_node-Alike n =
        Alike-bind sink s₀ (emit collector false _) (emit sink false _) _ _ (Alike-emit sink s₀ _)
          (λ u.
            Alike-bind sink s₀ (encode_each collector heap c n.content)
              (encode_each sink heap c' n.content) _ _ (encode_each-Alike n.content)
              (λ u. Alike-emit sink s₀ _))

    pub encode_sequence_node-Alike :
        (n : Node) (tag : Bytes)
        → Alike sink s₀
            (encode_sequence_node collector heap c n tag)
            (encode_sequence_node sink heap c' n tag)
    unfolding encode_sequence_node
    encode_sequence_node-Alike n tag =
        Alike-bind sink s₀ (to_long tag) (to_long tag) _ _ (to_long-Alike sink s₀ tag) (λ long.
          Alike-bind sink s₀ (emit collector false _) (emit sink false _) _ _
            (Alike-emit sink s₀
              (record (sequence_start_event n.anchor long (is_empty tag) (
                if has_style n.style flow_style
                then flow_sequence_style
                else block_sequence_style)) { head_comment = n.head_comment }))
            (λ u.
              Alike-bind sink s₀ (encode_each collector heap c n.content)
                (encode_each sink heap c' n.content) _ _ (encode_each-Alike n.content)
                (λ u. Alike-emit sink s₀ (record sequence_end_event {
                  line_comment = n.line_comment;
                  foot_comment = n.foot_comment;
                }))))

    pub encode_mapping_node-Alike :
        (n : Node) (tail tag : Bytes)
        → Alike sink s₀
            (encode_mapping_node collector heap c n tail tag)
            (encode_mapping_node sink heap c' n tail tag)
    unfolding encode_mapping_node
    encode_mapping_node-Alike n tail tag =
        Alike-bind sink s₀ (to_long tag) (to_long tag) _ _ (to_long-Alike sink s₀ tag) (λ long.
          Alike-bind sink s₀ (emit collector false _) (emit sink false _) _ _
            (Alike-emit sink s₀
              (record (mapping_start_event n.anchor long (is_empty tag) (
                if has_style n.style flow_style then flow_mapping_style else block_mapping_style)) {
                  head_comment = n.head_comment;
                  tail_comment = tail;
                }))
            (λ u.
              Alike-bind sink s₀ (encode_pairs collector heap c n.content [])
                (encode_pairs sink heap c' n.content []) _ _ (encode_pairs-Alike n.content [])
                (λ last. Alike-emit sink s₀ (record mapping_end_event {
                  tail_comment = last;
                  line_comment = n.line_comment;
                  foot_comment = n.foot_comment;
                }))))
