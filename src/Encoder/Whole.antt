-- ===== src/Encoder/Whole.antt =====
-- What the Encoder of encode.go emits for collections and whole trees of nodes.
use yaml.Common.{ℕ, zero, suc, ◌≡◌, Bool, false, ◌&&◌, List, [], Bytes, codes, length, All}
use yaml.Event.{Event, plain_scalar_style, sequence_start, mapping_start}
use yaml.Run.{Ends, raises, Ends-bind, Ends-if}
use yaml.Resolve.Tags.{long_tag, short_tag}
use yaml.Resolve.Round.{short_tag-short_of}
use yaml.Resolve.Value.{Platform}
use yaml.Node.{
  Node, Kind, zero_kind, document_node, sequence_node, mapping_node, scalar_node, alias_node,
  ◌is_kind◌, is_zero,
}
use yaml.Parser.Phrase.{Phrase}
use yaml.Encoder.State.{Text, Encoder, emit, to_long, to_short}
use yaml.Encoder.Node.{
  encode_each, encode_sequence_node, encode_pairs, encode_mapping_node, shown_tag, encode_kind,
  encode_node,
}
use yaml.Encoder.Scalar.{encode_nil}
use yaml.Encoder.Trees.{
  recorder, Inner, Tree, Has, Has-shorts, NodeBehind, emit-Has, emit_scalar-Has,
  encode_alias_node-Has, encode_scalar_node-Has, shown_tag-Has,
}
use yaml.Encoder.Collections.{
  Events, EncodeNode, Emits, Held, encode_each-Has, encode_pairs-Has, Begun, Begun-start,
  Begun-node, Begun-end, ItemsBefore, PairsBefore, KeyBefore, item_more, key_more, value_more,
}

module _ {Q : Node → Type 0} {encode : EncodeNode} {log : List Event} {b : Bool}
    (C : Emits Q encode log b) (takes : List Event → Event → Bool) (heap : ℕ → Node) {L L' : Events}
    (f : NodeBehind L L') where
  encode_sequence_node-Has :
      (n : Node) (tag : Bytes) (e : Encoder (List Event))
      → All (Held heap Q) n.content
      → Has L log b e
      → Ends (λ _. Has L' log b) (encode_sequence_node (recorder takes) heap encode n tag e)
  unfolding encode_sequence_node to_long
  encode_sequence_node-Has n tag e a h =
      let e₁ = record e { longs = (long_tag tag e.longs).1 } in
      Ends-bind (emit (recorder takes) false _) _ e₁
        (emit-Has takes {L = L} {L' = Begun L sequence_start ItemsBefore} false _ e₁
          (Has-shorts e e.shorts _ h.caches h) (Begun-start sequence_start (λ us i. i)))
        (λ _ e₂ h₂.
          Ends-bind (encode_each (recorder takes) heap encode n.content) _ e₂
            (encode_each-Has C takes heap n.content e₂ a (Begun-node item_more) h₂)
            (λ _ e₃ h₃.
              emit-Has takes {L' = L'} false _ e₃ h₃
                (Begun-end L' (λ bs x. Phrase.sequence_node (x _ Phrase.no_items)) f)))

  encode_mapping_node-Has :
      (n : Node) (tail tag : Bytes) (e : Encoder (List Event))
      → ((n : Node) → Q n → Q (record n { foot_comment = [] }))
      → All (Held heap Q) n.content
      → Has L log b e
      → Ends (λ _. Has L' log b) (encode_mapping_node (recorder takes) heap encode n tail tag e)
  unfolding encode_mapping_node to_long
  encode_mapping_node-Has n tail tag e c a h =
      let e₁ = record e { longs = (long_tag tag e.longs).1 } in
      Ends-bind (emit (recorder takes) false _) _ e₁
        (emit-Has takes {L = L} {L' = Begun L mapping_start PairsBefore} false _ e₁
          (Has-shorts e e.shorts _ h.caches h) (Begun-start mapping_start (λ us i. i)))
        (λ _ e₂ h₂.
          Ends-bind (encode_pairs (recorder takes) heap encode n.content []) _ e₂
            (encode_pairs-Has C takes heap {L' = Begun L mapping_start KeyBefore} n.content [] e₂ c
              a (Begun-node key_more) (Begun-node value_more) h₂)
            (λ last e₃ h₃.
              emit-Has takes {L' = L'} false _ e₃ h₃
                (Begun-end L' (λ bs x. Phrase.mapping_node (x _ Phrase.no_pairs)) f)))

Tree-foot :
    (d : ℕ) (heap : ℕ → Node) (n : Node)
    → Tree d heap n
    → Tree d heap (record n { foot_comment = [] })
Tree-foot zero heap n t = t
Tree-foot (suc d) heap n t = t

module _ {F T : Type 0} (go : Platform F T) (takes : List Event → Event → Bool) (text : Text)
    (fits : (s : Bytes) → length (text.encode s) ≡ text.encoded_len (length s)) (heap : ℕ → Node)
    {log : List Event} {b : Bool} where
  pub encode_kind-Has :
      {L L' : Events} {Q : Node → Type 0} {encode : EncodeNode} (n : Node) (tail short tag : Bytes)
      (force : Bool) (k : Kind) (e : Encoder (List Event))
      → Emits Q encode log b
      → ((n : Node) → Q n → Q (record n { foot_comment = [] }))
      → Inner k (All (Held heap Q) n.content)
      → NodeBehind L L'
      → Has L log b e
      → Ends
          (λ _. Has L' log b)
          (encode_kind (recorder takes) go text heap encode n tail short tag force k e)
  unfolding encode_kind
  encode_kind-Has n tail short tag force zero_kind e C c i f h = raises
  encode_kind-Has n tail short tag force document_node e C c i f h = absurd i
  encode_kind-Has n tail short tag force sequence_node e C c i f h =
      encode_sequence_node-Has C takes heap f n tag e i h
  encode_kind-Has n tail short tag force mapping_node e C c i f h =
      encode_mapping_node-Has C takes heap f n tail tag e c i h
  encode_kind-Has n tail short tag force scalar_node e C c i f h =
      encode_scalar_node-Has takes f text fits n tail short tag force e h
  encode_kind-Has n tail short tag force alias_node e C c i f h =
      encode_alias_node-Has takes f n e h

  -- The encoder on trees of a depth below its fuel.
  pub encode_node-Has :
      (d : ℕ) → Emits (Tree d heap) (encode_node (recorder takes) go text d heap) log b
  unfolding encode_node encode_nil to_short
  encode_node-Has zero L L' n tail e t f h = absurd t
  encode_node-Has (suc d) L L' n tail e t f h =
      Ends-if (n.kind is_kind zero_kind && is_zero n) (encode_nil (recorder takes)) _ e
        (λ _. emit_scalar-Has takes f (codes "null") [] [] plain_scalar_style [] [] [] [] e h)
        (λ _.
          let e₁ = record e { shorts = (short_tag n.tag e.shorts).1 } in
          Ends-bind (shown_tag (recorder takes) go text n (short_tag n.tag e.shorts).0) _ e₁
            (shown_tag-Has go takes text n (short_tag n.tag e.shorts).0 e₁
              (Has-shorts e _ e.longs (short_tag-short_of n.tag e.shorts h.caches).1 h))
            (λ r e₂ h₂.
              encode_kind-Has n tail (short_tag n.tag e.shorts).0 r.0 r.1 n.kind e₂
                (encode_node-Has d) (Tree-foot d heap) t f h₂))
