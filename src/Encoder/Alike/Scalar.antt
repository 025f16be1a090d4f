-- ===== src/Encoder/Alike/Scalar.antt =====
-- The methods of the Encoder of encode.go for scalars and aliases do the same over any emitter.
use yaml.Common.{
  ℕ, refl, Bool, not, Option, none, some, [], Bytes, bytes_eq, codes, is_empty, if◌then◌else◌, inl,
}
use yaml.Event.{plain_scalar_style}
use yaml.Run.{panic, pure}
use yaml.Resolve.Tags.{binary_tag}
use yaml.Resolve.Base64.{encode_base64}
use yaml.Node.{Node}
use yaml.Encoder.State.{Sink, Text, M, to_long, to_short}
use yaml.Encoder.Scalar.{emit_scalar, encode_nil, encode_alias_node, text_of, encode_scalar_node}
use yaml.Encoder.Replay.{collector, Alike, Alike-pure, Alike-if, Alike-bind, Alike-emit}

module _ {S E : Type 0} (sink : Sink S E) (s₀ : S) where
  -- A method that panics itself.
  abbrev pub breaks : {S E A : Type 0} → M S E A
  breaks e = panic

  pub Alike-breaks : {A : Type 0} → Alike sink s₀ {A = A} breaks breaks
  Alike-breaks = record { live = λ e s fed. tt; dead = λ e w fed. tt }

  pub to_long-Alike : (tag : Bytes) → Alike sink s₀ (to_long tag) (to_long tag)
  unfolding to_long
  to_long-Alike tag = record { live = λ e s fed. inl (s, fed, refl); dead = λ e w fed. fed }

  pub to_short-Alike : (tag : Bytes) → Alike sink s₀ (to_short tag) (to_short tag)
  unfolding to_short
  to_short-Alike tag = record { live = λ e s fed. inl (s, fed, refl); dead = λ e w fed. fed }

  pub emit_scalar-Alike :
      (value anchor tag : Bytes) (style : ℕ) (head line foot tail : Bytes)
      → Alike sink s₀
          (emit_scalar collector value anchor tag style head line foot tail)
          (emit_scalar sink value anchor tag style head line foot tail)
  unfolding emit_scalar
  emit_scalar-Alike value anchor tag style head line foot tail =
      Alike-bind sink s₀ (if is_empty tag then pure tag else to_long tag)
        (if is_empty tag then pure tag else to_long tag) _ _
        (Alike-if sink s₀ (is_empty tag) (Alike-pure sink s₀ tag) (to_long-Alike tag))
        (λ long. Alike-emit sink s₀ _)

  pub encode_nil-Alike : Alike sink s₀ (encode_nil collector) (encode_nil sink)
  unfolding encode_nil
  encode_nil-Alike = emit_scalar-Alike (codes "null") [] [] plain_scalar_style [] [] [] []

  pub encode_alias_node-Alike :
      (n : Node) → Alike sink s₀ (encode_alias_node collector n) (encode_alias_node sink n)
  unfolding encode_alias_node
  encode_alias_node-Alike n = Alike-emit sink s₀ _

  module _ (text : Text) where
    text_of-Alike :
        (value short tag : Bytes)
        → Alike sink s₀ (text_of collector text value short tag) (text_of sink text value short tag)
    unfolding text_of
    text_of-Alike value short tag =
        Alike-if sink s₀ (text.valid value) (Alike-pure sink s₀ (value, tag)) (
          Alike-if sink s₀ (bytes_eq short binary_tag)
            (record { live = λ e s fed. inl (s, _, refl, fed, refl); dead = λ e w fed. fed })
            (Alike-if sink s₀ (not (is_empty short))
              (record { live = λ e s fed. inl (s, _, refl, fed, refl); dead = λ e w fed. fed })
              (encoded (encode_base64 text.encode text.encoded_len value))))
      where
        encoded :
            (r : Option Bytes)
            → Alike sink s₀ {A = Bytes × Bytes}
                (elim r [ none ↦ λ e. panic | some encoded ↦ pure (encoded, binary_tag) ])
                (elim r [ none ↦ λ e. panic | some encoded ↦ pure (encoded, binary_tag) ])
        encoded none = Alike-breaks
        encoded (some x) = Alike-pure sink s₀ (x, binary_tag)

    pub encode_scalar_node-Alike :
        (n : Node) (tail short tag : Bytes) (force : Bool)
        → Alike sink s₀
            (encode_scalar_node collector text n tail short tag force)
            (encode_scalar_node sink text n tail short tag force)
    unfolding encode_scalar_node
    encode_scalar_node-Alike n tail short tag force =
        Alike-bind sink s₀ (text_of collector text n.value short tag)
          (text_of sink text n.value short tag) _ _ (text_of-Alike n.value short tag)
          (λ r. emit_scalar-Alike r.0 n.anchor r.1 _ _ _ _ _)
