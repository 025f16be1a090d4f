-- ===== src/Encoder/Alike/Tree.antt =====
-- The methods of the Encoder of encode.go for tags and whole nodes do the same over any emitter.
use yaml.Common.{
  ℕ, zero, suc, ◌≡◌, refl, Bool, true, false, not, ◌&&◌, ◌||◌, Option, none, some, List, [], Bytes,
  bytes_eq, is_empty, if◌then◌else◌, inl,
}
use yaml.Event.{Event}
use yaml.Event.Make.{stream_start_event, document_start_event, document_end_event}
use yaml.Run.{Outcome, ok, err, panic, pure, modify, when, ◌>>=◌, ◌>>◌}
use yaml.Resolve.Tags.{Cache, str_tag}
use yaml.Resolve.Value.{Platform, Resolved, resolve}
use yaml.Node.{
  Node, Kind, zero_kind, document_node, sequence_node, mapping_node, scalar_node, alias_node,
  ◌is_kind◌, has_style, quoted_styles, tagged_style, is_zero,
}
use yaml.Encoder.State.{Sink, Text, Encoder, Error, resolving, unknown_kind, M, emit, to_short}
use yaml.Encoder.Node.{kind_tag, resolved_tag, shown_tag, encode_kind, encode_node, encode}
use yaml.Encoder.Replay.{
  collector, over, Follows, feed, Failed, Failure, of_emit, Alike, Alike-pure, Alike-if, Alike-bind,
  Alike-emit,
}
use yaml.Encoder.Alike.Scalar.{
  to_short-Alike, encode_nil-Alike, encode_alias_node-Alike, encode_scalar_node-Alike,
}
use yaml.Encoder.Alike.Content.{
  encode_document_node-Alike, encode_sequence_node-Alike, encode_mapping_node-Alike,
}

module _ {S E : Type 0} (sink : Sink S E) (s₀ : S) where
  module _ {F T : Type 0} (go : Platform F T) (text : Text) where
    -- How the method ends, by what Resolve returns.
    abbrev ended :
        {S E : Type 0}
        → Encoder S
        → Option (Resolved go × Cache)
        → Outcome (Encoder S) (Error E) Bytes
    ended e r = elim r [
      | none ↦ panic
      | some r ↦ elim r.0.error [
        | none ↦ ok r.0.tag (record e { shorts = r.1 })
        | some x ↦ err (resolving x) (record e { shorts = r.1 })
      ]
    ]

    ended-Follows :
        (r : Option (Resolved go × Cache)) (e : Encoder (List Event)) (s : S)
        → feed sink e.emitter s₀ ≡ ok tt s
        → Follows sink s₀ (ended e r) (ended (over s e) r)
    ended-Follows none e s fed = tt
    ended-Follows (some (r, cache)) e s fed = go' r.error
      where
        go' :
            (x : Option Bytes)
            → Follows sink s₀ {A = Bytes}
                (elim x [
                  | none ↦ ok r.tag (record e { shorts = cache })
                  | some x ↦ err (resolving x) (record e { shorts = cache })
                ])
                (elim x [
                  | none ↦ ok r.tag (record (over s e) { shorts = cache })
                  | some x ↦ err (resolving x) (record (over s e) { shorts = cache })
                ])
        go' none = inl (s, fed, refl)
        go' (some x) = inl (s, resolving x, refl, fed, refl)

    ended-Failed :
        (r : Option (Resolved go × Cache)) (e : Encoder (List Event)) (w : Failure S E)
        → feed sink e.emitter s₀ ≡ of_emit w
        → Failed sink s₀ w (ended e r)
    ended-Failed none e w fed = tt
    ended-Failed (some (r, cache)) e w fed = go' r.error
      where
        go' :
            (x : Option Bytes)
            → Failed sink s₀ {A = Bytes} w (elim x [
              | none ↦ ok r.tag (record e { shorts = cache })
              | some x ↦ err (resolving x) (record e { shorts = cache })
            ])
        go' none = fed
        go' (some x) = fed

    resolved_tag-Alike :
        (value : Bytes)
        → Alike sink s₀ (resolved_tag collector go text value) (resolved_tag sink go text value)
    unfolding resolved_tag
    resolved_tag-Alike value = record {
      live = λ e s fed. ended-Follows (resolve go [] value e.shorts) e s fed;
      dead = λ e w fed. ended-Failed (resolve go [] value e.shorts) e w fed;
    }

    shown_tag-Alike :
        (n : Node) (short : Bytes)
        → Alike sink s₀ (shown_tag collector go text n short) (shown_tag sink go text n short)
    unfolding shown_tag
    shown_tag-Alike n short =
        let same : (r : Bytes × Bool) → Alike sink s₀ (pure r) (pure r) = Alike-pure sink s₀ in
        Alike-if sink s₀ (is_empty n.tag || has_style n.style tagged_style) (same (n.tag, false)) (
          Alike-if sink s₀ (n.kind is_kind scalar_node)
            (Alike-if sink s₀ (bytes_eq short str_tag && has_style n.style quoted_styles)
              (same ([], false))
              (Alike-bind sink s₀ (resolved_tag collector go text n.value)
                (resolved_tag sink go text n.value) _ _ (resolved_tag-Alike n.value)
                (λ rtag. Alike-if sink s₀ (bytes_eq rtag short) (same ([], false)) (
                  Alike-if sink s₀ (bytes_eq short str_tag) (same ([], true))
                    (same (n.tag, false))))))
            (Alike-if sink s₀ (bytes_eq (kind_tag n.kind) short) (same ([], false))
              (same (n.tag, false))))

    encode_kind-Alike :
        (heap : ℕ → Node) {c : Node → Bytes → M (List Event) (Unit {0}) (Unit {0})}
        {c' : Node → Bytes → M S E (Unit {0})}
        (C : (n : Node) (tail : Bytes) → Alike sink s₀ (c n tail) (c' n tail)) (n : Node)
        (tail short tag : Bytes) (force : Bool) (k : Kind)
        → Alike sink s₀
            (encode_kind collector go text heap c n tail short tag force k)
            (encode_kind sink go text heap c' n tail short tag force k)
    unfolding encode_kind
    encode_kind-Alike heap C n tail short tag force zero_kind = record {
      live = λ e s fed. inl (s, unknown_kind 0, refl, fed, refl);
      dead = λ e w fed. fed;
    }
    encode_kind-Alike heap C n tail short tag force document_node =
        encode_document_node-Alike sink s₀ heap C n
    encode_kind-Alike heap C n tail short tag force sequence_node =
        encode_sequence_node-Alike sink s₀ heap C n tag
    encode_kind-Alike heap C n tail short tag force mapping_node =
        encode_mapping_node-Alike sink s₀ heap C n tail tag
    encode_kind-Alike heap C n tail short tag force scalar_node =
        encode_scalar_node-Alike sink s₀ text n tail short tag force
    encode_kind-Alike heap C n tail short tag force alias_node = encode_alias_node-Alike sink s₀ n

    pub encode_node-Alike :
        (fuel : ℕ) (heap : ℕ → Node) (n : Node) (tail : Bytes)
        → Alike sink s₀
            (encode_node collector go text fuel heap n tail)
            (encode_node sink go text fuel heap n tail)
    unfolding encode_node
    encode_node-Alike zero heap n tail = record { live = λ e s fed. tt; dead = λ e w fed. tt }
    encode_node-Alike (suc fuel) heap n tail =
        Alike-if sink s₀ (n.kind is_kind zero_kind && is_zero n) (encode_nil-Alike sink s₀) (
          Alike-bind sink s₀ (to_short n.tag) (to_short n.tag) _ _ (to_short-Alike sink s₀ n.tag)
            (λ short.
              Alike-bind sink s₀ (shown_tag collector go text n short)
                (shown_tag sink go text n short) _ _ (shown_tag-Alike n short)
                (λ r.
                  encode_kind-Alike heap (encode_node-Alike fuel heap) n tail short r.0 r.1
                    n.kind)))

    -- The two halves of Encode.
    abbrev start : {S E : Type 0} → Sink S E → Bool → M S E (Unit {0})
    start sink b =
        when (not b)
          (emit sink false stream_start_event >> modify (λ e. record e { started = true }))

    abbrev document : {S E : Type 0} → Sink S E → ℕ → (ℕ → Node) → Node → M S E (Unit {0})
    document sink fuel heap n =
        if n.kind is_kind document_node then encode_node sink go text fuel heap n [] else (do
          emit sink false document_start_event
          encode_node sink go text fuel heap n []
          emit sink false document_end_event)

    start-Alike : (b : Bool) → Alike sink s₀ (start collector b) (start sink b)
    start-Alike true = Alike-pure sink s₀ tt
    start-Alike false =
        Alike-bind sink s₀ (emit collector false _) (emit sink false _) _ _ (Alike-emit sink s₀ _)
          (λ u. record { live = λ e s fed. inl (s, fed, refl); dead = λ e w fed. fed })

    document-Alike :
        (fuel : ℕ) (heap : ℕ → Node) (n : Node)
        → Alike sink s₀ (document collector fuel heap n) (document sink fuel heap n)
    document-Alike fuel heap n =
        Alike-if sink s₀ (n.kind is_kind document_node) (encode_node-Alike fuel heap n []) (
          Alike-bind sink s₀ (emit collector false _) (emit sink false _) _ _ (Alike-emit sink s₀ _)
            (λ u.
              Alike-bind sink s₀ (encode_node collector go text fuel heap n [])
                (encode_node sink go text fuel heap n []) _ _ (encode_node-Alike fuel heap n [])
                (λ u. Alike-emit sink s₀ _)))

    pub encode-Alike :
        (fuel : ℕ) (heap : ℕ → Node) (n : Node)
        → Alike sink s₀ (encode collector go text fuel heap n) (encode sink go text fuel heap n)
    unfolding encode
    encode-Alike fuel heap n = record {
      live = λ e s fed. (from e.started).live e s fed;
      dead = λ e w fed. (from e.started).dead e w fed;
    }
      where
        from :
            (b : Bool)
            → Alike sink s₀
                (start collector b >>= λ u. document collector fuel heap n)
                (start sink b >>= λ u. document sink fuel heap n)
        from b =
            Alike-bind sink s₀ (start collector b) (start sink b) _ _ (start-Alike b)
              (λ u. document-Alike fuel heap n)
