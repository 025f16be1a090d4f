-- ===== src/Encoder/Trees.antt =====
-- What the Encoder of encode.go emits for a tree of nodes.
use yaml.Common.{
  ℕ, zero, suc, ◌≡◌, refl, ap, ◌∙◌, Bool, true, false, not, ◌&&◌, ◌||◌, Option, none, some, List,
  [], ◌∷◌, ◌++◌, append_assoc, Bytes, bytes_eq, is_empty, length, All, if◌then◌else◌,
}
use yaml.Event.{Event, EventType}
use yaml.Run.{Outcome, ok, err, panic, exhausted, pure, Ends, returns, raises, Ends-bind, Ends-if}
use yaml.Resolve.Tags.{Cache, str_tag, binary_tag}
use yaml.Resolve.Round.{short_of, Caches}
use yaml.Resolve.Value.{Platform, Resolved}
use yaml.Resolve.Honest.{resolve-Honest}
use yaml.Resolve.Base64.{encode_base64-Wrapped}
use yaml.Node.{
  Node, Kind, document_node, sequence_node, mapping_node, scalar_node, ◌is_kind◌, has_style,
  quoted_styles, tagged_style,
}
use yaml.Parser.Phrase.{Phrase}
use yaml.Parser.Grammar.{node}
use yaml.Parser.Trace.{types}
use yaml.Encoder.State.{Sink, Text, Encoder, Error, emitting, resolving, emit, to_long}
use yaml.Encoder.Node.{resolved_tag, shown_tag, kind_tag}
use yaml.Encoder.Scalar.{emit_scalar, encode_alias_node, text_of, encode_scalar_node}

-- An emitter for theorems on what the encoder emits: it keeps the events, but those that it refuses with
-- an error. Unlike Emit it never panics.
abbrev pub recorder : (List Event → Event → Bool) → Sink (List Event) (Unit {0})
recorder takes = record {
  emit = λ event final s. if takes s event then ok tt (s ++ event ∷ []) else err tt s;
}

-- A collection has its nodes below; there is no document.
abbrev pub Inner : Kind → Type 0 → Type 0
Inner document_node X = ⊥
Inner sequence_node X = X
Inner mapping_node X = X
Inner _ X = Unit

-- A tree of nodes of a depth below `d`.
abbrev pub Tree : ℕ → (ℕ → Node) → Node → Type 0
Tree zero heap n = ⊥
Tree (suc d) heap n =
    Inner n.kind (All (λ c. (a : ℕ) × (c ≡ some a) × Tree d heap (heap a)) n.content)

-- The types of the events behind those of `log` have the property, and no call starts the stream.
pub record Has (L : List EventType → Type 0) (log : List Event) (b : Bool)
    (e : Encoder (List Event)) : Type 0 where
  pub types_behind : List EventType
  pub holds : L types_behind
  pub logged : types e.emitter ≡ types log ++ types_behind
  pub started : e.started ≡ b
  pub caches : Caches short_of e.shorts

types-snoc : (es : List Event) (e : Event) → types (es ++ e ∷ []) ≡ types es ++ e.event_type ∷ []
types-snoc [] e = refl
types-snoc (x ∷ es) e = ap (λ ts. x.event_type ∷ ts) (types-snoc es e)

-- What holds of events, and of a node behind them.
abbrev pub NodeBehind : (List EventType → Type 0) → (List EventType → Type 0) → Type 0
NodeBehind L L' = (ts us : List EventType) → L ts → Phrase node us → L' (ts ++ us)

module _ (takes : List Event → Event → Bool) {log : List Event} {b : Bool} where
  pub emit-Has :
      {L L' : List EventType → Type 0} (final : Bool) (event : Event) (e : Encoder (List Event))
      → Has L log b e
      → ((ts : List EventType) → L ts → L' (ts ++ event.event_type ∷ []))
      → Ends (λ _. Has L' log b) (emit (recorder takes) final event e)
  unfolding emit
  emit-Has {L'} final event e h f = go (takes e.emitter event)
    where
      go :
          (t : Bool)
          → let end : Outcome (List Event) (Unit {0}) (Unit {0}) =
              if t then ok tt (e.emitter ++ event ∷ []) else err tt e.emitter in
            let out : Outcome (Encoder (List Event)) (Error (Unit {0})) (Unit {0}) = elim end [
              | ok u s ↦ ok tt (record e { emitter = s })
              | err x s ↦ err (emitting x) (record e { emitter = s })
              | panic ↦ panic
              | exhausted ↦ exhausted
            ] in
            Ends (λ _. Has L' log b) out
      go true = returns (record {
        types_behind = h.types_behind ++ event.event_type ∷ [];
        holds = f h.types_behind h.holds;
        logged =
            types-snoc e.emitter event
            ∙ ap (λ ts. ts ++ event.event_type ∷ []) h.logged
            ∙ append_assoc (types log) h.types_behind (event.event_type ∷ []);
        started = h.started;
        caches = h.caches;
      })
      go false = raises

module _ {L : List EventType → Type 0} {log : List Event} {b : Bool} where
  -- States that agree but for the cache of LongTag.
  pub Has-shorts :
      (e : Encoder (List Event)) (shorts longs : Cache)
      → Caches short_of shorts
      → Has L log b e
      → Has L log b (record e { shorts = shorts; longs = longs })
  Has-shorts e shorts longs c h = record {
    types_behind = h.types_behind;
    holds = h.holds;
    logged = h.logged;
    started = h.started;
    caches = c;
  }

  -- The encoding of base64 fits its buffer.
  module _ (takes : List Event → Event → Bool) (text : Text)
      (fits : (s : Bytes) → length (text.encode s) ≡ text.encoded_len (length s)) where
    text_of-Has :
        (value short tag : Bytes) (e : Encoder (List Event))
        → Has L log b e
        → Ends (λ _. Has L log b) (text_of (recorder takes) text value short tag e)
    unfolding text_of
    text_of-Has value short tag e h =
        Ends-if (text.valid value) _ _ e (λ _. returns h)
          (λ _.
            Ends-if (bytes_eq short binary_tag) _ _ e (λ _. raises)
              (λ _.
                Ends-if (not (is_empty short)) _ _ e (λ _. raises)
                  (λ _.
                    let (out, found, _) =
                      encode_base64-Wrapped text.encode text.encoded_len value (fits value) in
                    rw (found, text_of) (returns h))))

module _ {L L' : List EventType → Type 0} {log : List Event} {b : Bool} where
  module _ (takes : List Event → Event → Bool) (f : NodeBehind L L') where
    pub emit_scalar-Has :
        (value anchor tag : Bytes) (style : ℕ) (head line foot tail : Bytes)
        (e : Encoder (List Event))
        → Has L log b e
        → Ends
            (λ _. Has L' log b)
            (emit_scalar (recorder takes) value anchor tag style head line foot tail e)
    unfolding emit_scalar to_long
    emit_scalar-Has value anchor [] style head line foot tail e h =
        emit-Has takes {L = L} {L' = L'} false _ e h (λ ts l. f ts _ l Phrase.scalar_node)
    emit_scalar-Has value anchor (x ∷ tag) style head line foot tail e h =
        emit-Has takes {L = L} {L' = L'} false _ _ (Has-shorts e e.shorts _ h.caches h)
          (λ ts l. f ts _ l Phrase.scalar_node)

    pub encode_alias_node-Has :
        (n : Node) (e : Encoder (List Event))
        → Has L log b e
        → Ends (λ _. Has L' log b) (encode_alias_node (recorder takes) n e)
    unfolding encode_alias_node
    encode_alias_node-Has n e h =
        emit-Has takes {L = L} {L' = L'} false _ e h (λ ts l. f ts _ l Phrase.alias_node)

    module _ (text : Text)
        (fits : (s : Bytes) → length (text.encode s) ≡ text.encoded_len (length s)) where
      pub encode_scalar_node-Has :
          (n : Node) (tail short tag : Bytes) (force : Bool) (e : Encoder (List Event))
          → Has L log b e
          → Ends
              (λ _. Has L' log b)
              (encode_scalar_node (recorder takes) text n tail short tag force e)
      unfolding encode_scalar_node
      encode_scalar_node-Has n tail short tag force e h =
          Ends-bind (text_of (recorder takes) text n.value short tag) _ e
            (text_of-Has takes text fits n.value short tag e h)
            (λ r e' h'. emit_scalar-Has r.0 n.anchor r.1 _ _ _ _ _ e' h')

-- The tag of a node, over the cache of ShortTag.
module _ {F T : Type 0} (go : Platform F T) (takes : List Event → Event → Bool)
    {L : List EventType → Type 0} {log : List Event} {b : Bool} where
  resolved_tag-Has :
      (text : Text) (value : Bytes) (e : Encoder (List Event))
      → Has L log b e
      → Ends (λ _. Has L log b) (resolved_tag (recorder takes) go text value e)
  unfolding resolved_tag
  resolved_tag-Has text value e h =
      let (r, cache, found, c, _) = resolve-Honest go [] value e.shorts h.caches in
      rw (found, resolved_tag) (with_error r cache c r.error)
    where
      with_error :
          (r : Resolved go) (cache : Cache)
          → Caches short_of cache
          → (x : Option Bytes)
          → let out : Outcome (Encoder (List Event)) (Error (Unit {0})) Bytes = elim x [
            | none ↦ ok r.tag (record e { shorts = cache })
            | some t ↦ err (resolving t) (record e { shorts = cache })
          ] in
            Ends (λ _. Has L log b) out
      with_error r cache c none = returns (Has-shorts e cache e.longs c h)
      with_error r cache c (some t) = raises

  pub shown_tag-Has :
      (text : Text) (n : Node) (short : Bytes) (e : Encoder (List Event))
      → Has L log b e
      → Ends (λ _. Has L log b) (shown_tag (recorder takes) go text n short e)
  unfolding shown_tag
  shown_tag-Has text n short e h =
      Ends-if (is_empty n.tag || has_style n.style tagged_style) _ _ e (λ _. returns h)
        (λ _.
          Ends-if (n.kind is_kind scalar_node) _ _ e
            (λ _.
              Ends-if (bytes_eq short str_tag && has_style n.style quoted_styles) _ _ e
                (λ _. returns h)
                (λ _.
                  Ends-bind (resolved_tag (recorder takes) go text n.value) _ e
                    (resolved_tag-Has text n.value e h)
                    (λ rtag e' h'.
                      Ends-if (bytes_eq rtag short) _ _ e' (λ _. returns h')
                        (λ _.
                          Ends-if (bytes_eq short str_tag) _ _ e' (λ _. returns h')
                            (λ _. returns h')))))
            (λ _.
              Ends-if (bytes_eq (kind_tag n.kind) short) (pure ([], false)) (pure (n.tag, false)) e
                (λ _. returns h) (λ _. returns h)))
