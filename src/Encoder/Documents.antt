-- ===== src/Encoder/Documents.antt =====
-- What Encode of encode.go emits for the node of a document, and for others.
use yaml.Common.{
  ℕ, suc, Bytes, ◌≡◌, refl, ap, sym, ◌∙◌, subst, Bool, true, false, not, ◌&&◌, if◌then◌else◌,
  Option, none, some, List, [], ◌∷◌, ◌++◌, length, append-nil, ◌⊎◌, inl, inr,
}
use yaml.Event.{Event, EventType, stream_start, document_start, document_end}
use yaml.Run.{◌>>◌, Ends, returns, Ends-bind, Ends-if, Ends-when, when, modify}
use yaml.Resolve.Tags.{short_tag}
use yaml.Resolve.Round.{short_tag-short_of}
use yaml.Resolve.Value.{Platform}
use yaml.Node.{
  Node, Kind, zero_kind, document_node, sequence_node, mapping_node, scalar_node, alias_node,
  ◌is_kind◌, is_zero,
}
use yaml.Parser.Phrase.{accept_all, accept_all-Phrase}
use yaml.Parser.Grammar.{Goal, whole_stream, documents, document_closing, node, accept}
use yaml.Parser.Trace.{accept_all-append}
use yaml.Event.Make.{stream_start_event, document_start_event, document_end_event}
use yaml.Encoder.State.{Text, M, to_short, Encoder, emit}
use yaml.Encoder.Node.{
  encode_each, encode_kind, shown_tag, encode_document_node, encode_node, encode,
}
use yaml.Encoder.Scalar.{encode_nil}
use yaml.Encoder.Trees.{recorder, Inner, Tree, Has, NodeBehind, Has-shorts, emit-Has, shown_tag-Has}
use yaml.Encoder.Collections.{Events}
use yaml.Encoder.Whole.{encode_node-Has}

-- What the grammar expects behind the events.
abbrev pub Expects : List Goal → Events
Expects gs ts = accept_all (whole_stream ∷ []) ts ≡ some gs

pub Expects-event :
    {gs gs' : List Goal} (t : EventType)
    → accept gs t ≡ some gs'
    → (ts : List EventType) → Expects gs ts
    → Expects gs' (ts ++ t ∷ [])
Expects-event {gs'} t a ts e = accept_all-append _ ts (t ∷ []) e ∙ accepted _ a
  where
    accepted :
        (r : Option (List Goal))
        → r ≡ some gs'
        → elim r [ none ↦ none | some k ↦ accept_all k [] ] ≡ some gs'
    accepted none a = cc
    accepted (some k) a = a

Expects-node : {gs : List Goal} → NodeBehind (Expects (node ∷ gs)) (Expects gs)
Expects-node {gs} ts us e n =
    accept_all-append _ ts us e
    ∙ ap (accept_all (node ∷ gs)) (sym (append-nil us))
    ∙ accept_all-Phrase gs [] n

-- A tree without a document, or a document with one node over such a tree.
abbrev pub Root : ℕ → (ℕ → Node) → Node → Type 0
Root d heap n =
    ((n.kind ≡ document_node) × (a : ℕ) × (n.content ≡ some a ∷ []) × Tree d heap (heap a))
    ⊎ Tree (suc d) heap n

-- An encoder that has emitted nothing, and one that has emitted whole documents.
abbrev pub Fresh : Encoder (List Event) → Type 0
Fresh = Has (Expects (whole_stream ∷ [])) [] false

abbrev pub Started : Encoder (List Event) → Type 0
Started = Has (Expects (documents ∷ [])) [] true

no_document : (k : Kind) (X : Type 0) → Inner k X → (k is_kind document_node) ≡ false
no_document zero_kind X i = refl
no_document document_node X i = absurd i
no_document sequence_node X i = refl
no_document mapping_node X i = refl
no_document scalar_node X i = refl
no_document alias_node X i = refl

module _ {F T : Type 0} (go : Platform F T) (takes : List Event → Event → Bool) (text : Text)
    (fits : (s : Bytes) → length (text.encode s) ≡ text.encoded_len (length s))
    (heap : ℕ → Node) where
  started-Has :
      (e : Encoder (List Event))
      → Fresh e ⊎ Started e
      → Ends
          (λ _. Started)
          (when
            (not e.started)
            (emit (recorder takes) false stream_start_event
              >> modify (λ e. record e { started = true }))
            e)
  started-Has e (inr h) =
      Ends-when (not e.started) _ e (λ s. let t = h.started in absurd (both e.started h.started s))
        (λ _. h)
    where
      both : (b : Bool) → b ≡ true → not b ≡ true → ⊥
      both true p q = cc
      both false p q = cc
  started-Has e (inl h) =
      Ends-when (not e.started) _ e
        (λ _.
          Ends-bind (emit (recorder takes) false stream_start_event) _ e
            (emit-Has takes {L' = Expects (documents ∷ [])} false stream_start_event e h
              (Expects-event {gs = whole_stream ∷ []} stream_start refl))
            (λ _ e' h'. returns (record {
              types_behind = h'.types_behind;
              holds = h'.holds;
              logged = h'.logged;
              started = refl;
              caches = h'.caches;
            })))
        (λ s. absurd (both e.started h.started s))
    where
      both : (b : Bool) → b ≡ false → not b ≡ false → ⊥
      both true p q = cc
      both false p q = cc

  encode_document_node-Has :
      (d : ℕ) (n : Node) (a : ℕ) (e : Encoder (List Event))
      → n.content ≡ some a ∷ []
      → Tree d heap (heap a)
      → Started e
      → Ends
          (λ _. Started)
          (encode_document_node
            (recorder takes)
            heap
            (encode_node (recorder takes) go text d heap)
            n
            e)
  unfolding encode_document_node
  encode_document_node-Has d n a e c t h =
      Ends-bind (emit (recorder takes) false _) _ e
        (emit-Has takes {L' = Expects (node ∷ document_closing ∷ documents ∷ [])} false _ e h
          (Expects-event {gs = documents ∷ []} document_start refl))
        (λ _ e₁ h₁.
          Ends-bind {P = λ _. Has (Expects (document_closing ∷ documents ∷ [])) [] true}
            (encode_each (recorder takes) heap (encode_node (recorder takes) go text d heap)
              n.content)
            _ e₁
            (rw c (
              Ends-bind (encode_node (recorder takes) go text d heap (heap a) []) _ e₁
                (encode_node-Has go takes text fits heap d _ _ (heap a) [] e₁ t Expects-node h₁)
                (λ _ e₂ h₂. returns h₂)))
            (λ _ e₃ h₃.
              emit-Has takes {L' = Expects (documents ∷ [])} false _ e₃ h₃
                (Expects-event {gs = document_closing ∷ documents ∷ []} document_end refl)))

  encode_node-document :
      (d : ℕ) (n : Node) (a : ℕ) (e : Encoder (List Event))
      → n.kind ≡ document_node
      → n.content ≡ some a ∷ []
      → Tree d heap (heap a)
      → Started e
      → Ends (λ _. Started) (encode_node (recorder takes) go text (suc d) heap n [] e)
  unfolding encode_node to_short encode_kind
  encode_node-document d n a e k c t h =
      Ends-if (n.kind is_kind zero_kind && is_zero n) (encode_nil (recorder takes)) _ e
        (λ z. let other : (n.kind is_kind zero_kind) ≡ false = rw k refl in cc)
        (λ _.
          let e₁ = record e { shorts = (short_tag n.tag e.shorts).1 } in
          Ends-bind (shown_tag (recorder takes) go text n (short_tag n.tag e.shorts).0) _ e₁
            (shown_tag-Has go takes text n (short_tag n.tag e.shorts).0 e₁
              (Has-shorts e _ e.longs (short_tag-short_of n.tag e.shorts h.caches).1 h))
            (λ r e₂ h₂.
              subst
                (λ k.
                  Ends (λ _. Started)
                    (encode_kind (recorder takes) go text heap
                      (encode_node (recorder takes) go text d heap) n []
                      (short_tag n.tag e.shorts).0 r.0 r.1 k e₂))
                (sym k) (encode_document_node-Has d n a e₂ c t h₂)))

  pub encode-Has :
      (d : ℕ) (n : Node) (e : Encoder (List Event))
      → Root d heap n
      → Fresh e ⊎ Started e
      → Ends (λ _. Started) (encode (recorder takes) go text (suc d) heap n e)
  unfolding encode
  encode-Has d n e r h =
      Ends-bind
        (when (not e.started) (
          emit (recorder takes) false stream_start_event
          >> modify (λ e. record e { started = true })))
        _ e (started-Has e h) (λ _ e₁ h₁. rooted r e₁ h₁)
    where
      bare : M (List Event) (Unit {0}) (Unit {0})
      bare = do
        emit (recorder takes) false document_start_event
        encode_node (recorder takes) go text (suc d) heap n []
        emit (recorder takes) false document_end_event

      rooted :
          Root d heap n
          → (e : Encoder (List Event)) → Started e
          → Ends
              (λ _. Started)
              ((if n.kind is_kind document_node
                  then encode_node (recorder takes) go text (suc d) heap n []
                  else bare)
                e)
      rooted (inl (k, a, c, t)) e h =
          Ends-if (n.kind is_kind document_node) _ bare e
            (λ _. encode_node-document d n a e k c t h)
            (λ f. let other : (n.kind is_kind document_node) ≡ true = rw k refl in cc)
      rooted (inr t) e h =
          Ends-if (n.kind is_kind document_node)
            (encode_node (recorder takes) go text (suc d) heap n []) bare e
            (λ f. let other = no_document n.kind _ t in cc)
            (λ _.
              Ends-bind (emit (recorder takes) false document_start_event) _ e
                (emit-Has takes {L' = Expects (node ∷ document_closing ∷ documents ∷ [])} false _ e
                  h (Expects-event {gs = documents ∷ []} document_start refl))
                (λ _ e₁ h₁.
                  Ends-bind (encode_node (recorder takes) go text (suc d) heap n []) _ e₁
                    (encode_node-Has go takes text fits heap (suc d) _ _ n [] e₁ t Expects-node h₁)
                    (λ _ e₂ h₂.
                      emit-Has takes {L' = Expects (documents ∷ [])} false _ e₂ h₂ (
                        Expects-event {gs = document_closing ∷ documents ∷ []} document_end refl))))
