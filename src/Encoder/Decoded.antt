-- ===== src/Encoder/Decoded.antt =====
-- The Encoder of encode.go on the documents that the type parser of decode.go has built.
use yaml.Common.{
  ℕ, zero, suc, ◌+◌, ◌≤◌, ◌<◌, ◌≡◌, refl, ap, sym, subst, Bool, true, false, Option, some, List, [],
  ◌∷◌, length, All, All-map, inl, arith,
}
use yaml.Event.{Event}
use yaml.Run.{ok, Ends-map}
use yaml.Resolve.Tags.{Cache}
use yaml.Resolve.Round.{short_of, Caches}
use yaml.Resolve.Value.{Platform}
use yaml.Node.{
  Kind, document_node, ◌is_kind◌, zero_kind, sequence_node, mapping_node, scalar_node, alias_node,
}
use yaml.Parser.Phrase.{accept_all}
use yaml.Parser.Grammar.{Goal, whole_stream, documents}
use yaml.Parser.Trace.{types}
use yaml.NodeParser.State.{Heap, NodeParser}
use yaml.NodeParser.State
use yaml.NodeParser.Collection.{parse}
use yaml.NodeParser.Shape.{Child, Solid}
use yaml.NodeParser.Stream.{Parsed, Behind, parse-Behind}
use yaml.Encoder.State.{Sink, Text, new}
use yaml.Encoder.Node.{encode}
use yaml.Encoder.Trees.{Inner, Tree}
use yaml.Encoder.Replay.{collector, feed}
use yaml.Encoder.Alike.Tree.{encode-Alike}
use yaml.Encoder.Drives.{recorded, Drives, Follows-Drives}
use yaml.Encoder.Documents.{Expects, Root, encode-Has}
use yaml.Encoder.Stream.{new-Fresh}

inner : (k : Kind) {X : Type 0} → (k is_kind document_node) ≡ false → X → Inner k X
inner zero_kind e x = tt
inner document_node e x = cc
inner sequence_node e x = x
inner mapping_node e x = x
inner scalar_node e x = tt
inner alias_node e x = tt

-- Content that is behind its node ends: what is left of the addresses bounds the depth.
Solid-Tree :
    (H : Heap) (k d a : ℕ)
    → Solid H k
    → k ≤ d + a
    → a < k
    → ((H a).kind is_kind document_node) ≡ false
    → Tree d H (H a)
Solid-Tree H k zero a s h below e = absurd (omega (arith, h, below))
Solid-Tree H k (suc d) a s h below e = inner (H a).kind e (
    All-map (Child H k a) (λ c. (j : ℕ) × (c ≡ some j) × Tree d H (H j)) (H a).content
      (λ c r. (
        r.address,
        r.is_there,
        Solid-Tree H k d r.address s (omega (arith, h, r.above)) r.below r.no_document,
      ))
      (s a))

Behind-Root : {a : ℕ} {q : NodeParser} → Behind a q → Root q.next q.heap (q.heap a)
Behind-Root {a} {q} b =
    let (j, there, tree) = single (q.heap a).content b.one (b.solid a) in
    inl (b.kind, j, there, tree)
  where
    single :
        (xs : List (Option ℕ))
        → length xs ≡ 1
        → All (Child q.heap q.next a) xs
        → (j : ℕ) × (xs ≡ some j ∷ []) × Tree q.next q.heap (q.heap j)
    single [] e h = cc
    single (x ∷ []) e (r, h) = (
      r.address,
      ap (λ x. x ∷ []) r.is_there,
      Solid-Tree q.heap q.next q.next r.address b.solid (omega arith) r.below r.no_document,
    )
    single (x ∷ y ∷ xs) e h = absurd (omega (arith, e))

-- A document that the decoder's Parse has returned, from events that may come in this order, is one that
-- a new encoder takes over any emitter: the call of Encode drives the emitter as it is recorded by one
-- that keeps every event. It returns when Emit takes all of these events, and then they are the start
-- of a stream and one document; else it ends with an error of its own behind them, or just as Emit ends
-- on them: it has no panic of its own, and as much fuel as there are nodes and one more is enough. The
-- decoder has more fuel than events, a true cache of short tags and a heap on which content is behind
-- its node, and the encoding of base64 has the length that it announces.
pub encode-decoded :
    {S E F T : Type 0} (sink : Sink S E) (s₀ : S) (go : Platform F T) (text : Text)
    (fits : (s : List ℕ) → length (text.encode s) ≡ text.encoded_len (length s))
    (events : List Event) {gs : List Goal} (heap : Heap) (next : ℕ) (shorts longs : Cache)
    (fuel : ℕ) {ns : List ℕ} {p q : NodeParser} {a : ℕ}
    → accept_all (whole_stream ∷ []) (types events) ≡ some gs
    → Caches short_of shorts
    → Solid heap next
    → length events < fuel
    → Parsed go fuel (State.new events heap next shorts) ns p
    → parse go fuel p ≡ ok (some a) q
    → Drives sink s₀
        (Expects (documents ∷ []))
        (recorded (encode collector go text (suc q.next) q.heap (q.heap a) (new [] q.shorts longs)))
        (encode sink go text (suc q.next) q.heap (q.heap a) (new s₀ q.shorts longs))
unfolding feed
encode-decoded sink s₀ go text fits events heap next shorts longs fuel {q} {a} e c s h run eq =
    let b = parse-Behind go events heap next shorts fuel e c s h run eq in
    let takes : List Event → Event → Bool = λ log event. true in
    Follows-Drives sink s₀
      (Ends-map (λ _ x r. subst (Expects (documents ∷ [])) (sym r.logged) r.holds)
        (encode-Has go takes text fits q.heap q.next (q.heap a) (new [] q.shorts longs)
          (Behind-Root b) (inl (new-Fresh go takes text fits q.heap q.shorts longs b.caches))))
      ((encode-Alike sink s₀ go text (suc q.next) q.heap (q.heap a)).live (new [] q.shorts longs) s₀
        refl)
