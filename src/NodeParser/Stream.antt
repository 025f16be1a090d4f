-- ===== src/NodeParser/Stream.antt =====
-- The type parser of decode.go on the events of the parser of internal/parserc.
use yaml.Common.{ℕ, ◌<◌, ◌≡◌, ◌⊎◌, inl, inr, refl, subst, Option, none, some, List, [], ◌∷◌, length}
use yaml.Event.{Event}
use yaml.Run.{ok, Ends, Ends-map, returns}
use yaml.Resolve.Tags.{Cache}
use yaml.Resolve.Round.{short_of, Caches}
use yaml.Resolve.Value.{Platform}
use yaml.Node.{document_node}
use yaml.Parser.Grammar.{Goal, whole_stream, accept}
use yaml.Parser.Phrase.{accept_all}
use yaml.Parser.State.{Parser, Delivery}
use yaml.Parser.State
use yaml.Parser.Trace.{Parses, types, Parses-accepted}
use yaml.NodeParser.State.{Heap, NodeParser, Error, new}
use yaml.NodeParser.Collection.{parse}
use yaml.NodeParser.Pending.{Open}
use yaml.NodeParser.Memory.{Core-to}
use yaml.NodeParser.Shape.{Solid, Full, Full-trans, Since-refl, Building-end}
use yaml.NodeParser.Documents.{Between, Returned, parse-Returned}

-- Calls of Parse that all return a document, the address of the first document first.
pub data Parsed {F T : Type 0} (go : Platform F T) (fuel : ℕ)
    : NodeParser → List ℕ → NodeParser → Type 0 where
  no_document : {p : NodeParser} → Parsed go fuel p [] p
  document :
      {p q r : NodeParser} {a : ℕ} {ns : List ℕ}
      → parse go fuel p ≡ ok (some a) q
      → Parsed go fuel q ns r
      → Parsed go fuel p (a ∷ ns) r

-- The value and the nodes behind a call: nil or the address of a document with one node; and on the
-- heap `H` with the nodes below `k` nodes have come that fit.
abbrev pub Complete : Heap → ℕ → Option ℕ → NodeParser → Type 0
Complete H k c q =
    Full H k q.heap q.next
    × ((c ≡ none)
        ⊎ ((a : ℕ) × (c ≡ some a)
            × ((q.heap a).kind ≡ document_node)
            × (length (q.heap a).content ≡ 1)))

accepted-Open :
    (gs : List Goal) {gs' : List Goal} (es : List Event)
    → accept_all gs (types es) ≡ some gs'
    → Open gs es
accepted-Open gs [] e = tt
accepted-Open gs {gs'} (event ∷ es) e = go (accept gs event.event_type) (λ k. accepted-Open k es) e
  where
    go :
        (r : Option (List Goal))
        → ((k : List Goal) → accept_all k (types es) ≡ some gs' → Open k es)
        → let rest : Option (List Goal) = elim r [
          | none ↦ none
          | some gs ↦ accept_all gs (types es)
        ] in
          let open_rest : Type 0 = elim r [ none ↦ ⊥ | some gs ↦ Open gs es ] in
          rest ≡ some gs' → open_rest
    go none f e = cc
    go (some k) f e = f k e

Between-to :
    {J J' : Heap → ℕ → Type 0} {gs : List Goal} {m : ℕ} {p : NodeParser}
    → (J p.heap p.next → J' p.heap p.next)
    → Between J gs m p
    → Between J' gs m p
Between-to f (inl x) = inl (record {
  not_done = x.not_done;
  near = x.near;
  caches = x.caches;
  solid = x.solid;
  extra = f x.extra;
})
Between-to f (inr (l, x)) = inr (l, Core-to x (f x.extra))

module _ {F T : Type 0} (go : Platform F T) {H : Heap} {k : ℕ} {gs : List Goal} where
  again-Between :
      (fuel : ℕ) (p : NodeParser)
      → Between (Full H k) gs fuel p
      → Ends (λ c q. Complete H k c q × Between (Full H k) gs fuel q) (parse go fuel p)
  again-Between fuel p i =
      Ends-map (λ c q r. completed c q (before i) r)
        (parse-Returned go fuel p (Between-to (λ _. (refl, refl)) i))
    where
      before : Between (Full H k) gs fuel p → Full H k p.heap p.next
      before (inl x) = x.extra
      before (inr (l, x)) = x.extra

      completed :
          (c : Option ℕ) (q : NodeParser)
          → Full H k p.heap p.next
          → Returned gs fuel p.heap p.next c q
          → Complete H k c q × Between (Full H k) gs fuel q
      completed c q f (inl (e, (l, x))) =
          let all = Full-trans f x.extra in ((all, inl e), inr (l, Core-to x all))
      completed c q f (inr (e, (l, x))) =
          let all = Full-trans f (Building-end (λ c a e. e) x.extra) in
          ((all, inr (p.next, e, x.extra.kind, x.extra.size)), inr (l, Core-to x all))

  returned :
      {fuel : ℕ} {c : Option ℕ} {q : NodeParser}
      → Ends {E = Error} (λ c q. Complete H k c q × Between (Full H k) gs fuel q) (ok c q)
      → Between (Full H k) gs fuel q
  returned (returns (f, b)) = b

  Parsed-Between :
      {fuel : ℕ} {p q : NodeParser} {ns : List ℕ}
      → Parsed go fuel p ns q
      → Between (Full H k) gs fuel p
      → Between (Full H k) gs fuel q
  Parsed-Between no_document b = b
  Parsed-Between {fuel} {p} (document e rest) b = Parsed-Between rest (
      returned (
        subst (Ends (λ c q. Complete H k c q × Between (Full H k) gs fuel q)) e
          (again-Between fuel p b)))

-- However many documents calls of Parse have returned, on events that may come in this order, and with
-- more fuel than events, over a true cache of short tags and a heap on which content is behind its node,
-- the next call returns nil, a document or an error: it neither panics nor runs out of fuel. A document
-- has one node; of all nodes that were made every mapping has keys and values in pairs, every alias has
-- a target, and scalars and aliases have no content; and no node that was there before has changed its
-- kind, its content or its target.
pub parse-Complete :
    {F T : Type 0} (go : Platform F T) (events : List Event) {gs : List Goal} (heap : Heap)
    (next : ℕ) (shorts : Cache) (fuel : ℕ) {ns : List ℕ} {p : NodeParser}
    → accept_all (whole_stream ∷ []) (types events) ≡ some gs
    → Caches short_of shorts
    → Solid heap next
    → length events < fuel
    → Parsed go fuel (new events heap next shorts) ns p
    → Ends (Complete heap next) (parse go fuel p)
parse-Complete go events heap next shorts fuel {p} e c s h run =
    let start : Between (Full heap next) [] fuel (new events heap next shorts) = inl (record {
      not_done = refl;
      near = inl (record { idle = refl; allowed = accepted-Open _ events e; bound = h });
      caches = c;
      solid = s;
      extra = Since-refl heap next;
    }) in
    Ends-map (λ c q x. x.0) (again-Between go fuel p (Parsed-Between go run start))

-- On the events that calls of the parser below have returned, whatever its scanner delivers, and however
-- many documents calls of Parse have returned from them, the next call returns nil, a document or an
-- error, where its fuel is more than the events, over a true cache of short tags and a heap on which
-- content is behind its node: it neither panics nor runs out of fuel, and the nodes that have been made
-- have the shapes of their kinds.
pub pipeline-Complete :
    {F T : Type 0} (go : Platform F T) (ds : List Delivery) {below : Parser} {events : List Event}
    (heap : Heap) (next : ℕ) (shorts : Cache) (fuel : ℕ) {ns : List ℕ} {p : NodeParser}
    → Parses (State.new ds) events below
    → Caches short_of shorts
    → Solid heap next
    → length events < fuel
    → Parsed go fuel (new events heap next shorts) ns p
    → Ends (Complete heap next) (parse go fuel p)
pipeline-Complete go ds {events} heap next shorts fuel called c s h run =
    parse-Complete go events heap next shorts fuel (Parses-accepted ds called) c s h run

-- Behind a document: the nodes, and the cache of ShortTag.
pub record Behind (a : ℕ) (q : NodeParser) : Type 0 where
  pub caches : Caches short_of q.shorts
  pub solid : Solid q.heap q.next
  pub kind : (q.heap a).kind ≡ document_node
  pub one : length (q.heap a).content ≡ 1

pub parse-Behind :
    {F T : Type 0} (go : Platform F T) (events : List Event) {gs : List Goal} (heap : Heap)
    (next : ℕ) (shorts : Cache) (fuel : ℕ) {ns : List ℕ} {p q : NodeParser} {a : ℕ}
    → accept_all (whole_stream ∷ []) (types events) ≡ some gs
    → Caches short_of shorts
    → Solid heap next
    → length events < fuel
    → Parsed go fuel (new events heap next shorts) ns p
    → parse go fuel p ≡ ok (some a) q
    → Behind a q
parse-Behind go events heap next shorts fuel {p} {q} {a} e c s h run eq =
    let start : Between (Full heap next) [] fuel (new events heap next shorts) = inl (record {
      not_done = refl;
      near = inl (record { idle = refl; allowed = accepted-Open _ events e; bound = h });
      caches = c;
      solid = s;
      extra = Since-refl heap next;
    }) in
    found (
      subst (Ends (λ c q. Complete heap next c q × Between (Full heap next) [] fuel q)) eq
        (again-Between go fuel p (Parsed-Between go run start)))
  where
    found :
        Ends {E = Error}
          (λ c q. Complete heap next c q × Between (Full heap next) [] fuel q)
          (ok (some a) q)
        → Behind a q
    found (returns ((f, inl n), b)) = cc
    found (returns ((f, inr (n, t, k, o)), inl x)) =
        let same : n ≡ a = cc in
        record {
          caches = x.caches;
          solid = x.solid;
          kind = subst (λ a. (q.heap a).kind ≡ document_node) same k;
          one = subst (λ a. length (q.heap a).content ≡ 1) same o;
        }
    found (returns ((f, inr (n, t, k, o)), inr (l, x))) =
        let same : n ≡ a = cc in
        record {
          caches = x.caches;
          solid = x.solid;
          kind = subst (λ a. (q.heap a).kind ≡ document_node) same k;
          one = subst (λ a. length (q.heap a).content ≡ 1) same o;
        }
