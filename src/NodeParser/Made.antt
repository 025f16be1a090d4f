-- ===== src/NodeParser/Made.antt =====
-- A new node of the parser of decode.go, with the tag that it gets.
use yaml.Common.{
  ℕ, suc, ◌≡◌, refl, ap, sym, subst, Bool, true, false, not, ◌&&◌, Option, none, some, List, [],
  Bytes, bytes_eq, is_empty, codes, length, if◌then◌else◌,
}
use yaml.Event.{Event, EventType}
use yaml.Run.{Outcome, ok, err, ◌>>=◌, pure, Ends, returns, raises, Ends-bind, Ends-if, Ends-either}
use yaml.Resolve.Tags.{Cache}
use yaml.Resolve.Round.{short_of, Caches, short_tag-short_of}
use yaml.Resolve.Value.{Platform, Resolved}
use yaml.Resolve.Honest.{resolve-Honest}
use yaml.Node.{Node, Kind, ◌is_kind◌, tagged_style, scalar_node, new_node}
use yaml.Parser.Grammar.{Goal}
use yaml.NodeParser.State.{
  Heap, update, NodeParser, M, resolving, unknown_anchor, find_anchor, anchor, allocate, change,
  expect,
}
use yaml.NodeParser.Build.{
  explicit_tag, resolved_tag, tag_of, parse_scalar, parse_alias, start, with_text, add_style,
  node_style,
}
use yaml.NodeParser.Build
use yaml.NodeParser.State
use yaml.NodeParser.Pending.{Looked}
use yaml.NodeParser.Memory.{allocate-Building, Memory, Core-to, Core-allocate}
use yaml.NodeParser.Shape.{Shape, shape, Building}

-- What is pending, and the state of the nodes.
abbrev pub Mid : (EventType → List Event → Type 0) → (Heap → ℕ → Type 0) → NodeParser → Type 0
Mid P J p = P p.event.event_type p.events × Memory J p

-- There is a current event.
abbrev pub Seen : List Goal → ℕ → (Heap → ℕ → Type 0) → NodeParser → Type 0
Seen gs m J p = Looked gs m p.event.event_type p.events × Memory J p

abbrev Here : NodeParser → Heap → ℕ → Type 0
Here p H k = (H ≡ p.heap) × (k ≡ p.next)

module _ {gs : List Goal} {m : ℕ} {J : Heap → ℕ → Type 0} where
  explicit_tag-Ends :
      (tag : Bytes) (p : NodeParser) → Seen gs m J p → Ends (λ _. Seen gs m J) (explicit_tag tag p)
  unfolding explicit_tag
  explicit_tag-Ends tag p (l, x) =
      Ends-either (not (is_empty tag) && not (bytes_eq tag (codes "!")))
        (λ _. returns (
          l,
          record {
            started = x.started;
            caches = (short_tag-short_of tag p.shorts x.caches).1;
            solid = x.solid;
            extra = x.extra;
          },
        ))
        (λ _. returns (l, x))

  module _ {F T : Type 0} (go : Platform F T) where
    resolved_tag-Ends :
        (value : Bytes) (p : NodeParser)
        → Seen gs m J p
        → Ends (λ _. Seen gs m J) (resolved_tag go value p)
    unfolding resolved_tag
    resolved_tag-Ends value p (l, x) =
        let (r, cache, e, c, _) = resolve-Honest go [] value p.shorts x.caches in
        rw (e, resolved_tag) (with_error r cache c r.error)
      where
        with_error :
            (r : Resolved go) (cache : Cache)
            → Caches short_of cache
            → (x : Option Bytes)
            → let out : Outcome NodeParser State.Error Bytes = elim x [
              | none ↦ ok r.tag (record p { shorts = cache })
              | some text ↦ err (resolving text) (record p { shorts = cache })
            ] in
              Ends (λ _. Seen gs m J) out
        with_error r cache c none =
            returns
              (l, record { started = x.started; caches = c; solid = x.solid; extra = x.extra })
        with_error r cache c (some text) = raises

    tag_of-Ends :
        (kind : Kind) (default_tag tag value : Bytes) (p : NodeParser)
        → Seen gs m J p
        → Ends (λ _. Seen gs m J) (tag_of go kind default_tag tag value p)
    unfolding tag_of
    tag_of-Ends kind default_tag tag value p i =
        Ends-bind (explicit_tag tag) _ p (explicit_tag-Ends tag p i) (λ x q j. chosen x q j)
      where
        chosen :
            (x : Option Bytes) (q : NodeParser)
            → Seen gs m J q
            → let out : M (Bytes × ℕ) = elim x [
              | some short ↦ pure (short, tagged_style)
              | none ↦
                  if not (is_empty default_tag)
                  then pure (default_tag, 0)
                  else if kind is_kind scalar_node
                  then (do resolved ← resolved_tag go value; pure (resolved, 0))
                  else pure (tag, 0)
            ] in
              Ends (λ _. Seen gs m J) (out q)
        chosen (some short) q j = returns j
        chosen none q j =
            Ends-if (not (is_empty default_tag)) _ _ q (λ _. returns j)
              (λ _.
                Ends-if (kind is_kind scalar_node) _ _ q
                  (λ _.
                    Ends-bind (resolved_tag go value) _ q (resolved_tag-Ends value q j)
                      (λ t r k. returns k))
                  (λ _. returns j))

module _ {gs : List Goal} {m : ℕ} {J : Heap → ℕ → Type 0} {F T : Type 0} (go : Platform F T) where
  -- A new node at the next address.
  pub node-Ends :
      {L : ℕ → Type 0} (kind : Kind) (default_tag tag value : Bytes) (p : NodeParser)
      → Seen gs m J p
      → L 0
      → Ends
          (λ n q. (n ≡ p.next) × Seen gs m (Building kind L p.heap p.next) q)
          (Build.node go kind default_tag tag value p)
  unfolding Build.node allocate
  node-Ends {L} kind default_tag tag value p (l, x) z =
      Ends-bind (tag_of go kind default_tag tag value) _ p
        (tag_of-Ends go kind default_tag tag value p (l, Core-to {J' = Here p} x (refl, refl)))
        (λ (t, style) q (k, c). built t style q k c (textless_or q.textless q.event))
    where
      textless_or : (b : Bool) (e : Event) → (n : Node) → shape (with_text b e n) ≡ shape n
      textless_or true e n = refl
      textless_or false e n = refl

      built :
          (t : Bytes) (style : ℕ) (q : NodeParser)
          → Looked gs m q.event.event_type q.events
          → Memory (Here p) q
          → ((n : Node) → shape (with_text q.textless q.event n) ≡ shape n)
          → Ends
              (λ n q. (n ≡ p.next) × Seen gs m (Building kind L p.heap p.next) q)
              (allocate
                (with_text q.textless q.event
                  (record new_node { kind = kind; tag = t; value = value; style = style }))
                q)
      built t style q k c w =
          let plain : Node = record new_node {
            kind = kind;
            tag = t;
            value = value;
            style = style;
          } in
          let made : ℕ → Heap → Heap = λ a. update a (λ _. with_text q.textless q.event plain) in
          let (same_heap, same_next) = c.extra in
          returns (
            same_next,
            (
              k,
              Core-allocate c (with_text q.textless q.event plain)
                  (ap (λ (s : Shape). s.1) (w plain))
                  (subst (λ H. Building kind L H p.next (made q.next q.heap) (suc q.next)) same_heap
                    (subst (λ k. Building kind L q.heap k (made q.next q.heap) (suc q.next))
                      same_next
                      (allocate-Building (with_text q.textless q.event plain)
                        (ap (λ (s : Shape). s.0) (w plain))
                        (subst (λ (s : Shape). L (length s.1)) (sym (w plain)) z)))),
            ),
          )
