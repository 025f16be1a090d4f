-- ===== src/NodeParser/Leaf.antt =====
-- The nodes that the parser of decode.go makes for scalars and aliases, and the starts of collections.
use yaml.Common.{
  ℕ, suc, ◌≡◌, refl, ap, sym, subst, Option, none, some, List, [], ◌∷◌, Bytes, is_empty, arith,
  length, inr,
}
use yaml.Event.{Event, EventType, alias, scalar}
use yaml.Run.{◌>>◌, pure, fail, when, Ends, returns, raises, Ends-bind, Ends-if, Ends-when}
use yaml.Resolve.Value.{Platform}
use yaml.Node.{Node, Kind, scalar_node, alias_node}
use yaml.Parser.Grammar.{Goal, node, accept}
use yaml.NodeParser.State.{
  Heap, update, NodeParser, M, unknown_anchor, find_anchor, anchor, change, expect,
}
use yaml.NodeParser.Build.{
  explicit_tag, resolved_tag, tag_of, parse_scalar, parse_alias, start, with_text, add_style,
  node_style,
}
use yaml.Node.{has_style, flow_style}
use yaml.NodeParser.Build
use yaml.NodeParser.Pending.{Near, Looked, Ready, expect-Ready}
use yaml.NodeParser.Memory.{update-same, edit-Building, update-shape, Memory, Core-to, Core-change}
use yaml.NodeParser.Shape.{
  New, Building-New, Shape, shape, Fits, Full, Building, Building-same, Building-close,
  Building-end,
}
use yaml.NodeParser.Made.{Mid, Seen, node-Ends}

-- A change that keeps the shapes.
pub shape-Mid :
    (P : EventType → List Event → Type 0) {K : Kind} {L : ℕ → Type 0} {H : Heap} {k : ℕ} (a : ℕ)
    (f : Node → Node) (p : NodeParser)
    → Mid P (Building K L H k) p
    → ((n : Node) → shape (f n) ≡ shape n)
    → Mid P (Building K L H k) (record p { heap = update a f p.heap })
shape-Mid P a f p (l, x) e = (
  l,
  Core-change x a f (λ n. ap (λ (s : Shape). s.1) (e n)) (λ n. ap (λ (s : Shape). s.0) (e n))
      (Building-same (update-shape a f p.heap e) x.extra),
)

module _ {gs : List Goal} {m : ℕ} {K : Kind} {L : ℕ → Type 0} {H : Heap} {k : ℕ} where
  pub anchor-Ends :
      (a : ℕ) (name : Bytes) (p : NodeParser)
      → Seen gs m (Building K L H k) p
      → Ends (λ _. Seen gs m (Building K L H k)) (anchor a name p)
  unfolding anchor
  anchor-Ends a name p i =
      Ends-if (is_empty name) _ _ p (λ _. returns i)
        (λ _. returns (shape-Mid (Looked gs m) a (λ n. record n { anchor = name }) p i (λ n. refl)))

-- The memory does not read the events.
pub expect-Mid :
    {J : Heap → ℕ → Type 0} {gs gs' : List Goal} {m : ℕ} (t : EventType) (p : NodeParser)
    → accept gs t ≡ some gs'
    → Mid (Near gs (suc m)) J p
    → Ends (λ _. Mid (Ready gs' m) J) (expect t p)
expect-Mid {J} t p a (l, x) = expect-Ready (Memory J) (λ p e es i. i) t p l a x

empty_content : (c : List (Option ℕ)) → length c ≡ 0 → c ≡ []
empty_content [] e = refl
empty_content (x ∷ c) e = absurd (omega (arith, e))

module _ {F T : Type 0} (go : Platform F T) {gs : List Goal} {m : ℕ} where
  pub start-Ends :
      {L : ℕ → Type 0} (kind : Kind) (default_tag : Bytes) (flow : ℕ) (type : EventType)
      {gs' : List Goal} (p : NodeParser)
      → accept (node ∷ gs) type ≡ some gs'
      → L 0
      → Seen (node ∷ gs) (suc m) (Full p.heap p.next) p
      → Ends
          (λ n q. (n ≡ p.next) × Mid (Ready gs' m) (Building kind L p.heap p.next) q)
          (start go kind default_tag flow type p)
  unfolding start
  start-Ends {L} kind default_tag flow type p a z i =
      Ends-bind (Build.node go kind default_tag p.event.tag []) _ p
        (node-Ends go {L = L} kind default_tag p.event.tag [] p i z)
        (λ n q (e, j).
          Ends-bind {P = λ _. Seen (node ∷ gs) (suc m) (Building kind L p.heap p.next)}
            (when (has_style q.event.style flow) (change n (add_style flow_style))) _ q
            (Ends-when _ (change n (add_style flow_style)) q
              (λ _.
                returns
                  (shape-Mid (Looked (node ∷ gs) (suc m)) n (add_style flow_style) q j (λ n. refl)))
              (λ _. j))
            (λ _ q' j'.
              Ends-bind (anchor n q.event.anchor) _ q' (anchor-Ends n q.event.anchor q' j')
                (λ _ r k.
                  Ends-bind (expect type) _ r (expect-Mid type r a (inr k.0, k.1))
                    (λ _ r' k'. returns (e, k')))))

  pub parse_scalar-Ends :
      (p : NodeParser)
      → Seen (node ∷ gs) (suc m) (Full p.heap p.next) p
      → Ends
          (λ n q. New p.next q.heap q.next n × Mid (Ready gs m) (Full p.heap p.next) q)
          (parse_scalar go p)
  unfolding parse_scalar
  parse_scalar-Ends p i =
      let style = node_style p.event.style in
      Ends-bind (Build.node go scalar_node _ p.event.tag p.event.value) _ p
        (node-Ends go {L = λ j. j ≡ 0} scalar_node _ p.event.tag p.event.value p i refl)
        (λ n q (e, j).
          let q' = record q { heap = update n (add_style style) q.heap } in
          let j' = shape-Mid (Looked (node ∷ gs) (suc m)) n (add_style style) q j (λ n. refl) in
          Ends-bind (anchor n q.event.anchor) _ q' (anchor-Ends n q.event.anchor q' j') (λ _ r k.
            Ends-bind (expect scalar) _ r (expect-Mid {gs' = gs} scalar r refl (inr k.0, k.1))
              (λ _ r' (l, x). returns (
                Building-New e refl x.extra,
                (l, Core-to x (Building-end (λ c a e. empty_content c e) x.extra)),
              ))))

  pub parse_alias-Ends :
      (p : NodeParser)
      → Seen (node ∷ gs) (suc m) (Full p.heap p.next) p
      → Ends
          (λ n q. New p.next q.heap q.next n × Mid (Ready gs m) (Full p.heap p.next) q)
          (parse_alias go p)
  unfolding parse_alias
  parse_alias-Ends p i =
      Ends-bind (Build.node go alias_node [] [] p.event.anchor) _ p
        (node-Ends go {L = λ j. j ≡ 0} alias_node [] [] p.event.anchor p i refl)
        (λ n q (e, j). aimed n q e j (find_anchor (q.heap n).value q.anchors))
    where
      Aimed : ℕ → Heap → ℕ → Type 0
      Aimed a H k = Building alias_node (λ j. j ≡ 0) p.heap p.next H k × ((H p.next).alias ≡ some a)

      at_target : ℕ → Node → Node
      at_target a x = record x { alias = some a }

      fits : {a : ℕ} {H : Heap} {k : ℕ} → Aimed a H k → Full p.heap p.next H k
      fits {a} {H} (b, e) = Building-close b (
          subst (λ K. Fits (K, (H p.next).content, (H p.next).alias)) (sym b.kind)
            (empty_content _ b.size, a, e))

      aimed :
          (n : ℕ) (q : NodeParser)
          → n ≡ p.next
          → Seen (node ∷ gs) (suc m) (Building alias_node (λ j. j ≡ 0) p.heap p.next) q
          → (r : Option ℕ)
          → let out : M ℕ = elim r [
            | none ↦ fail (unknown_anchor (q.heap n).value)
            | some target ↦ do change n (at_target target); expect alias; pure n
          ] in
            Ends
              (λ n q. New p.next q.heap q.next n × Mid (Ready gs m) (Full p.heap p.next) q)
              (out q)
      aimed n q e (l, x) none = raises
      aimed n q e (l, x) (some a) =
          let r = record q { heap = update n (at_target a) q.heap } in
          let target : Aimed a (update n (at_target a) q.heap) q.next =
            subst (λ n. Aimed a (update n (at_target a) q.heap) q.next) (sym e)
              (
                edit-Building (at_target a) (λ x. refl) (λ x h. h) x.extra,
                ap (λ x. x.alias) (update-same p.next (at_target a) q.heap),
              ) in
          Ends-bind (expect alias) (λ _. pure n) r
            (expect-Mid {J = Aimed a} {gs' = gs} alias r refl
              (inr l, Core-change x n (at_target a) (λ x. refl) (λ x. refl) target))
            (λ _ r' (l', y).
              returns (Building-New e refl y.extra.0, (l', Core-to y (fits y.extra))))
