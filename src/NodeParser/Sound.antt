-- ===== src/NodeParser/Sound.antt =====
-- The handlers and the method Parse of the type parser of decode.go, on events that the grammar accepts.
use yaml.Common.{
  ℕ, zero, suc, ◌≤◌, ◌≡◌, inl, inr, refl, ap, not, Option, some, List, [], ◌∷◌, arith,
}
use yaml.Event.{
  Event, EventType, ◌is_type◌, document_start, document_end, sequence_start, sequence_end,
  mapping_start, mapping_end, flow_sequence_style, flow_mapping_style,
}
use yaml.Run.{◌>>◌, pure, when, Ends, Ends-map, returns, Ends-bind, Ends-when}
use yaml.Resolve.Tags.{seq_tag, map_tag}
use yaml.Resolve.Value.{Platform}
use yaml.Node.{Node, document_node, sequence_node, mapping_node, has_style}
use yaml.Parser.Grammar.{Goal, node, items, pairs, documents, document_closing, accept}
use yaml.NodeParser.State.{Heap, NodeParser, M, expect, init, peek, update}
use yaml.NodeParser.Build.{start}
use yaml.NodeParser.Build
use yaml.NodeParser.State
use yaml.NodeParser.Collection.{
  parse_child, parse_items, parse_pairs, end_comments, foot_to_last, parse_sequence, parse_mapping,
  parse_document, document_content,
}
use yaml.NodeParser.Pending.{Near, Ready, Looked, Ready-weaken, positive}
use yaml.NodeParser.Memory.{Core-to}
use yaml.NodeParser.Shape.{New, Building-New, Full, Building, Building-end}
use yaml.NodeParser.Leaf.{shape-Mid, expect-Mid, start-Ends}
use yaml.NodeParser.Made.{Mid, Seen, node-Ends}
use yaml.NodeParser.Feet.{foot_to_last-Ends}
use yaml.NodeParser.Loops.{
  Parsing, Even, pred, pred_le, peek-Seen, parse_child-Ends, parse_items-Ends, parse_pairs-Ends,
}

-- The end of a collection.
expect_end-Ends :
    {J : Heap → ℕ → Type 0} {gs gs' : List Goal} (m : ℕ) (t : EventType) (p : NodeParser)
    → accept gs' t ≡ some gs
    → Mid (Near gs' m) J p
    → Ends (λ _. Mid (Ready gs m) J) (expect t p)
expect_end-Ends zero t p a (l, x) = absurd (positive l)
expect_end-Ends {J} {gs} (suc m) t p a i =
    Ends-map (λ _ q (l, x). (Ready-weaken (omega arith) l, x))
      (expect-Mid {J = J} {gs' = gs} t p a i)

abbrev with_end : Event → Node → Node
with_end e n = record n { line_comment = e.line_comment; foot_comment = e.foot_comment }

abbrev with_foot : Event → Node → Node
with_foot e n = record n { foot_comment = e.foot_comment }

module _ {F T : Type 0} (go : Platform F T) {N : ℕ} {parse : M (Option ℕ)} (P : Parsing N parse)
    {gs : List Goal} {m : ℕ} (h : m ≤ N) (p : NodeParser) where
  pub parse_sequence-Ends :
      Seen (node ∷ gs) (suc m) (Full p.heap p.next) p
      → Ends
          (λ n q. New p.next q.heap q.next n × Mid (Ready gs m) (Full p.heap p.next) q)
          (parse_sequence go N parse p)
  unfolding parse_sequence end_comments
  parse_sequence-Ends i =
      Ends-bind (start go sequence_node seq_tag flow_sequence_style sequence_start) _ p
        (start-Ends go {L = λ _. Unit {0}} sequence_node seq_tag flow_sequence_style sequence_start
          p refl tt i)
        (λ n q (e, (l, x)). rw e (
          Ends-bind (parse_items N parse p.next) _ q (parse_items-Ends P N m q h h (inl l, x))
            (λ _ r j.
              let (l', y) =
                shape-Mid (Looked (items ∷ gs) m) p.next (with_end r.event) r j (λ n. refl) in
              let r' = record r { heap = update p.next (with_end r.event) r.heap } in
              Ends-bind (expect sequence_end) (λ _. pure p.next) r'
                (expect_end-Ends {gs = gs} m sequence_end r' refl (inr l', y))
                (λ _ u (l'', z). returns (
                  Building-New refl refl z.extra,
                  (l'', Core-to z (Building-end (λ c a _. tt) z.extra)),
                )))))

  pub parse_mapping-Ends :
      Seen (node ∷ gs) (suc m) (Full p.heap p.next) p
      → Ends
          (λ n q. New p.next q.heap q.next n × Mid (Ready gs m) (Full p.heap p.next) q)
          (parse_mapping go N parse p)
  unfolding parse_mapping end_comments
  parse_mapping-Ends i =
      Ends-bind (start go mapping_node map_tag flow_mapping_style mapping_start) _ p
        (start-Ends go {L = Even} mapping_node map_tag flow_mapping_style mapping_start p refl
          (0, refl) i)
        (λ n q (e, (l, x)). rw e (
          Ends-bind (parse_pairs N parse (not (has_style p.event.style flow_mapping_style)) p.next)
            _ q (parse_pairs-Ends P N m _ q h h (inl l, x))
            (λ _ r j.
              let j' =
                shape-Mid (Looked (pairs ∷ gs) m) p.next (with_end r.event) r j (λ n. refl) in
              let r' = record r { heap = update p.next (with_end r.event) r.heap } in
              Ends-bind (foot_to_last p.next) (λ _. expect mapping_end >> pure p.next) r'
                (foot_to_last-Ends (Looked (pairs ∷ gs) m) p.next r' j')
                (λ _ u (l', y).
                  Ends-bind (expect mapping_end) (λ _. pure p.next) u
                    (expect_end-Ends {gs = gs} m mapping_end u refl (inr l', y))
                    (λ _ v (l'', z). returns (
                      Building-New refl refl z.extra,
                      (l'', Core-to z (Building-end (λ c a e. e) z.extra)),
                    ))))))

  document_content-Ends :
      (q : NodeParser)
      → Seen (documents ∷ gs) (suc m) (Building document_node (λ j. j ≡ 0) p.heap p.next) q
      → Ends
          (λ n r.
            (n ≡ p.next)
            × Mid (Ready (documents ∷ gs) m) (Building document_node (λ j. j ≡ 1) p.heap p.next) r)
          (document_content parse p.next q)
  unfolding document_content
  document_content-Ends q (l, x) =
      let q' = record q { doc = some p.next } in
      Ends-bind (expect document_start) _ q'
        (expect-Mid {gs' = node ∷ document_closing ∷ documents ∷ gs} document_start q' refl
          (inr l, x))
        (λ _ r (l', y).
          Ends-bind (parse_child parse p.next) _ r
            (parse_child-Ends P {L' = λ j. j ≡ 1} m r (λ j o. ap suc o) h (inl l', y))
            (λ _ u (s, (l'', z)). Ends-bind peek _ u (peek-Seen u (inl l'', z)) (λ t v (_, j).
              Ends-bind
                {P = λ _.
                  Seen (document_closing ∷ documents ∷ gs) (pred m)
                    (Building document_node (λ j. j ≡ 1) p.heap p.next)}
                (when (t is_type document_end) (State.change p.next (with_foot v.event))) _ v
                (Ends-when (t is_type document_end) (State.change p.next (with_foot v.event)) v
                  (λ _. returns (
                    shape-Mid (Looked (document_closing ∷ documents ∷ gs) (pred m)) p.next
                      (with_foot v.event) v j (λ n. refl)))
                  (λ _. j))
                (λ _ w (k, b).
                  Ends-bind (expect document_end) (λ _. pure p.next) w
                    (expect_end-Ends {gs = documents ∷ gs} (pred m) document_end w refl (inr k, b))
                    (λ _ w' (k', b'). returns (refl, (Ready-weaken (pred_le m) k', b')))))))

  -- A document. It takes at least the event at its start.
  pub parse_document-Ends :
      Seen (documents ∷ gs) (suc m) (Full p.heap p.next) p
      → Ends
          (λ n q.
            (n ≡ p.next)
            × Mid (Ready (documents ∷ gs) m) (Building document_node (λ j. j ≡ 1) p.heap p.next) q)
          (parse_document go parse p)
  unfolding parse_document
  parse_document-Ends i =
      Ends-bind (Build.node go document_node [] [] []) (document_content parse) p
        (node-Ends go {L = λ j. j ≡ 0} document_node [] [] [] p i refl)
        (λ n q (e, j). rw e (document_content-Ends q j))
