-- ===== src/NodeParser/Documents.antt =====
-- Calls of the method Parse of the type parser of decode.go, as its callers make them.
use yaml.Common.{
  ℕ, zero, suc, ◌≤◌, ◌≡◌, ◌⊎◌, inl, inr, refl, ap, sym, subst, true, false, Option, none, some,
  List, [], ◌∷◌, arith,
}
use yaml.Event.{
  Event, EventType, no_event, stream_start, stream_end, document_start, document_end, alias, scalar,
  sequence_start, sequence_end, mapping_start, mapping_end, tail_comment_event,
}
use yaml.Run.{modify, Ends, Ends-map, returns, Ends-bind, Ends-if}
use yaml.Resolve.Round.{short_of, Caches}
use yaml.Resolve.Value.{Platform}
use yaml.Node.{document_node}
use yaml.Parser.Grammar.{Goal, node, whole_stream, documents, accept}
use yaml.NodeParser.State.{Heap, NodeParser, M, init, peek, expect}
use yaml.NodeParser.Collection.{
  parse_sequence, parse_mapping, parse_document, parse_event, pointer, parse,
}
use yaml.NodeParser.Build.{parse_scalar, parse_alias}
use yaml.NodeParser.Pending.{Near, Ready, Ready-weaken, positive, expect-Ready}
use yaml.NodeParser.Memory.{Core-to}
use yaml.NodeParser.Shape.{New, Solid, Full, Since-refl, Building}
use yaml.NodeParser.Leaf.{parse_scalar-Ends, parse_alias-Ends}
use yaml.NodeParser.Made.{Mid, Seen}
use yaml.NodeParser.Loops.{IsNew, Parsing, peek-Seen}
use yaml.NodeParser.Sound.{parse_sequence-Ends, parse_mapping-Ends, parse_document-Ends}

-- The nodes are those of an earlier state.
abbrev Here : NodeParser → Heap → ℕ → Type 0
Here p H k = (H ≡ p.heap) × (k ≡ p.next)

pointer-Ends :
    {k : ℕ} {gs : List Goal} {m : ℕ} {J : Heap → ℕ → Type 0} (call : M ℕ) (p : NodeParser)
    → Ends (λ n q. New k q.heap q.next n × Mid (Ready gs m) J q) (call p)
    → Ends (λ c q. IsNew k c q × Mid (Ready gs m) J q) (pointer call p)
pointer-Ends call p h = Ends-bind call _ p h (λ n q (x, i). returns ((n, refl, x), i))

-- Before the first call.
pub record Fresh (J : Heap → ℕ → Type 0) (gs : List Goal) (m : ℕ) (p : NodeParser) : Type 0 where
  pub not_done : p.done_init ≡ false
  pub near : Near (whole_stream ∷ gs) m p.event.event_type p.events
  pub caches : Caches short_of p.shorts
  pub solid : Solid p.heap p.next
  pub extra : J p.heap p.next

-- Before a document or the end of the stream.
abbrev pub Between : (Heap → ℕ → Type 0) → List Goal → ℕ → NodeParser → Type 0
Between J gs m p = Fresh J gs m p ⊎ Mid (Near (documents ∷ gs) m) J p

init-Between :
    {J : Heap → ℕ → Type 0} {gs : List Goal} {m : ℕ} (p : NodeParser)
    → Between J gs (suc m) p
    → Ends (λ _. Mid (Near (documents ∷ gs) (suc m)) J) (init p)
unfolding init
init-Between p (inr (l, x)) =
    Ends-if p.done_init _ _ p (λ _. returns (l, x)) (λ e. let s = x.started in cc)
init-Between {J} {gs} {m} p (inl f) =
    let p' = record p { anchors = [] } in
    Ends-if p.done_init _ _ p (λ e. let s = f.not_done in cc)
      (λ _.
        Ends-bind (expect stream_start) (λ _. modify (λ p. record p { done_init = true })) p'
          (expect-Ready (λ p. Caches short_of p.shorts × Solid p.heap p.next × J p.heap p.next)
            (λ p e es i. i) {gs' = documents ∷ gs} {m = m} stream_start p' f.near refl
            (f.caches, f.solid, f.extra))
          (λ _ q (l, (c, s, j)). returns (
            inl (Ready-weaken (omega arith) l),
            record { started = refl; caches = c; solid = s; extra = j },
          )))

-- What Parse returns before a document or the end of the stream, with nodes below `k` on the heap `H`
-- before: nil, or the address of a new document, which has one node.
abbrev pub Returned : List Goal → ℕ → Heap → ℕ → Option ℕ → NodeParser → Type 0
Returned gs m H k c q =
    (c ≡ none) × Mid (Near (documents ∷ gs) m) (Full H k) q
    ⊎ ((c ≡ some k) × Mid (Near (documents ∷ gs) m) (Building document_node (λ j. j ≡ 1) H k) q)

module _ {F T : Type 0} (go : Platform F T) where
  -- The cases of Parse at a node.
  parse_event-Ends :
      {N : ℕ} {again : M (Option ℕ)} (P : Parsing N again) {gs behind : List Goal} {m : ℕ}
      (t : EventType) (p : NodeParser)
      → accept (node ∷ gs) t ≡ some behind
      → m ≤ N
      → Seen (node ∷ gs) (suc m) (Full p.heap p.next) p
      → Ends
          (λ c q. IsNew p.next c q × Mid (Ready gs m) (Full p.heap p.next) q)
          (parse_event go N again t p)
  unfolding parse_event
  parse_event-Ends {N} {again} P scalar p e h i =
      pointer-Ends (parse_scalar go) p (parse_scalar-Ends go p i)
  parse_event-Ends {N} {again} P alias p e h i =
      pointer-Ends (parse_alias go) p (parse_alias-Ends go p i)
  parse_event-Ends {N} {again} P sequence_start p e h i =
      pointer-Ends (parse_sequence go N again) p (parse_sequence-Ends go P h p i)
  parse_event-Ends {N} {again} P mapping_start p e h i =
      pointer-Ends (parse_mapping go N again) p (parse_mapping-Ends go P h p i)
  parse_event-Ends P no_event p e h i = cc
  parse_event-Ends P stream_start p e h i = cc
  parse_event-Ends P stream_end p e h i = cc
  parse_event-Ends P document_start p e h i = cc
  parse_event-Ends P document_end p e h i = cc
  parse_event-Ends P sequence_end p e h i = cc
  parse_event-Ends P mapping_end p e h i = cc
  parse_event-Ends P tail_comment_event p e h i = cc

  init-Mid :
      (P : EventType → List Event → Type 0) {J : Heap → ℕ → Type 0} (p : NodeParser)
      → Mid P J p
      → Ends (λ _. Mid P J) (init p)
  unfolding init
  init-Mid P p (l, x) =
      Ends-if p.done_init _ _ p (λ _. returns (l, x)) (λ e. let s = x.started in cc)

  parse-Parsing : (fuel : ℕ) → Parsing fuel (parse go fuel)
  unfolding parse
  parse-Parsing zero gs m p h i = absurd (omega (arith, h))
  parse-Parsing (suc fuel) gs m p h (l, x) =
      Ends-bind init _ p
        (init-Mid (Near (node ∷ gs) (suc m)) {J = Here p} p (l, Core-to x (refl, refl)))
        (λ _ q i. Ends-bind peek _ q (peek-Seen q i) (λ t r (e, (l', y)).
          let (same_heap, same_next) = y.extra in
          Ends-map
            (λ c u ((n, there, new), (k, z)). (
              (n, there, subst (λ k. New k u.heap u.next n) same_next new),
              (
                k,
                Core-to z (
                    subst (λ k. Full p.heap k u.heap u.next) same_next
                      (subst (λ H. Full H r.next u.heap u.next) same_heap z.extra)),
              ),
            ))
            (parse_event-Ends (parse-Parsing fuel) t r
              (subst (λ t. accept (node ∷ gs) t ≡ some l'.behind) (sym e) l'.accepted)
              (omega (arith, h)) (l', Core-to y (Since-refl r.heap r.next)))))

  document_event-Ends :
      {N : ℕ} {again : M (Option ℕ)} (P : Parsing N again) {gs behind : List Goal} (t : EventType)
      (p : NodeParser)
      → accept (documents ∷ gs) t ≡ some behind
      → Seen (documents ∷ gs) (suc N) (Full p.heap p.next) p
      → Ends (Returned gs (suc N) p.heap p.next) (parse_event go N again t p)
  unfolding parse_event
  document_event-Ends P stream_end p e (l, x) = returns (inl (refl, (inr l, x)))
  document_event-Ends {again} P document_start p e i =
      Ends-bind (parse_document go again) _ p (parse_document-Ends go P (omega arith) p i)
        (λ n q (e, (l, x)). returns (inr (ap some e, (inl (Ready-weaken (omega arith) l), x))))
  document_event-Ends P no_event p e i = cc
  document_event-Ends P stream_start p e i = cc
  document_event-Ends P document_end p e i = cc
  document_event-Ends P alias p e i = cc
  document_event-Ends P scalar p e i = cc
  document_event-Ends P sequence_start p e i = cc
  document_event-Ends P sequence_end p e i = cc
  document_event-Ends P mapping_start p e i = cc
  document_event-Ends P mapping_end p e i = cc
  document_event-Ends P tail_comment_event p e i = cc

  -- Parse before a document or the end of the stream.
  pub parse-Returned :
      {gs : List Goal} (fuel : ℕ) (p : NodeParser)
      → Between (Here p) gs fuel p
      → Ends (Returned gs fuel p.heap p.next) (parse go fuel p)
  unfolding parse
  parse-Returned zero p (inl f) = absurd (positive f.near)
  parse-Returned zero p (inr (l, x)) = absurd (positive l)
  parse-Returned {gs} (suc fuel) p i = Ends-bind init _ p (init-Between p i) (λ _ q j.
      Ends-bind peek _ q (peek-Seen q j) (λ t r (e, (l, y)).
        let (same_heap, same_next) = y.extra in
        subst
          (λ k. Ends (Returned gs (suc fuel) p.heap k) (parse_event go fuel (parse go fuel) t r))
          same_next
          (subst
            (λ H. Ends (Returned gs (suc fuel) H r.next) (parse_event go fuel (parse go fuel) t r))
            same_heap
            (document_event-Ends (parse-Parsing fuel) t r
              (subst (λ t. accept (documents ∷ gs) t ≡ some l.behind) (sym e) l.accepted)
              (l, Core-to y (Since-refl r.heap r.next))))))
