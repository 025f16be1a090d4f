-- ===== src/NodeParser/Loops.antt =====
-- The loops over items and pairs of the parser of decode.go, on events that the grammar accepts.
use yaml.Common.{
  ℕ, zero, suc, ◌*◌, ◌≤◌, ◌≡◌, inl, inr, ap, subst, Bool, true, false, Option, some, List, ◌∷◌,
  arith,
}
use yaml.Event.{
  Event, EventType, ◌is_type◌, no_event, stream_start, stream_end, document_start, document_end,
  alias, scalar, sequence_start, sequence_end, mapping_start, mapping_end, tail_comment_event,
}
use yaml.Run.{◌>>=◌, ◌>>◌, when, Ends, Ends-map, returns, Ends-bind, Ends-if, Ends-when}
use yaml.Node.{Kind}
use yaml.Parser.Grammar.{Goal, node, items, pairs, accept}
use yaml.NodeParser.State.{Heap, NodeParser, M, peek}
use yaml.NodeParser.Collection.{
  parse_child, parse_items, parse_pairs, foot_to_prior, foot_to_key, tail_to_key,
}
use yaml.NodeParser.Pending.{
  Near, Ready, Looked, Looked-weaken, positive, peek-Looked, is_type_sound,
}
use yaml.NodeParser.Memory.{push-Building, Memory, Core-to, Core-push}
use yaml.NodeParser.Shape.{New, Child, IsSome, Full, Since-refl, Building, Building-Full}
use yaml.NodeParser.Made.{Mid, Seen}
use yaml.NodeParser.Feet.{foot_to_prior-Ends, foot_to_key-Ends}

-- A pointer to a new node.
abbrev pub IsNew : ℕ → Option ℕ → NodeParser → Type 0
IsNew k c q = (n : ℕ) × (c ≡ some n) × New k q.heap q.next n

-- A parse of a node on less than `N` events: it takes one of them at least, and what it makes is
-- complete.
abbrev pub Parsing : ℕ → M (Option ℕ) → Type 0
Parsing N parse =
    (gs : List Goal) (m : ℕ) (p : NodeParser)
    → suc m ≤ N
    → Mid (Near (node ∷ gs) (suc m)) (Full p.heap p.next) p
    → Ends (λ c q. IsNew p.next c q × Mid (Ready gs m) (Full p.heap p.next) q) (parse p)

-- An event other than the end begins an item, or a key.
module _ (gs : List Goal) {behind : List Goal} where
  begins_item :
      (t : EventType)
      → (t is_type sequence_end) ≡ false
      → accept (items ∷ gs) t ≡ some behind
      → accept (node ∷ items ∷ gs) t ≡ some behind
  begins_item sequence_end h e = cc
  begins_item no_event h e = e
  begins_item stream_start h e = e
  begins_item stream_end h e = e
  begins_item document_start h e = e
  begins_item document_end h e = e
  begins_item alias h e = e
  begins_item scalar h e = e
  begins_item sequence_start h e = e
  begins_item mapping_start h e = e
  begins_item mapping_end h e = e
  begins_item tail_comment_event h e = e

  begins_pair :
      (t : EventType)
      → (t is_type mapping_end) ≡ false
      → accept (pairs ∷ gs) t ≡ some behind
      → accept (node ∷ node ∷ pairs ∷ gs) t ≡ some behind
  begins_pair mapping_end h e = cc
  begins_pair no_event h e = e
  begins_pair stream_start h e = e
  begins_pair stream_end h e = e
  begins_pair document_start h e = e
  begins_pair document_end h e = e
  begins_pair alias h e = e
  begins_pair scalar h e = e
  begins_pair sequence_start h e = e
  begins_pair sequence_end h e = e
  begins_pair mapping_start h e = e
  begins_pair tail_comment_event h e = e

  no_tail :
      (t : EventType)
      → (t is_type tail_comment_event) ≡ true
      → accept (pairs ∷ gs) t ≡ some behind
      → ⊥
  no_tail t h e = let same = is_type_sound t tail_comment_event h in cc

Looked-to :
    {gs gs' : List Goal} {m : ℕ} {t : EventType} {es : List Event}
    → ((behind : List Goal) → accept gs t ≡ some behind → accept gs' t ≡ some behind)
    → Looked gs m t es
    → Looked gs' m t es
Looked-to f l = record {
  behind = l.behind;
  accepted = f l.behind l.accepted;
  allowed = l.allowed;
  bound = l.bound;
}

-- peek keeps the nodes.
pub peek-Seen :
    {J : Heap → ℕ → Type 0} {gs : List Goal} {m : ℕ} (p : NodeParser)
    → Mid (Near gs m) J p
    → Ends (λ t q. (t ≡ q.event.event_type) × Seen gs m J q) (peek p)
peek-Seen {J} p (l, x) =
    Ends-map (λ t q (e, l, x). (e, (l, x))) (peek-Looked (Memory J) (λ p e es i. i) p l x)

abbrev pub pred : ℕ → ℕ
pred zero = zero
pred (suc m) = m

pub pred_le : (m : ℕ) → pred m ≤ m
pred_le zero = omega arith
pred_le (suc m) = omega arith

abbrev pub Even : ℕ → Type 0
Even j = (c : ℕ) × (j ≡ c * 2)

abbrev Odd : ℕ → Type 0
Odd j = (c : ℕ) × (j ≡ suc (c * 2))

module _ {N : ℕ} {parse : M (Option ℕ)} (P : Parsing N parse) {H : Heap} {k : ℕ} where
  -- A node more in the content.
  pub parse_child-Ends :
      {K : Kind} {L L' : ℕ → Type 0} {gs : List Goal} (m : ℕ) (p : NodeParser)
      → ((j : ℕ) → L j → L' (suc j))
      → m ≤ N
      → Mid (Near (node ∷ gs) m) (Building K L H k) p
      → Ends
          (λ c q. IsSome c × Mid (Ready gs (pred m)) (Building K L' H k) q)
          (parse_child parse k p)
  unfolding parse_child
  parse_child-Ends zero p f h (l, x) = absurd (positive l)
  parse_child-Ends {L'} {gs} (suc m) p f h (l, x) =
      Ends-bind parse _ p (P gs m p h (l, Core-to x (Since-refl p.heap p.next)))
        (λ c q ((n, e, new), (l', y)).
          let child : Child q.heap q.next k c = record {
            address = n;
            is_there = e;
            above = omega (arith, x.extra.within, new.behind);
            below = new.within;
            no_document = new.no_document;
          } in
          returns (
            (n, e),
            (
              l',
              Core-push y k c child (push-Building {L' = L'} c f (Building-Full x.extra y.extra)),
            ),
          ))

  pub parse_items-Ends :
      {K : Kind} {gs : List Goal} (fuel m : ℕ) (p : NodeParser)
      → m ≤ fuel
      → m ≤ N
      → Mid (Near (items ∷ gs) m) (Building K (λ _. Unit {0}) H k) p
      → Ends
          (λ _. Seen (items ∷ gs) m (Building K (λ _. Unit {0}) H k))
          (parse_items fuel parse k p)
  unfolding parse_items
  parse_items-Ends fuel zero p h h' (l, x) = absurd (positive l)
  parse_items-Ends zero (suc m) p h h' (l, x) = absurd (omega (arith, h))
  parse_items-Ends {K} {gs} (suc fuel) (suc m) p h h' i =
      Ends-bind peek _ p (peek-Seen p i) (λ t q (e, (l, x)).
        Ends-if (t is_type sequence_end) _ _ q (λ _. returns (l, x))
          (λ n.
            Ends-bind (parse_child parse k) _ q
              (parse_child-Ends {L' = λ _. Unit {0}} {gs = items ∷ gs} (suc m) q (λ j _. tt) h'
                (
                  inr (
                      Looked-to
                        (λ b.
                          begins_item gs q.event.event_type
                            (subst (λ t. (t is_type sequence_end) ≡ false) e n))
                        l),
                  x,
                ))
              (λ c r (s, (l', y)).
                Ends-map (λ _ z (l'', w). (Looked-weaken (omega arith) l'', w))
                  (parse_items-Ends fuel m r (omega (arith, h)) (omega (arith, h')) (inl l', y)))))

  -- The rest of a round, and the rounds behind: there is no tail comment.
  after_value :
      {K : Kind} {gs : List Goal} (fuel m : ℕ) (block : Bool) (key : Option ℕ) (p : NodeParser)
      → Mid (Near (pairs ∷ gs) (pred m)) (Building K Even H k) p
      → ((q : NodeParser)
          → Mid (Near (pairs ∷ gs) (pred m)) (Building K Even H k) q
          → Ends
              (λ _. Seen (pairs ∷ gs) (pred m) (Building K Even H k))
              (parse_pairs fuel parse block k q))
      → let rest : M (Unit {0}) = (do
        after ← peek
        when (after is_type tail_comment_event) (tail_to_key key)
        parse_pairs fuel parse block k) in
        Ends (λ _. Seen (pairs ∷ gs) (suc m) (Building K Even H k)) (rest p)
  after_value {K} {gs} fuel m block key p i again =
      Ends-bind peek _ p (peek-Seen p i) (λ t q (e, (l, x)).
        Ends-bind (when (t is_type tail_comment_event) (tail_to_key key)) _ q
          (Ends-when {Q = λ _. Seen (pairs ∷ gs) (pred m) (Building K Even H k)}
            (t is_type tail_comment_event) (tail_to_key key) q
            (λ tail. absurd (
              no_tail gs q.event.event_type
                (subst (λ t. (t is_type tail_comment_event) ≡ true) e tail) l.accepted))
            (λ _. (l, x)))
          (λ _ r (l', y).
            Ends-map (λ _ z (l'', w). (Looked-weaken (omega (arith, pred_le m)) l'', w))
              (again r (inr l', y))))

  pub parse_pairs-Ends :
      {K : Kind} {gs : List Goal} (fuel m : ℕ) (block : Bool) (p : NodeParser)
      → m ≤ fuel
      → m ≤ N
      → Mid (Near (pairs ∷ gs) m) (Building K Even H k) p
      → Ends (λ _. Seen (pairs ∷ gs) m (Building K Even H k)) (parse_pairs fuel parse block k p)
  unfolding parse_pairs
  parse_pairs-Ends fuel zero block p h h' (l, x) = absurd (positive l)
  parse_pairs-Ends zero (suc m) block p h h' (l, x) = absurd (omega (arith, h))
  parse_pairs-Ends {K} {gs} (suc fuel) (suc m) block p h h' i =
      Ends-bind peek _ p (peek-Seen p i) (λ t q (e, (l, x)).
        Ends-if (t is_type mapping_end) _ _ q (λ _. returns (l, x))
          (λ n.
            Ends-bind (parse_child parse k) _ q
              (parse_child-Ends {L' = Odd} {gs = node ∷ pairs ∷ gs} (suc m) q
                (λ j (c, o). (c, ap suc o)) h'
                (
                  inr (
                      Looked-to
                        (λ b.
                          begins_pair gs q.event.event_type
                            (subst (λ t. (t is_type mapping_end) ≡ false) e n))
                        l),
                  x,
                ))
              (λ key r (s, i').
                Ends-bind (when block (foot_to_prior k key)) _ r
                  (Ends-when block (foot_to_prior k key) r
                    (λ _. foot_to_prior-Ends (Ready (node ∷ pairs ∷ gs) m) k key r s i') (λ _. i'))
                  (λ _ r' (l'', y).
                    Ends-bind (parse_child parse k) _ r'
                      (parse_child-Ends {L' = Even} {gs = pairs ∷ gs} m r'
                        (λ j (c, o). (suc c, omega (arith, o))) (omega (arith, h')) (inl l'', y))
                      (λ value u (t, j).
                        Ends-bind (foot_to_key key value) _ u
                          (foot_to_key-Ends (Ready (pairs ∷ gs) (pred m)) key value u s t j)
                          (λ _ u' j'.
                            after_value fuel m block key u' (inl j'.0, j'.1)
                              (λ v z.
                                parse_pairs-Ends fuel (pred m) block v (omega (arith, h, pred_le m))
                                  (omega (arith, h', pred_le m)) z)))))))
