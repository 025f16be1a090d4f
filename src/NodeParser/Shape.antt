-- ===== src/NodeParser/Shape.antt =====
-- The shapes of the nodes that the parser of decode.go makes, from one heap to a later one.
use yaml.Common.{
  false, ℕ, ◌<◌, ◌≤◌, ◌*◌, ◌⊎◌, ltb, ◌≡◌, ◌≢◌, refl, ap, sym, ◌∙◌, subst, Option, none, some, List,
  [], length, All, ◌==◌, Bool-cases, inl, inr, arith,
}
use yaml.Node.{
  ◌is_kind◌, Node, Kind, zero_kind, document_node, sequence_node, mapping_node, scalar_node,
  alias_node,
}
use yaml.NodeParser.State.{Heap}

-- What the comments, the tag, the value, the anchor, the style and the position of a node leave out.
abbrev pub Shape : Type 0
Shape = Kind × List (Option ℕ) × Option ℕ

abbrev pub shape : Node → Shape
shape n = (n.kind, n.content, n.alias)

-- A document has one node; a mapping has keys and values by turns; a scalar and an alias have no
-- content, and an alias has a target.
abbrev pub Fits : Shape → Type 0
Fits (zero_kind, content, alias) = ⊥
Fits (document_node, content, alias) = length content ≡ 1
Fits (sequence_node, content, alias) = Unit
Fits (mapping_node, content, alias) = (k : ℕ) × (length content ≡ k * 2)
Fits (scalar_node, content, alias) = content ≡ []
Fits (alias_node, content, alias) = (content ≡ []) × (a : ℕ) × (alias ≡ some a)

abbrev pub IsSome : Option ℕ → Type 0
IsSome c = (a : ℕ) × (c ≡ some a)

-- A pointer to a node between the addresses `a` and `k` that is no document.
pub record Child (heap : Heap) (k a : ℕ) (c : Option ℕ) : Type 0 where
  pub address : ℕ
  pub is_there : c ≡ some address
  pub above : a < address
  pub below : address < k
  pub no_document : ((heap address).kind is_kind document_node) ≡ false

-- The content of every node is behind it, and below `k`.
abbrev pub Solid : Heap → ℕ → Type 0
Solid heap k = (a : ℕ) → All (Child heap k a) (heap a).content

abbrev Skips : Option ℕ → ℕ → Type 0
Skips none b = ⊥
Skips (some n) b = b ≡ n

-- From the heap `H` with the nodes below `k` on: the nodes that were there keep their shapes, and those
-- that are new fit, but for a node that is skipped.
pub record Since (skip : Option ℕ) (H : Heap) (k : ℕ) (H' : Heap) (k' : ℕ) : Type 0 where
  pub grows : k ≤ k'
  pub kept : (b : ℕ) → b < k → (Skips skip b → ⊥) → shape (H' b) ≡ shape (H b)
  pub made : (b : ℕ) → k ≤ b → b < k' → (Skips skip b → ⊥) → Fits (shape (H' b))

abbrev pub Full : Heap → ℕ → Heap → ℕ → Type 0
Full = Since none

-- The first new node is in the making: its kind, and what holds of the length of its content.
pub record Building (K : Kind) (L : ℕ → Type 0) (H : Heap) (k : ℕ) (H' : Heap) (k' : ℕ)
    : Type 0 where
  pub since : Since (some k) H k H' k'
  pub within : k < k'
  pub kind : (H' k).kind ≡ K
  pub size : L (length (H' k).content)

pub Since-refl : (H : Heap) (k : ℕ) → Full H k H k
Since-refl H k = record {
  grows = omega arith;
  kept = λ b h s. refl;
  made = λ b h h' s. absurd (omega (arith, h, h'));
}

module _ {H : Heap} {k : ℕ} where
  -- The same shapes.
  pub Building-same :
      {K : Kind} {L : ℕ → Type 0} {H' H'' : Heap} {k' : ℕ}
      → ((b : ℕ) → shape (H'' b) ≡ shape (H' b))
      → Building K L H k H' k'
      → Building K L H k H'' k'
  Building-same {L} e b = record {
    since = record {
      grows = b.since.grows;
      kept = λ a h s. e a ∙ b.since.kept a h s;
      made = λ a h h' s. subst Fits (sym (e a)) (b.since.made a h h' s);
    };
    within = b.within;
    kind = ap (λ s. s.0) (e k) ∙ b.kind;
    size = subst (λ (s : Shape). L (length s.1)) (sym (e k)) b.size;
  }

  -- A call that builds other nodes behind.
  pub Building-Full :
      {K : Kind} {L : ℕ → Type 0} {H' H'' : Heap} {k' k'' : ℕ}
      → Building K L H k H' k'
      → Full H' k' H'' k''
      → Building K L H k H'' k''
  Building-Full {L} {H'} {H''} {k'} {k''} b f = record {
    since = record {
      grows = omega (arith, b.since.grows, f.grows);
      kept = λ a h s. f.kept a (omega (arith, h, b.since.grows)) (λ x. x) ∙ b.since.kept a h s;
      made = λ a h h' s. elim (below a) [
        | inl l ↦ subst Fits (sym (f.kept a l (λ x. x))) (b.since.made a h l s)
        | inr g ↦ f.made a g h' (λ x. x)
      ];
    };
    within = omega (arith, b.within, f.grows);
    kind = ap (λ s. s.0) same ∙ b.kind;
    size = subst (λ (s : Shape). L (length s.1)) (sym same) b.size;
  }
    where
      same : shape (H'' k) ≡ shape (H' k)
      same = f.kept k b.within (λ x. x)

      below : (a : ℕ) → (a < k') ⊎ (k' ≤ a)
      below a = elim (Bool-cases (ltb a k')) [
        | inl h ↦ inl (ground (arith, h))
        | inr h ↦ inr (ground (arith, h))
      ]

  -- The node is complete.
  pub Building-close :
      {K : Kind} {L : ℕ → Type 0} {H' : Heap} {k' : ℕ}
      → Building K L H k H' k'
      → Fits (shape (H' k))
      → Full H k H' k'
  Building-close {H'} b f = record {
    grows = b.since.grows;
    kept = λ a h s. b.since.kept a h (λ e. omega (arith, e, h));
    made = λ a h h' s. elim (Bool-cases (a == k)) [
      | inl e ↦ let same : k ≡ a = ground (arith, e) in subst (λ a. Fits (shape (H' a))) same f
      | inr e ↦ b.since.made a h h' (λ same. let other : a ≢ k = ground (arith, e) in other same)
    ];
  }

-- The node is complete, since all of its kind and length are.
pub Building-end :
    {K : Kind} {L : ℕ → Type 0} {H : Heap} {k : ℕ} {H' : Heap} {k' : ℕ}
    → ((content : List (Option ℕ)) (alias : Option ℕ)
        → L (length content)
        → Fits (K, content, alias))
    → Building K L H k H' k'
    → Full H k H' k'
Building-end {k} {H'} f b =
    Building-close b
      (subst (λ K. Fits (K, (H' k).content, (H' k).alias)) (sym b.kind) (f _ _ b.size))

pub Full-trans :
    {H H' H'' : Heap} {k k' k'' : ℕ} → Full H k H' k' → Full H' k' H'' k'' → Full H k H'' k''
Full-trans {H''} {k'} f g = record {
  grows = omega (arith, f.grows, g.grows);
  kept = λ a h s. g.kept a (omega (arith, h, f.grows)) s ∙ f.kept a h s;
  made = λ a h h' s. elim (Bool-cases (ltb a k')) [
    | inl l ↦
        let below : a < k' = ground (arith, l) in
        subst Fits (sym (g.kept a below s)) (f.made a h below s)
    | inr l ↦ g.made a (ground (arith, l)) h' s
  ];
}

-- An address of a node that is new since `k`, and no document.
pub record New (k : ℕ) (heap : Heap) (next : ℕ) (n : ℕ) : Type 0 where
  pub behind : k ≤ n
  pub within : n < next
  pub no_document : ((heap n).kind is_kind document_node) ≡ false

pub Building-New :
    {K : Kind} {L : ℕ → Type 0} {H : Heap} {k : ℕ} {H' : Heap} {k' n : ℕ}
    → n ≡ k
    → (K is_kind document_node) ≡ false
    → Building K L H k H' k'
    → New k H' k' n
Building-New {k} {H'} {k'} e d b = subst (New k H' k') (sym e) (record {
  behind = omega arith;
  within = b.within;
  no_document = ap (λ t. t is_kind document_node) b.kind ∙ d;
})
