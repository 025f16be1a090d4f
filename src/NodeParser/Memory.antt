-- ===== src/NodeParser/Memory.antt =====
-- The state of the nodes that the parser of decode.go makes, and how writes keep it.
use yaml.Common.{
  All-map, ◌≤◌, ◌<◌, ℕ, suc, ◌≡◌, ◌≢◌, refl, ap, sym, ◌∙◌, subst, Bool, true, false, Option, List,
  [], ◌∷◌, ◌++◌, length, length-append, All, ◌==◌, if◌then◌else◌, Bool-cases, inl, inr, arith,
}
use yaml.Resolve.Tags.{Cache}
use yaml.Resolve.Round.{short_of, Caches}
use yaml.Node.{◌is_kind◌, document_node, Node, Kind}
use yaml.NodeParser.State.{Heap, NodeParser, update}
use yaml.NodeParser.Shape.{shape, Fits, Solid, Child, Building}

pub update-same : (a : ℕ) (f : Node → Node) (H : Heap) → update a f H a ≡ f (H a)
update-same a f H = let e : (a == a) ≡ true = ground arith in rw e refl

update-other : (a b : ℕ) (f : Node → Node) (H : Heap) → b ≢ a → update a f H b ≡ H b
update-other a b f H h = let e : (b == a) ≡ false = ground (arith, h) in rw e refl

pub update-shape :
    (a : ℕ) (f : Node → Node) (H : Heap)
    → ((n : Node) → shape (f n) ≡ shape n)
    → (b : ℕ) → shape (update a f H b) ≡ shape (H b)
update-shape a f H h b = go (b == a)
  where
    go : (t : Bool) → shape (if t then f (H b) else H b) ≡ shape (H b)
    go true = h (H b)
    go false = refl

-- A node is made.
pub allocate-Building :
    {K : Kind} {L : ℕ → Type 0} {H : Heap} {k : ℕ} (n : Node)
    → n.kind ≡ K
    → L (length n.content)
    → Building K L H k (update k (λ _. n) H) (suc k)
allocate-Building {L} {H} {k} n e l = record {
  since = record {
    grows = omega arith;
    kept = λ b h s. ap shape (update-other k b (λ _. n) H s);
    made = λ b h h' s. absurd (s (omega (arith, h, h')));
  };
  within = omega arith;
  kind = ap (λ x. x.kind) (update-same k (λ _. n) H) ∙ e;
  size = subst (λ (x : Node). L (length x.content)) (sym (update-same k (λ _. n) H)) l;
}

abbrev push : Option ℕ → Node → Node
push c n = record n { content = n.content ++ c ∷ [] }

-- The node in the making changes.
pub edit-Building :
    {K : Kind} {L L' : ℕ → Type 0} {H H' : Heap} {k k' : ℕ} (f : Node → Node)
    → ((n : Node) → (f n).kind ≡ n.kind)
    → ((n : Node) → L (length n.content) → L' (length (f n).content))
    → Building K L H k H' k'
    → Building K L' H k (update k f H') k'
edit-Building {L} {L'} {H} {H'} {k} f e g b = record {
  since = record {
    grows = b.since.grows;
    kept = λ a h s. ap shape (update-other k a f H' s) ∙ b.since.kept a h s;
    made = λ a h h' s.
        subst (λ (x : Node). Fits (shape x)) (sym (update-other k a f H' s))
          (b.since.made a h h' s);
  };
  within = b.within;
  kind = ap (λ x. x.kind) (update-same k f H') ∙ e (H' k) ∙ b.kind;
  size = subst (λ (x : Node). L' (length x.content)) (sym (update-same k f H')) (g (H' k) b.size);
}

-- A node is added to the content.
pub push-Building :
    {K : Kind} {L L' : ℕ → Type 0} {H H' : Heap} {k k' : ℕ} (c : Option ℕ)
    → ((j : ℕ) → L j → L' (suc j))
    → Building K L H k H' k'
    → Building K L' H k (update k (push c) H') k'
push-Building {L} {L'} c f b =
    edit-Building (push c) (λ n. refl) (λ n h. subst L' (longer n.content) (f _ h)) b
  where
    longer : (xs : List (Option ℕ)) → suc (length xs) ≡ length (xs ++ c ∷ [])
    longer xs = omega (arith, length-append xs (c ∷ []))

All-snoc :
    (P : Option ℕ → Type 0) (xs : List (Option ℕ)) (c : Option ℕ)
    → All P xs
    → P c
    → All P (xs ++ c ∷ [])
All-snoc P [] c h i = (i, tt)
All-snoc P (x ∷ xs) c (j, h) i = (j, All-snoc P xs c h i)

-- Content stays in place while the kinds of the nodes stay.
Child-to :
    {H H' : Heap} {k k' a : ℕ} (c : Option ℕ)
    → k ≤ k'
    → ((j : ℕ) → j < k → (H' j).kind ≡ (H j).kind)
    → Child H k a c
    → Child H' k' a c
Child-to c h e r = record {
  address = r.address;
  is_there = r.is_there;
  above = r.above;
  below = omega (arith, h, r.below);
  no_document = ap (λ t. t is_kind document_node) (e r.address r.below) ∙ r.no_document;
}

update-kind :
    (a : ℕ) (f : Node → Node) (H : Heap)
    → ((n : Node) → (f n).kind ≡ n.kind)
    → (b : ℕ) → (update a f H b).kind ≡ (H b).kind
update-kind a f H h b = go (b == a)
  where
    go : (t : Bool) → (if t then f (H b) else H b).kind ≡ (H b).kind
    go true = h (H b)
    go false = refl

-- A write at one address.
update-Solid :
    (a : ℕ) (f : Node → Node) (H : Heap) (k k' : ℕ)
    → k ≤ k'
    → ((j : ℕ) → j < k → (update a f H j).kind ≡ (H j).kind)
    → Solid H k
    → All (Child (update a f H) k' a) (f (H a)).content
    → Solid (update a f H) k'
update-Solid a f H k k' h e s new b = elim (Bool-cases (b == a)) [
  | inl t ↦
      let same : a ≡ b = ground (arith, t) in
      subst (λ b. All (Child (update a f H) k' b) (update a f H b).content) same
        (subst (λ (x : Node). All (Child (update a f H) k' a) x.content) (sym (update-same a f H))
          new)
  | inr t ↦
      let other : b ≢ a = ground (arith, t) in
      subst (λ (x : Node). All (Child (update a f H) k' b) x.content)
        (sym (update-other a b f H other))
        (All-map (Child H k b) (Child (update a f H) k' b) (H b).content (λ c. Child-to c h e)
          (s b))
]

-- The state of the nodes; `J` is what holds of them beyond that.
pub record Core (J : Heap → ℕ → Type 0) (done : Bool) (shorts : Cache) (heap : Heap) (next : ℕ)
    : Type 0 where
  pub started : done ≡ true
  pub caches : Caches short_of shorts
  pub solid : Solid heap next
  pub extra : J heap next

abbrev pub Memory : (Heap → ℕ → Type 0) → NodeParser → Type 0
Memory J p = Core J p.done_init p.shorts p.heap p.next

module _ {J J' : Heap → ℕ → Type 0} {d : Bool} {c : Cache} {H : Heap} {k : ℕ}
    (m : Core J d c H k) where
  pub Core-to : J' H k → Core J' d c H k
  Core-to j = record { started = m.started; caches = m.caches; solid = m.solid; extra = j }

  pub Core-allocate :
      (n : Node)
      → n.content ≡ []
      → J' (update k (λ _. n) H) (suc k)
      → Core J' d c (update k (λ _. n) H) (suc k)
  Core-allocate n h j = record {
    started = m.started;
    caches = m.caches;
    solid =
        update-Solid k (λ _. n) H k (suc k) (omega arith)
          (λ i below. ap (λ x. x.kind) (update-other k i (λ _. n) H (λ e. omega (arith, e, below))))
          m.solid (subst (All (Child (update k (λ _. n) H) (suc k) k)) (sym h) tt);
    extra = j;
  }

  pub Core-push :
      (a : ℕ) (x : Option ℕ)
      → Child H k a x
      → J' (update a (push x) H) k
      → Core J' d c (update a (push x) H) k
  Core-push a x i j =
      let kinds : (b : ℕ) → b < k → (update a (push x) H b).kind ≡ (H b).kind =
        λ b _. update-kind a (push x) H (λ n. refl) b in
      record {
        started = m.started;
        caches = m.caches;
        solid = update-Solid a (push x) H k k (omega arith) kinds m.solid (
            All-snoc (Child (update a (push x) H) k a) (H a).content x
              (All-map (Child H k a) (Child (update a (push x) H) k a) (H a).content
                (λ c. Child-to c (omega arith) kinds) (m.solid a))
              (Child-to x (omega arith) kinds i));
        extra = j;
      }

  pub Core-change :
      (a : ℕ) (f : Node → Node)
      → ((n : Node) → (f n).content ≡ n.content)
      → ((n : Node) → (f n).kind ≡ n.kind)
      → J' (update a f H) k
      → Core J' d c (update a f H) k
  Core-change a f e g j =
      let kinds : (b : ℕ) → b < k → (update a f H b).kind ≡ (H b).kind =
        λ b _. update-kind a f H g b in
      record {
        started = m.started;
        caches = m.caches;
        solid = update-Solid a f H k k (omega arith) kinds m.solid (
            subst (All (Child (update a f H) k a)) (sym (e (H a))) (
              All-map (Child H k a) (Child (update a f H) k a) (H a).content
                (λ c. Child-to c (omega arith) kinds) (m.solid a)));
        extra = j;
      }
