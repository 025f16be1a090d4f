-- ===== src/Encoder/Collections.antt =====
-- What the Encoder of encode.go emits for sequences, mappings and whole trees of nodes.
use yaml.Common.{
  ℕ, ◌≡◌, refl, ap, sym, ◌∙◌, subst, Bool, Option, none, some, List, [], ◌∷◌, ◌++◌, append_assoc,
  Bytes, All,
}
use yaml.Event.{Event, EventType}
use yaml.Run.{Ends, returns, Ends-bind}
use yaml.Node.{Node}
use yaml.Parser.Phrase.{Phrase}
use yaml.Parser.Grammar.{node, items, pairs}
use yaml.Encoder.State.{Encoder, M}
use yaml.Encoder.Node.{encode_each, encode_pairs}
use yaml.Encoder.Trees.{recorder, Has, NodeBehind}

abbrev pub Events : Type 1
Events = List EventType → Type 0

abbrev pub EncodeNode : Type 0
EncodeNode = Node → Bytes → M (List Event) (Unit {0}) (Unit {0})

-- What an encoder of nodes does with those that meet a condition.
abbrev pub Emits : (Node → Type 0) → EncodeNode → List Event → Bool → Type 1
Emits Q encode log b =
    (L L' : Events) (n : Node) (tail : Bytes) (e : Encoder (List Event))
    → Q n
    → NodeBehind L L'
    → Has L log b e
    → Ends (λ _. Has L' log b) (encode n tail e)

abbrev pub Held : (ℕ → Node) → (Node → Type 0) → Option ℕ → Type 0
Held heap Q c = (a : ℕ) × (c ≡ some a) × Q (heap a)

module _ {Q : Node → Type 0} {encode : EncodeNode} {log : List Event} {b : Bool}
    (C : Emits Q encode log b) (takes : List Event → Event → Bool) (heap : ℕ → Node) where
  pub encode_each-Has :
      {L : Events} (content : List (Option ℕ)) (e : Encoder (List Event))
      → All (Held heap Q) content
      → NodeBehind L L
      → Has L log b e
      → Ends (λ _. Has L log b) (encode_each (recorder takes) heap encode content e)
  unfolding encode_each
  encode_each-Has [] e a f h = returns h
  encode_each-Has (none ∷ content) e ((n, s, q), a) f h = cc
  encode_each-Has {L} (some n ∷ content) e ((m, s, q), a) f h =
      Ends-bind (encode (heap n) []) _ e
        (C L L (heap n) [] e (subst (λ x. Q (heap x)) (sym (same s)) q) f h)
        (λ _ e' h'. encode_each-Has content e' a f h')
    where
      same : {m n : ℕ} → some n ≡ some m → n ≡ m
      same e = cc

  -- Nodes, and pairs of nodes.
  pub encode_pairs-Has :
      {L L' : Events} (content : List (Option ℕ)) (tail : Bytes) (e : Encoder (List Event))
      → ((n : Node) → Q n → Q (record n { foot_comment = [] }))
      → All (Held heap Q) content
      → NodeBehind L L'
      → NodeBehind L' L
      → Has L log b e
      → Ends (λ _. Has L log b) (encode_pairs (recorder takes) heap encode content tail e)
  unfolding encode_pairs
  encode_pairs-Has [] tail e c a f g h = returns h
  encode_pairs-Has (some k ∷ []) tail e c a f g h = returns h
  encode_pairs-Has (none ∷ content) tail e c ((n, s, q), a) f g h = cc
  encode_pairs-Has (some k ∷ none ∷ content) tail e c (i, ((n, s, q), a)) f g h = cc
  encode_pairs-Has {L} {L'} (some k ∷ some v ∷ content) tail e c ((k', s, p), ((v', t, q), a)) f g
        h =
      Ends-bind (encode (record (heap k) { foot_comment = [] }) tail) _ e
        (C L L' _ tail e (c _ (subst (λ x. Q (heap x)) (sym (same s)) p)) f h)
        (λ _ e' h'.
          Ends-bind (encode (heap v) []) _ e'
            (C L' L (heap v) [] e' (subst (λ x. Q (heap x)) (sym (same t)) q) g h')
            (λ _ e'' h''. encode_pairs-Has content (heap k).foot_comment e'' c a f g h''))
    where
      same : {m n : ℕ} → some n ≡ some m → n ≡ m
      same e = cc

-- Behind events with the property: the start of a collection, and nodes that go on with the goal.
pub record Begun (L : Events) (t : EventType) (X : Events) (ts : List EventType) : Type 0 where
  pub before : List EventType
  pub inside : List EventType
  pub holds : L before
  pub going : X inside
  pub together : ts ≡ before ++ (t ∷ inside)

pub Begun-start :
    {L X : Events} (t : EventType)
    → X []
    → (ts : List EventType) → L ts
    → Begun L t X (ts ++ t ∷ [])
Begun-start t x ts l = record { before = ts; inside = []; holds = l; going = x; together = refl }

pub Begun-node :
    {L X X' : Events} {t : EventType} → NodeBehind X X' → NodeBehind (Begun L t X) (Begun L t X')
Begun-node {t} f ts us r n = record {
  before = r.before;
  inside = r.inside ++ us;
  holds = r.holds;
  going = f _ _ r.going n;
  together = ap (λ ts. ts ++ us) r.together ∙ append_assoc r.before (t ∷ r.inside) us;
}

-- The end of the collection makes a node.
pub Begun-end :
    {L X : Events} (L' : Events) {t end : EventType}
    → ((bs : List EventType) → X bs → Phrase node (t ∷ (bs ++ end ∷ [])))
    → NodeBehind L L'
    → (ts : List EventType) → Begun L t X ts
    → L' (ts ++ end ∷ [])
Begun-end L' {t} {end} p f ts r =
    subst L'
      (sym (ap (λ ts. ts ++ end ∷ []) r.together ∙ append_assoc r.before (t ∷ r.inside) (end ∷ [])))
      (f _ _ r.holds (p r.inside r.going))

-- Nodes in front of the items, and of the pairs.
abbrev pub ItemsBefore : Events
ItemsBefore ts = (us : List EventType) → Phrase items us → Phrase items (ts ++ us)

abbrev pub PairsBefore : Events
PairsBefore ts = (us : List EventType) → Phrase pairs us → Phrase pairs (ts ++ us)

abbrev pub KeyBefore : Events
KeyBefore ts =
    (us vs : List EventType) → Phrase node us → Phrase pairs vs → Phrase pairs (ts ++ (us ++ vs))

pub item_more : NodeBehind ItemsBefore ItemsBefore
item_more ts us h n vs i =
    subst (Phrase items) (sym (append_assoc ts us vs)) (h _ (Phrase.item n i))

pub key_more : NodeBehind PairsBefore KeyBefore
key_more ts us h n vs ws m p =
    subst (Phrase pairs) (sym (append_assoc ts us (vs ++ ws))) (h _ (Phrase.pair n m p))

pub value_more : NodeBehind KeyBefore PairsBefore
value_more ts us h n vs p = subst (Phrase pairs) (sym (append_assoc ts us vs)) (h us vs n p)
