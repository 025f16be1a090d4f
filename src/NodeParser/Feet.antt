-- ===== src/NodeParser/Feet.antt =====
-- The foot comments that the parser of decode.go moves between nodes.
use yaml.Common.{
  ℕ, zero, suc, ◌-◌, ◌<◌, ◌≡◌, refl, not, ◌&&◌, Option, none, some, List, [], ◌∷◌, Bytes, is_empty,
  length, get_elem?, ltb, All, arith,
}
use yaml.Event.{Event, EventType}
use yaml.Run.{◌>>=◌, ◌>>◌, when, Ends, returns, Ends-bind, Ends-when}
use yaml.Node.{Node, Kind, has_style, flow_style}
use yaml.NodeParser.State.{Heap, NodeParser, update, change}
use yaml.NodeParser.Collection.{
  entry, foot_of, set_foot, move_foot, foot_to_prior, foot_to_key, foot_to_last,
}
use yaml.NodeParser.Shape.{Child, IsSome, Building}
use yaml.NodeParser.Leaf.{shape-Mid}
use yaml.NodeParser.Made.{Mid}

abbrev with_foot : Bytes → Node → Node
with_foot foot n = record n { foot_comment = foot }

-- An element in range.
get_elem?-IsSome :
    (H : Heap) (k a : ℕ) (xs : List (Option ℕ)) (i : ℕ)
    → All (Child H k a) xs
    → i < length xs
    → (c : Option ℕ) × (get_elem? xs i ≡ some c) × IsSome c
get_elem?-IsSome H k n [] i a h = absurd (omega (arith, h))
get_elem?-IsSome H k n (x ∷ xs) zero (s, a) h = (x, refl, (s.address, s.is_there))
get_elem?-IsSome H k n (x ∷ xs) (suc i) (s, a) h = get_elem?-IsSome H k n xs i a (omega (arith, h))

module _ (P : EventType → List Event → Type 0) {K : Kind} {L : ℕ → Type 0} {H : Heap} {k : ℕ} where
  footed :
      (a : ℕ) (foot : Bytes) (p : NodeParser)
      → Mid P (Building K L H k) p
      → Mid P (Building K L H k) (record p { heap = update a (with_foot foot) p.heap })
  footed a foot p i = shape-Mid P a (with_foot foot) p i (λ n. refl)

  entry-Ends :
      (n i : ℕ) (p : NodeParser)
      → Mid P (Building K L H k) p
      → i < length (p.heap n).content
      → Ends (λ c q. IsSome c × Mid P (Building K L H k) q) (entry n i p)
  unfolding entry
  entry-Ends n i p (l, x) h =
      let (c, e, s) = get_elem?-IsSome p.heap p.next n (p.heap n).content i (x.solid n) h in
      rw (e, entry) (returns (s, (l, x)))

  move_foot-Ends :
      (from to : Option ℕ) (p : NodeParser)
      → IsSome from
      → IsSome to
      → Mid P (Building K L H k) p
      → Ends (λ _. Mid P (Building K L H k)) (move_foot from to p)
  unfolding move_foot
  move_foot-Ends (some a) (some b) p s t i =
      let q = record p { heap = update b (with_foot (p.heap a).foot_comment) p.heap } in
      returns (footed a [] q (footed b (p.heap a).foot_comment p i))
  move_foot-Ends none to p (a, e) t i = cc
  move_foot-Ends (some a) none p s (b, e) i = cc

  pub foot_to_prior-Ends :
      (n : ℕ) (key : Option ℕ) (p : NodeParser)
      → IsSome key
      → Mid P (Building K L H k) p
      → Ends (λ _. Mid P (Building K L H k)) (foot_to_prior n key p)
  unfolding foot_to_prior
  foot_to_prior-Ends n none p (a, e) i = cc
  foot_to_prior-Ends n (some a) p s i =
      let size = length (p.heap n).content in
      Ends-when (not (is_empty (p.heap a).foot_comment) && ltb 2 size)
        (entry n (size - 3) >>= λ prior. move_foot (some a) prior) p
        (λ e.
          Ends-bind (entry n (size - 3)) _ p (entry-Ends n _ p i (ground (arith, e)))
            (λ prior q (t, j). move_foot-Ends (some a) prior q s t j))
        (λ _. i)

  pub foot_to_key-Ends :
      (key value : Option ℕ) (p : NodeParser)
      → IsSome key
      → IsSome value
      → Mid P (Building K L H k) p
      → Ends (λ _. Mid P (Building K L H k)) (foot_to_key key value p)
  unfolding foot_to_key
  foot_to_key-Ends none value p (a, e) t i = cc
  foot_to_key-Ends (some a) none p s (b, e) i = cc
  foot_to_key-Ends (some a) (some b) p s t i =
      Ends-when (is_empty (p.heap a).foot_comment)
        (foot_of (some b) >>= λ below. when (not (is_empty below)) (move_foot (some b) (some a))) p
        (λ _.
          Ends-when (not (is_empty (p.heap b).foot_comment)) (move_foot (some b) (some a)) p
            (λ _. move_foot-Ends (some b) (some a) p t s i) (λ _. i))
        (λ _. i)

  set_foot-Ends :
      (key : Option ℕ) (foot : Bytes) (p : NodeParser)
      → IsSome key
      → Mid P (Building K L H k) p
      → Ends (λ _. Mid P (Building K L H k)) (set_foot key foot p)
  unfolding set_foot
  set_foot-Ends none foot p (a, e) i = cc
  set_foot-Ends (some a) foot p s i = returns (footed a foot p i)

  pub foot_to_last-Ends :
      (n : ℕ) (p : NodeParser)
      → Mid P (Building K L H k) p
      → Ends (λ _. Mid P (Building K L H k)) (foot_to_last n p)
  unfolding foot_to_last
  foot_to_last-Ends n p i =
      let x = p.heap n in
      let size = length x.content in
      Ends-when (not (has_style x.style flow_style) && not (is_empty x.foot_comment) && ltb 1 size)
        (entry n (size - 2) >>= λ last. set_foot last x.foot_comment >> change n (with_foot [])) p
        (λ e.
          Ends-bind (entry n (size - 2)) _ p (entry-Ends n _ p i (ground (arith, e)))
            (λ last q (t, j).
              Ends-bind (set_foot last (p.heap n).foot_comment) _ q (set_foot-Ends last _ q t j)
                (λ _ r j'. returns (footed n [] r j'))))
        (λ _. i)
