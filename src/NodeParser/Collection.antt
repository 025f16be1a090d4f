-- ===== src/NodeParser/Collection.antt =====
-- Sequences, mappings and documents in the type parser of decode.go, and its method Parse.
use yaml.Common.{
  ℕ, zero, suc, ◌-◌, Bool, not, ◌&&◌, Option, none, some, [], ◌∷◌, ◌++◌, Bytes, length, is_empty,
  get_elem?, ltb, if◌then◌else◌,
}
use yaml.Event.{
  EventType, ◌is_type◌, stream_end, document_start, document_end, alias, scalar, sequence_start,
  sequence_end, mapping_start, mapping_end, tail_comment_event, flow_sequence_style,
  flow_mapping_style,
}
use yaml.Run.{ok, panic, exhausted, ◌>>=◌, ◌>>◌, pure, get, modify, when}
use yaml.Resolve.Value.{Platform}
use yaml.Resolve.Tags.{seq_tag, map_tag}
use yaml.Node.{document_node, sequence_node, mapping_node, flow_style, has_style}
use yaml.NodeParser.State.{M, peek, expect, init, change}
use yaml.NodeParser.Build.{node, start, parse_alias, parse_scalar}

-- parseChild, over Parse
unfoldable pub parse_child : M (Option ℕ) → ℕ → M (Option ℕ)
parse_child parse parent = do
  child ← parse
  change parent (λ x. record x { content = x.content ++ child ∷ [] })
  pure child

-- The comments of the end of a collection.
unfoldable pub end_comments : ℕ → M (Unit {0})
end_comments n p =
    change n
      (λ x. record x { line_comment = p.event.line_comment; foot_comment = p.event.foot_comment }) p

-- The loop over the items of a sequence. A round takes an event at least, so that the events bound
-- the rounds.
unfoldable pub parse_items : ℕ → M (Option ℕ) → ℕ → M (Unit {0})
unfolding peek parse_child
parse_items zero parse n p = exhausted
parse_items (suc fuel) parse n p =
    let rest : M (Unit {0}) = parse_items fuel parse n in
    (do
      type ← peek
      if type is_type sequence_end then pure tt else (do _ ← parse_child parse n; rest))
      p

-- The foot comment of a node; a nil pointer panics.
unfoldable pub foot_of : Option ℕ → M Bytes
foot_of none p = panic
foot_of (some a) p = ok (p.heap a).foot_comment p

unfoldable pub set_foot : Option ℕ → Bytes → M (Unit {0})
set_foot none foot p = panic
set_foot (some a) foot p = change a (λ x. record x { foot_comment = foot }) p

-- `n.Content[i]`
unfoldable pub entry : ℕ → ℕ → M (Option ℕ)
entry n i p = elim (get_elem? (p.heap n).content i) [ none ↦ panic | some a ↦ ok a p ]

-- The foot comment of a node moves to another.
unfoldable pub move_foot : Option ℕ → Option ℕ → M (Unit {0})
unfolding foot_of set_foot
move_foot from to = do foot ← foot_of from; set_foot to foot; set_foot from []

-- In a block the foot comment of a key belongs to the key before, if there is one.
unfoldable pub foot_to_prior : ℕ → Option ℕ → M (Unit {0})
unfolding foot_of entry move_foot
foot_to_prior n key = do
  foot ← foot_of key
  p ← get
  let size = length (p.heap n).content
  when (not (is_empty foot) && ltb 2 size) (do prior ← entry n (size - 3); move_foot key prior)

-- The foot comment of a value belongs to its key, unless the key has one.
unfoldable pub foot_to_key : Option ℕ → Option ℕ → M (Unit {0})
unfolding foot_of move_foot
foot_to_key key value = do
  foot ← foot_of key
  when (is_empty foot) (do below ← foot_of value; when (not (is_empty below)) (move_foot value key))

unfoldable pub tail_to_key : Option ℕ → M (Unit {0})
unfolding foot_of set_foot expect
tail_to_key key = do
  foot ← foot_of key
  p ← get
  when (is_empty foot) (set_foot key p.event.foot_comment)
  expect tail_comment_event

-- The loop over the pairs of a mapping, with the events as a bound of its rounds.
unfoldable pub parse_pairs : ℕ → M (Option ℕ) → Bool → ℕ → M (Unit {0})
unfolding peek parse_child foot_to_prior foot_to_key tail_to_key
parse_pairs zero parse block n p = exhausted
parse_pairs (suc fuel) parse block n p =
    let rest : M (Unit {0}) = parse_pairs fuel parse block n in
    (do
      type ← peek
      if type is_type mapping_end then pure tt else (do
        key ← parse_child parse n
        when block (foot_to_prior n key)
        value ← parse_child parse n
        foot_to_key key value
        after ← peek
        when (after is_type tail_comment_event) (tail_to_key key)
        rest))
      p

-- The foot comment of a block mapping belongs to its last key.
unfoldable pub foot_to_last : ℕ → M (Unit {0})
unfolding entry set_foot
foot_to_last n = do
  p ← get
  let x = p.heap n
  let size = length x.content
  when (not (has_style x.style flow_style) && not (is_empty x.foot_comment) && ltb 1 size) (do
    last ← entry n (size - 2)
    set_foot last x.foot_comment
    change n (λ x. record x { foot_comment = [] }))

abbrev pub pointer : M ℕ → M (Option ℕ)
pointer m = do n ← m; pure (some n)

-- document, behind the new node.
unfoldable pub document_content : M (Option ℕ) → ℕ → M ℕ
unfolding expect parse_child peek
document_content parse n = do
  modify (λ p. record p { doc = some n })
  expect document_start
  _ ← parse_child parse n
  type ← peek
  p ← get
  when (type is_type document_end)
      (change n (λ x. record x { foot_comment = p.event.foot_comment }))
  expect document_end
  pure n

module _ {F T : Type 0} (go : Platform F T) where
  -- sequence
  unfoldable pub parse_sequence : ℕ → M (Option ℕ) → M ℕ
  unfolding start parse_items end_comments expect
  parse_sequence fuel parse = do
    n ← start go sequence_node seq_tag flow_sequence_style sequence_start
    parse_items fuel parse n
    end_comments n
    expect sequence_end
    pure n

  -- mapping
  unfoldable pub parse_mapping : ℕ → M (Option ℕ) → M ℕ
  unfolding start parse_pairs end_comments foot_to_last expect
  parse_mapping fuel parse = do
    p ← get
    let block = not (has_style p.event.style flow_mapping_style)
    n ← start go mapping_node map_tag flow_mapping_style mapping_start
    parse_pairs fuel parse block n
    end_comments n
    foot_to_last n
    expect mapping_end
    pure n

  -- document
  unfoldable pub parse_document : M (Option ℕ) → M ℕ
  unfolding node document_content
  parse_document parse = do n ← node go document_node [] [] []; document_content parse n

  -- The cases of Parse.
  unfoldable pub parse_event : ℕ → M (Option ℕ) → EventType → M (Option ℕ)
  unfolding parse_scalar parse_alias parse_mapping parse_sequence parse_document
  parse_event fuel parse scalar = pointer (parse_scalar go)
  parse_event fuel parse alias = pointer (parse_alias go)
  parse_event fuel parse mapping_start = pointer (parse_mapping fuel parse)
  parse_event fuel parse sequence_start = pointer (parse_sequence fuel parse)
  parse_event fuel parse document_start = pointer (parse_document parse)
  parse_event fuel parse stream_end = pure none
  parse_event fuel parse _ = λ p. panic

  -- Parse. The fuel bounds how deep the calls nest and the rounds of each loop.
  unfoldable pub parse : ℕ → M (Option ℕ)
  unfolding init peek parse_event
  parse zero p = exhausted
  parse (suc fuel) p =
      let again : M (Option ℕ) = parse fuel in (do init; type ← peek; parse_event fuel again type) p
