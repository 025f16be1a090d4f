-- ===== src/NodeParser/Build.antt =====
-- The methods of the type parser of decode.go that build nodes.
use yaml.Common.{
  ℕ, ◌+◌, Bool, not, ◌&&◌, Option, none, some, [], Bytes, bytes_eq, codes, is_empty, bit_or, ◌==◌,
  if◌then◌else◌,
}
use yaml.Event.{
  Event, EventType, alias, scalar, double_quoted_scalar_style, single_quoted_scalar_style,
  literal_scalar_style, folded_scalar_style,
}
use yaml.Run.{ok, err, panic, ◌>>=◌, ◌>>◌, pure, get, fail, when}
use yaml.Resolve.Tags.{short_tag, str_tag, merge_tag}
use yaml.Resolve.Value.{Platform, resolve}
use yaml.Node.{
  Node, Kind, new_node, ◌is_kind◌, scalar_node, alias_node, tagged_style, double_quoted_style,
  single_quoted_style, literal_style, folded_style, flow_style, has_style,
}
use yaml.NodeParser.State.{
  resolving, unknown_anchor, M, expect, allocate, change, find_anchor, anchor,
}

-- The explicit tag in its short form, unless it is empty or `!`.
unfoldable pub explicit_tag : Bytes → M (Option Bytes)
unfolding short_tag
explicit_tag tag p =
    let (short, shorts) = short_tag tag p.shorts in
    if not (is_empty tag) && not (bytes_eq tag (codes "!"))
    then ok (some short) (record p { shorts = shorts })
    else ok none p

-- The position and the comments of a node, but in a textless parser.
abbrev pub with_text : Bool → Event → Node → Node
with_text textless event n = if textless then n else record n {
  line = event.start_mark.line + 1;
  column = event.start_mark.column + 1;
  head_comment = event.head_comment;
  line_comment = event.line_comment;
  foot_comment = event.foot_comment;
}

-- The style of a node for the style of a scalar.
unfoldable pub node_style : ℕ → ℕ
node_style style =
    if has_style style double_quoted_scalar_style
    then double_quoted_style
    else if has_style style single_quoted_scalar_style
    then single_quoted_style
    else if has_style style literal_scalar_style
    then literal_style
    else if has_style style folded_scalar_style
    then folded_style
    else 0

abbrev pub add_style : ℕ → Node → Node
add_style style n = record n { style = bit_or n.style style }

module _ {F T : Type 0} (go : Platform F T) where
  -- `resolve.Resolve("", value)`, as far as the tag.
  unfoldable pub resolved_tag : Bytes → M Bytes
  unfolding resolve
  resolved_tag value p = elim (resolve go [] value p.shorts) [
    | none ↦ panic
    | some r ↦ elim r.0.error [
      | none ↦ ok r.0.tag (record p { shorts = r.1 })
      | some text ↦ err (resolving text) (record p { shorts = r.1 })
    ]
  ]

  -- The tag and the style of a node.
  unfoldable pub tag_of : Kind → Bytes → Bytes → Bytes → M (Bytes × ℕ)
  unfolding explicit_tag resolved_tag
  tag_of kind default_tag tag value = do
    explicit ← explicit_tag tag
    elim explicit [
      | some short ↦ pure (short, tagged_style)
      | none ↦
          if not (is_empty default_tag)
          then pure (default_tag, 0)
          else if kind is_kind scalar_node
          then (do resolved ← resolved_tag value; pure (resolved, 0))
          else pure (tag, 0)
    ]

  -- node
  unfoldable pub node : Kind → Bytes → Bytes → Bytes → M ℕ
  unfolding tag_of allocate
  node kind default_tag tag value = do
    (t, style) ← tag_of kind default_tag tag value
    p ← get
    allocate (
        with_text p.textless p.event
          (record new_node { kind = kind; tag = t; value = value; style = style }))

  -- alias
  unfoldable pub parse_alias : M ℕ
  unfolding node find_anchor expect
  parse_alias = do
    p ← get
    n ← node alias_node [] [] p.event.anchor
    q ← get
    elim (find_anchor (q.heap n).value q.anchors) [
      | none ↦ fail (unknown_anchor (q.heap n).value)
      | some target ↦ do change n (λ x. record x { alias = some target }); expect alias; pure n
    ]

  -- scalar
  unfoldable pub parse_scalar : M ℕ
  unfolding node node_style anchor expect
  parse_scalar = do
    p ← get
    let style = node_style p.event.style
    let plain_default = if bytes_eq p.event.value (codes "<<") then merge_tag else []
    n ← node scalar_node (if style == 0 then plain_default else str_tag) p.event.tag p.event.value
    change n (add_style style)
    q ← get
    anchor n q.event.anchor
    expect scalar
    pure n

  -- The start of a sequence or a mapping.
  unfoldable pub start : Kind → Bytes → ℕ → EventType → M ℕ
  unfolding node anchor expect
  start kind default_tag flow type = do
    p ← get
    n ← node kind default_tag p.event.tag []
    q ← get
    when (has_style q.event.style flow) (change n (add_style flow_style))
    anchor n q.event.anchor
    expect type
    pure n
