-- ===== src/Node/Tag.antt =====
-- The methods of a node of yaml.go about its tag: ShortTag, LongTag, indicatedString and SetString.
use yaml.Common.{
  ℕ, zero, suc, Bool, false, ◌&&◌, ◌||◌, Option, none, some, [], Bytes, bytes_eq, codes, is_empty,
  one_of, if◌then◌else◌,
}
use yaml.Run.{Outcome, ok, panic, exhausted, ◌>>=◌, pure}
use yaml.Resolve.Tags.{seq_tag, map_tag, Cache, str_tag, null_tag, binary_tag}
use yaml.Resolve.Tags
use yaml.Resolve.Value.{Platform, resolve}
use yaml.Resolve.Base64.{encode_base64}
use yaml.Node.{
  Node, Kind, zero_kind, sequence_node, mapping_node, scalar_node, alias_node, document_node,
  ◌is_kind◌, has_style, quoted_styles, literal_style, is_zero,
}

-- The state is the cache of resolve.ShortTag; no method returns an error.
abbrev pub M : Type 0 → Type 0
M A = Cache → Outcome Cache (Unit {0}) A

-- resolve.ShortTag
abbrev resolved_short : Bytes → M Bytes
resolved_short tag cache = let (short, cache') = Tags.short_tag tag cache in ok short cache'

-- `n.Tag == "" || n.Tag == "!"`
abbrev pub is_untagged : Bytes → Bool
is_untagged tag = is_empty tag || bytes_eq tag (codes "!")

-- indicatedString
unfoldable pub indicated_string : Node → M Bool
unfolding Tags.short_tag
indicated_string n =
    if n.kind is_kind scalar_node
    then (do
      short ← resolved_short n.tag
      pure (bytes_eq short str_tag || is_untagged n.tag && has_style n.style quoted_styles))
    else pure false

module _ {F T : Type 0} (go : Platform F T) where
  -- The branch of a scalar: `panic(err)` stands under `err == nil`.
  unfoldable pub scalar_tag : Bytes → M Bytes
  unfolding resolve
  scalar_tag value cache = elim (resolve go [] value cache) [
    | none ↦ panic
    | some r ↦ elim r.0.error [ none ↦ panic | some text ↦ ok r.0.tag r.1 ]
  ]

  -- The branches of a node without a tag, over the short tag of the target of an alias.
  unfoldable pub tag_of_kind : (ℕ → M Bytes) → Node → Kind → M Bytes
  unfolding scalar_tag is_zero
  tag_of_kind short n mapping_node = pure map_tag
  tag_of_kind short n sequence_node = pure seq_tag
  tag_of_kind short n alias_node = elim n.alias [ none ↦ pure [] | some a ↦ short a ]
  tag_of_kind short n scalar_node = scalar_tag n.value
  tag_of_kind short n zero_kind = if is_zero n then pure null_tag else pure []
  tag_of_kind short n document_node = pure []

  -- ShortTag of a node, over the short tag of the target of an alias.
  unfoldable pub tag_with : (ℕ → M Bytes) → Node → M Bytes
  unfolding indicated_string tag_of_kind Tags.short_tag
  tag_with short n = do
    indicated ← indicated_string n
    if indicated
        then pure str_tag
        else if is_untagged n.tag
        then tag_of_kind short n n.kind
        else resolved_short n.tag

  -- ShortTag. The fuel bounds the aliases that point to aliases.
  unfoldable pub short_tag : ℕ → (ℕ → Node) → Node → M Bytes
  unfolding tag_with
  short_tag zero heap n cache = exhausted
  short_tag (suc fuel) heap n cache =
      let again : Node → M Bytes = short_tag fuel heap in tag_with (λ a. again (heap a)) n cache

  -- LongTag, with the cache of resolve.LongTag behind it.
  unfoldable pub long_tag : ℕ → (ℕ → Node) → Node → Cache → M (Bytes × Cache)
  unfolding short_tag Tags.long_tag
  long_tag fuel heap n longs = do short ← short_tag fuel heap n; pure (Tags.long_tag short longs)

-- SetString, with utf8.ValidString and the base64 encoding of Go's library. The result is missing where
-- the encoder panics.
unfoldable pub set_string : (Bytes → Bool) → (Bytes → Bytes) → (ℕ → ℕ) → Bytes → Node → Option Node
unfolding encode_base64
set_string valid encode encoded_len s n =
    let styled : Node → Node =
      λ m. if one_of m.value b'\n' then record m { style = literal_style } else m in
    if valid s
    then some (styled (record n { kind = scalar_node; value = s; tag = str_tag }))
    else elim (encode_base64 encode encoded_len s) [
      | none ↦ none
      | some t ↦ some (styled (record n { kind = scalar_node; value = t; tag = binary_tag }))
    ]
