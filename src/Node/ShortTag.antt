-- ===== src/Node/ShortTag.antt =====
-- What ShortTag returns for nodes of yaml.go.
use yaml.Common.{
  ℕ, suc, ◌≡◌, refl, subst, Bool, true, false, Option, none, some, [], ◌∷◌, Bytes, codes, is_empty,
  one_of, if◌then◌else◌,
}
use yaml.Run.{Outcome, ok, panic}
use yaml.Resolve.Tags.{Cache, str_tag, binary_tag}
use yaml.Resolve.Tags
use yaml.Resolve.Round.{bytes_eq_sound}
use yaml.Resolve.Value.{Platform, Tagged, Resolved, finish, resolve, resolvable_tag, resolve_value}
use yaml.Resolve.Base64.{encode_base64}
use yaml.Node.{Node, scalar_node, literal_style, has_style, quoted_styles}
use yaml.Node.Tag.{scalar_tag, tag_with, tag_of_kind, is_untagged, indicated_string, set_string}
use yaml.Node.Tag

empty_bytes : (s : Bytes) → is_empty s ≡ true → s ≡ []
empty_bytes [] e = refl
empty_bytes (c ∷ s) e = cc

untagged-Cases :
    (P : Bytes → Type 0) (tag : Bytes) → is_untagged tag ≡ true → P [] → P (codes "!") → P tag
untagged-Cases P [] e p q = p
untagged-Cases P (c ∷ tag) e p q = rw (bytes_eq_sound (c ∷ tag) (codes "!") e) q

abbrev styled : Bytes → Bytes → Node → Node
styled value tag n =
    let m : Node = record n { kind = scalar_node; value = value; tag = tag } in
    if one_of value b'\n' then record m { style = literal_style } else m

some-injective : {m n : Node} → some m ≡ some n → m ≡ n
some-injective e = cc

module _ {F T : Type 0} (go : Platform F T) where
  scalar_tag-panics : (value : Bytes) (cache : Cache) → scalar_tag go value cache ≡ panic
  unfolding scalar_tag resolve Tags.short_tag resolvable_tag finish
  scalar_tag-panics value cache = unresolved (resolve_value go [] value)
    where
      unresolved :
          (r : Option (Tagged go))
          → let end : Option (Resolved go × Cache) = elim r [
            | none ↦ none
            | some t ↦ some (finish go [] value t cache)
          ] in
            let out : Outcome Cache (Unit {0}) Bytes = elim end [
              | none ↦ panic
              | some r ↦ elim r.0.error [ none ↦ panic | some text ↦ ok r.0.tag r.1 ]
            ] in
            out ≡ panic
      unresolved none = refl
      unresolved (some r) = refl

  -- ShortTag panics on every scalar node that has no tag, or the tag `!`, and no style of a quoted or a
  -- block scalar, as the plain scalars are.
  pub short_tag-panics :
      (fuel : ℕ) (heap : ℕ → Node) (n : Node) (cache : Cache)
      → n.kind ≡ scalar_node
      → is_untagged n.tag ≡ true
      → has_style n.style quoted_styles ≡ false
      → Tag.short_tag go (suc fuel) heap n cache ≡ panic
  unfolding Tag.short_tag tag_with tag_of_kind indicated_string
  short_tag-panics fuel heap n cache k u s =
      untagged-Cases
        (λ t.
          tag_with go (λ a. Tag.short_tag go fuel heap (heap a)) (record n { tag = t }) cache
          ≡ panic)
        n.tag u (rw k (rw s (scalar_tag-panics n.value cache)))
        (rw k (rw s (scalar_tag-panics n.value cache)))

  set_tag :
      (short : ℕ → Tag.M Bytes) (n : Node) (b c : Bool) (value : Bytes) (cache : Cache)
      → let tag = if c then str_tag else binary_tag in
        let m : Node = record n { kind = scalar_node; value = value; tag = tag } in
        tag_with go short (if b then record m { style = literal_style } else m) cache ≡ ok tag cache
  unfolding tag_with indicated_string Tags.short_tag
  set_tag short n true true value cache = refl
  set_tag short n false true value cache = refl
  set_tag short n true false value cache = refl
  set_tag short n false false value cache = refl

  -- After SetString, ShortTag returns `!!str` for a valid string, and `!!binary` for any other; it does
  -- not panic.
  pub set_string-short_tag :
      (valid : Bytes → Bool) (encode : Bytes → Bytes) (encoded_len : ℕ → ℕ) (s : Bytes) (n : Node)
      {m : Node} (fuel : ℕ) (heap : ℕ → Node) (cache : Cache)
      → set_string valid encode encoded_len s n ≡ some m
      → Tag.short_tag go (suc fuel) heap m cache
        ≡ ok (if valid s then str_tag else binary_tag) cache
  unfolding set_string Tag.short_tag
  set_string-short_tag valid encode encoded_len s n {m} fuel heap cache e =
      chosen (valid s) (encode_base64 encode encoded_len s) e
    where
      chosen :
          (b : Bool) (r : Option Bytes)
          → (if b
              then some (styled s str_tag n)
              else elim r [ none ↦ none | some t ↦ some (styled t binary_tag n) ])
            ≡ some m
          → tag_with go (λ a. Tag.short_tag go fuel heap (heap a)) m cache
            ≡ ok (if b then str_tag else binary_tag) cache
      chosen true r e =
          subst
            (λ x. tag_with go (λ a. Tag.short_tag go fuel heap (heap a)) x cache ≡ ok str_tag cache)
            (some-injective e) (set_tag _ n (one_of s b'\n') true s cache)
      chosen false none e = cc
      chosen false (some t) e =
          subst
            (λ x.
              tag_with go (λ a. Tag.short_tag go fuel heap (heap a)) x cache ≡ ok binary_tag cache)
            (some-injective e) (set_tag _ n (one_of t b'\n') false t cache)
