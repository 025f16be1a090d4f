-- ===== src/Resolve/Round.antt =====
-- The caches of ShortTag and LongTag do not show, and the two undo each other.
use yaml.Common.{
  ◌≡◌, refl, ap, ◌∙◌, Bool, true, false, Option, none, some, [], ◌∷◌, ◌++◌, Bytes, bytes_eq,
  has_prefix, codes, length, drop, All, Bool-cases, inl, inr, if◌then◌else◌, arith,
}
use yaml.Resolve.Tags.{long_tag_prefix, Cache, lookup, short_tag, long_tag}

-- The tag behind the prefix, behind two exclamation marks; any other as it is.
abbrev pub short_of : Bytes → Bytes
short_of tag =
    if has_prefix tag long_tag_prefix then codes "!!" ++ drop (length long_tag_prefix) tag else tag

abbrev long_of : Bytes → Bytes
long_of tag = if has_prefix tag (codes "!!") then long_tag_prefix ++ drop 2 tag else tag

-- Every key has the value of the function.
abbrev pub Caches : (Bytes → Bytes) → Cache → Type 0
Caches f cache = All (λ (k, v). v ≡ f k) cache

pub bytes_eq_sound : (a b : Bytes) → bytes_eq a b ≡ true → a ≡ b
bytes_eq_sound [] [] e = refl
bytes_eq_sound [] (y ∷ b) e = cc
bytes_eq_sound (x ∷ a) [] e = cc
bytes_eq_sound (x ∷ a) (y ∷ b) e = ground (arith, bytes_eq_sound a b)

lookup-Caches :
    (f : Bytes → Bytes) (key : Bytes) (cache : Cache) {v : Bytes}
    → Caches f cache
    → lookup key cache ≡ some v
    → v ≡ f key
unfolding lookup
lookup-Caches f key [] c e = cc
lookup-Caches f key ((k, w) ∷ cache) {v} (r, c) e = elim (Bool-cases (bytes_eq k key)) [
  | inl h ↦
      let found : some w ≡ some v = rw⁻¹ e (rw h refl) in let same = bytes_eq_sound k key h in cc
  | inr h ↦ lookup-Caches f key cache c (rw⁻¹ e (rw h refl))
]

-- What is looked up, or else computed and stored.
module _ (f : Bytes → Bytes) (key v : Bytes) (cache : Cache) where
  memo : Bytes × Cache
  memo = elim (lookup key cache) [ some w ↦ (w, cache) | none ↦ (v, (key, v) ∷ cache) ]

  memo_lem : Caches f cache → v ≡ f key → (memo.0 ≡ f key) × Caches f memo.1
  unfolding memo
  memo_lem c e = go (lookup key cache) refl
    where
      go :
          (r : Option Bytes)
          → lookup key cache ≡ r
          → let m : Bytes × Cache = elim r [ some w ↦ (w, cache) | none ↦ (v, (key, v) ∷ cache) ] in
            (m.0 ≡ f key) × Caches f m.1
      go none h = (e, (e, c))
      go (some w) h = (lookup-Caches f key cache c h, c)

  -- The test before the cache.
  memo_if :
      (b : Bool)
      → (b ≡ true → v ≡ f key)
      → (b ≡ false → key ≡ f key)
      → Caches f cache
      → let m : Bytes × Cache = if b then memo else (key, cache) in (m.0 ≡ f key) × Caches f m.1
  memo_if true d e c = memo_lem c (d refl)
  memo_if false d e c = (e refl, c)

-- Over a cache in which every tag has its short form, ShortTag returns the short form of its argument:
-- `!!` and what follows the prefix `tag:yaml.org,2002:`, or else the tag itself; and the cache behind
-- it is such a cache again.
pub short_tag-short_of :
    (tag : Bytes) (cache : Cache)
    → Caches short_of cache
    → ((short_tag tag cache).0 ≡ short_of tag) × Caches short_of (short_tag tag cache).1
unfolding short_tag memo
short_tag-short_of tag cache c =
    memo_if short_of tag (codes "!!" ++ drop (length long_tag_prefix) tag) cache
      (has_prefix tag long_tag_prefix) (λ h. rw h refl) (λ h. rw h refl) c

long_tag-long_of :
    (tag : Bytes) (cache : Cache)
    → Caches long_of cache
    → ((long_tag tag cache).0 ≡ long_of tag) × Caches long_of (long_tag tag cache).1
unfolding long_tag memo
long_tag-long_of tag cache c =
    memo_if long_of tag (long_tag_prefix ++ drop 2 tag) cache (has_prefix tag (codes "!!"))
      (λ h. rw h refl) (λ h. rw h refl) c

prefix-drop : (p s : Bytes) → has_prefix s p ≡ true → p ++ drop (length p) s ≡ s
prefix-drop [] s e = refl
prefix-drop (x ∷ p) [] e = cc
prefix-drop (x ∷ p) (y ∷ s) e = ground (arith, prefix-drop p s)

-- The long tag of the short tag of a long tag, and the other way round.
long_of-short_of :
    (tag : Bytes) → has_prefix tag long_tag_prefix ≡ true → long_of (short_of tag) ≡ tag
long_of-short_of tag h = rw h (prefix-drop long_tag_prefix tag h)

short_of-long_of : (tag : Bytes) → has_prefix tag (codes "!!") ≡ true → short_of (long_of tag) ≡ tag
short_of-long_of tag h = rw h (prefix-drop (codes "!!") tag h)

-- Over true caches, LongTag gives back a tag with the prefix `tag:yaml.org,2002:` from what ShortTag
-- makes of it.
pub long_tag-short_tag :
    (tag : Bytes) (shorts longs : Cache)
    → Caches short_of shorts
    → Caches long_of longs
    → has_prefix tag long_tag_prefix ≡ true
    → (long_tag (short_tag tag shorts).0 longs).0 ≡ tag
long_tag-short_tag tag shorts longs c d h =
    (long_tag-long_of (short_tag tag shorts).0 longs d).0
    ∙ ap long_of (short_tag-short_of tag shorts c).0
    ∙ long_of-short_of tag h

-- Over true caches, ShortTag gives back a tag with the prefix `!!` from what LongTag makes of it.
pub short_tag-long_tag :
    (tag : Bytes) (shorts longs : Cache)
    → Caches short_of shorts
    → Caches long_of longs
    → has_prefix tag (codes "!!") ≡ true
    → (short_tag (long_tag tag longs).0 shorts).0 ≡ tag
short_tag-long_tag tag shorts longs c d h =
    (short_tag-short_of (long_tag tag longs).0 shorts c).0
    ∙ ap short_of (long_tag-long_of tag longs d).0
    ∙ short_of-long_of tag h
