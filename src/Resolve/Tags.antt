-- ===== src/Resolve/Tags.antt =====
-- Short and long tags with their caches, in internal/resolve/resolve.go.
use yaml.Common.{
  Option, none, some, List, [], ◌∷◌, ◌++◌, Bytes, bytes_eq, has_prefix, codes, length, drop,
  if◌then◌else◌,
}

abbrev pub null_tag : Bytes
null_tag = codes "!!null"

abbrev pub bool_tag : Bytes
bool_tag = codes "!!bool"

abbrev pub str_tag : Bytes
str_tag = codes "!!str"

abbrev pub int_tag : Bytes
int_tag = codes "!!int"

abbrev pub float_tag : Bytes
float_tag = codes "!!float"

abbrev pub timestamp_tag : Bytes
timestamp_tag = codes "!!timestamp"

abbrev pub binary_tag : Bytes
binary_tag = codes "!!binary"

abbrev pub merge_tag : Bytes
merge_tag = codes "!!merge"

abbrev pub seq_tag : Bytes
seq_tag = codes "!!seq"

abbrev pub map_tag : Bytes
map_tag = codes "!!map"

abbrev pub long_tag_prefix : Bytes
long_tag_prefix = codes "tag:yaml.org,2002:"

-- The maps `shortTags` and `longTags`, each key with its value.
abbrev pub Cache : Type 0
Cache = List (Bytes × Bytes)

unfoldable pub lookup : Bytes → Cache → Option Bytes
lookup key [] = none
lookup key ((k, v) ∷ cache) = if bytes_eq k key then some v else lookup key cache

-- ShortTag, with the cache behind it.
unfoldable pub short_tag : Bytes → Cache → Bytes × Cache
unfolding lookup
short_tag tag cache =
    if has_prefix tag long_tag_prefix
    then elim (lookup tag cache) [
      | some short ↦ (short, cache)
      | none ↦
          let short = codes "!!" ++ drop (length long_tag_prefix) tag in
          (short, (tag, short) ∷ cache)
    ]
    else (tag, cache)

-- LongTag, with the cache behind it.
unfoldable pub long_tag : Bytes → Cache → Bytes × Cache
unfolding lookup
long_tag tag cache =
    if has_prefix tag (codes "!!")
    then elim (lookup tag cache) [
      | some long ↦ (long, cache)
      | none ↦ let long = long_tag_prefix ++ drop 2 tag in (long, (tag, long) ∷ cache)
    ]
    else (tag, cache)
