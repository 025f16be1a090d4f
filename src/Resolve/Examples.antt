-- ===== src/Resolve/Examples.antt =====
-- Tags and scalars: witnesses of the theorems, and tests.
use yaml.Common.{
  ◌*◌, ◌<◌, ◌≤◌, pos, ◌≡◌, ◌⊎◌, refl, none, some, [], ◌∷◌, Bytes, codes, length, replicate,
}
use yaml.Resolve.Tags.{Cache, short_tag, long_tag, int_tag, float_tag}
use yaml.Resolve.Value.{Resolved, resolve, resolve_value, int_value, float_value}
use yaml.Resolve.Round.{
  short_of, Caches, short_tag-short_of, long_tag-short_tag, short_tag-long_tag,
}
use yaml.Resolve.Honest.{resolve-Honest}
use yaml.Resolve.Samples.{sample}
use yaml.Resolve.Base64.{encode_base64, Wrapped, encode_base64-Wrapped}

abbrev long_int : Bytes
long_int = codes "tag:yaml.org,2002:int"

abbrev filled : Cache
filled = (long_int, codes "!!int") ∷ []

short_tag-short_of_example :
    ((short_tag long_int filled).0 ≡ short_of long_int)
    × Caches short_of (short_tag long_int filled).1
short_tag-short_of_example = short_tag-short_of long_int filled (refl, tt)

long_tag-short_tag_example : (long_tag (short_tag long_int filled).0 []).0 ≡ long_int
long_tag-short_tag_example = long_tag-short_tag long_int filled [] (refl, tt) tt refl

short_tag-long_tag_example : (short_tag (long_tag int_tag []).0 filled).0 ≡ int_tag
short_tag-long_tag_example = short_tag-long_tag int_tag filled [] (refl, tt) tt refl

one_as_int : resolve_value sample [] (codes "1") ≡ some (int_tag, int_value (pos 1))
unfolding resolve_value
one_as_int = refl

one_as_float :
    resolve sample float_tag (codes "1") []
    ≡ some (record { tag = float_tag; out = float_value 1; error = none }, [])
unfolding resolve
one_as_float = refl

resolve-Honest_example :
    (r : Resolved sample) × (cache : Cache) × (resolve sample long_int (codes "1") filled
      ≡ some (r, cache))
    × Caches short_of cache
    × (((text : Bytes) × (r.error ≡ some text))
        ⊎ ((short_of long_int ≡ []) ⊎ (r.tag ≡ short_of long_int)))
resolve-Honest_example = resolve-Honest sample long_int (codes "1") filled (refl, tt)

abbrev doubled : Bytes → Bytes
doubled [] = []
doubled (c ∷ s) = c ∷ c ∷ doubled s

encode_base64-Wrapped_example :
    (out : Bytes) × (encode_base64 doubled (λ n. n * 2) (replicate 40 65) ≡ some out)
    × (((length (doubled (replicate 40 65)) < 70) × (out ≡ doubled (replicate 40 65)))
        ⊎ ((70 ≤ length (doubled (replicate 40 65))) × Wrapped (doubled (replicate 40 65)) out))
encode_base64-Wrapped_example = encode_base64-Wrapped doubled (λ n. n * 2) (replicate 40 65) refl
