-- ===== src/Resolve/Value.antt =====
-- Resolve of internal/resolve/resolve.go: the tag and the value of a scalar.
use yaml.Common.{
  ℕ, suc, ℤ, pos, negsuc, Bool, true, false, not, ◌&&◌, ◌||◌, Option, none, some, List, [], ◌∷◌,
  ◌++◌, Bytes, bytes_eq, has_prefix, one_of, codes, drop, get_elem?, is_empty, leb, ◌==◌,
  if◌then◌else◌,
}
use yaml.Resolve.Tags.{
  null_tag, bool_tag, str_tag, int_tag, float_tag, timestamp_tag, binary_tag, merge_tag, Cache,
  short_tag,
}

-- What Resolve returns as a value; `F` stands for float64, and `T` for time.Time.
pub data Value (F T : Type 0) : Type 0 where
  nil : Value F T
  bool_value : Bool → Value F T
  int_value : ℤ → Value F T
  int64_value : ℤ → Value F T
  uint64_value : ℕ → Value F T
  float_value : F → Value F T
  time_value : T → Value F T
  string_value : Bytes → Value F T

-- What Resolve uses of Go and its library: the conversion to int and to float64, the special floats,
-- ParseFloat, ParseInt and ParseUint with a base (`none` for an error), whether yamlStyleFloat
-- matches, and time.Parse with a layout.
pub record Platform (F T : Type 0) : Type 0 where
  pub to_int : ℤ → ℤ
  pub to_float : ℤ → F
  pub nan : F
  pub inf : F
  pub negative_inf : F
  pub parse_float : Bytes → Option F
  pub parse_int : Bytes → ℕ → Option ℤ
  pub parse_uint : Bytes → ℕ → Option ℕ
  pub matches_float : Bytes → Bool
  pub parse_time : Bytes → Bytes → Option T

abbrev same_int : ℤ → ℤ → Bool
same_int (pos m) (pos n) = m == n
same_int (negsuc m) (negsuc n) = m == n
same_int _ _ = false

-- Whether the bytes are one of those listed, as in a `case` of several values.
abbrev is_one_of : List Bytes → Bytes → Bool
is_one_of [] b = false
is_one_of (x ∷ xs) b = bytes_eq x b || is_one_of xs b

-- resolveTable: what the first byte hints at, 0 if at nothing.
unfoldable pub resolve_table : ℕ → ℕ
resolve_table c =
    if one_of (codes "+-") c
    then b'S'
    else if one_of (codes "0123456789") c
    then b'D'
    else if one_of (codes "yYnNtTfFoO~") c
    then b'M'
    else if c == b'.'
    then b'.'
    else 0

-- The hint at what a scalar might be.
unfoldable pub hint_of : Bytes → ℕ
unfolding resolve_table
hint_of [] = b'N'
hint_of (c ∷ s) = resolve_table c

unfoldable pub resolvable_tag : Bytes → Bool
resolvable_tag tag =
    is_one_of ([] ∷ str_tag ∷ bool_tag ∷ int_tag ∷ float_tag ∷ null_tag ∷ timestamp_tag ∷ []) tag

-- The first that is there.
infixr 4 ◌or_else◌
abbrev ◌or_else◌ : {A : Type 0} → Option A → Option A → Option A
none or_else b = b
(some a) or_else b = some a

abbrev from_option : {A : Type 0} → A → Option A → A
from_option a none = a
from_option a (some b) = b

-- `strings.ReplaceAll(in, "_", "")`
unfoldable without_underscores : Bytes → Bytes
without_underscores [] = []
without_underscores (c ∷ s) =
    let rest = without_underscores s in if c == b'_' then rest else c ∷ rest

unfoldable leading_digits : Bytes → ℕ
leading_digits [] = 0
leading_digits (c ∷ s) =
    let rest = leading_digits s in if leb b'0' c && leb c b'9' then suc rest else 0

abbrev timestamp_formats : List Bytes
timestamp_formats =
    codes "2006-1-2T15:4:5.999999999Z07:00"
    ∷ codes "2006-1-2t15:4:5.999999999Z07:00"
    ∷ codes "2006-1-2 15:4:5.999999999"
    ∷ codes "2006-1-2"
    ∷ []

module _ {F T : Type 0} (go : Platform F T) where
  -- A tag and a value.
  abbrev pub Tagged : Type 0
  Tagged = Bytes × Value F T

  unfoldable first_format : List Bytes → Bytes → Option T
  first_format [] s = none
  first_format (f ∷ fs) s = go.parse_time f s or_else first_format fs s

  -- parseTimestamp
  unfoldable parse_timestamp : Bytes → Option T
  unfolding leading_digits first_format
  parse_timestamp s = if not (leading_digits s == 4) then none else elim (get_elem? s 4) [
    | none ↦ none
    | some c ↦ if c == b'-' then first_format timestamp_formats s else none
  ]

  -- resolveMap
  unfoldable pub resolve_map : Bytes → Option Tagged
  resolve_map s =
      if is_one_of (codes "true" ∷ codes "True" ∷ codes "TRUE" ∷ []) s
      then some (bool_tag, bool_value true)
      else if is_one_of (codes "false" ∷ codes "False" ∷ codes "FALSE" ∷ []) s
      then some (bool_tag, bool_value false)
      else if is_one_of ([] ∷ codes "~" ∷ codes "null" ∷ codes "Null" ∷ codes "NULL" ∷ []) s
      then some (null_tag, nil)
      else if is_one_of (codes ".nan" ∷ codes ".NaN" ∷ codes ".NAN" ∷ []) s
      then some (float_tag, float_value go.nan)
      else if is_one_of (codes ".inf" ∷ codes ".Inf" ∷ codes ".INF" ∷ []) s
      then some (float_tag, float_value go.inf)
      else if is_one_of (codes "+.inf" ∷ codes "+.Inf" ∷ codes "+.INF" ∷ []) s
      then some (float_tag, float_value go.inf)
      else if is_one_of (codes "-.inf" ∷ codes "-.Inf" ∷ codes "-.INF" ∷ []) s
      then some (float_tag, float_value go.negative_inf)
      else if is_one_of (codes "<<" ∷ []) s
      then some (merge_tag, string_value (codes "<<"))
      else none

  -- An int64, as an int if it is one.
  unfoldable sized : ℤ → Value F T
  sized z = if same_int z (go.to_int z) then int_value (go.to_int z) else int64_value z

  unfoldable int_or_uint : Bytes → ℕ → Option Tagged
  unfolding sized
  int_or_uint s base =
      elim (go.parse_int s base) [ none ↦ none | some z ↦ some (int_tag, sized z) ]
      or_else elim (go.parse_uint s base) [ none ↦ none | some n ↦ some (int_tag, uint64_value n) ]

  unfoldable float_number : Bytes → Option Tagged
  float_number s = elim (go.parse_float s) [
    | none ↦ none
    | some f ↦ some (float_tag, float_value f)
  ]

  -- A number behind a prefix such as `0b`, which may have a minus sign before it.
  unfoldable based : Bytes → ℕ → Bytes → Option Tagged
  unfolding int_or_uint
  based prefix base plain =
      if has_prefix plain prefix
      then int_or_uint (drop 2 plain) base
      else if has_prefix plain (b'-' ∷ prefix)
      then elim (go.parse_int (b'-' ∷ drop 3 plain) base) [
        | none ↦ none
        | some z ↦ some (int_tag, int_value (go.to_int z))
      ]
      else none

  unfoldable pub timestamp : Bytes → Bytes → Option Tagged
  unfolding parse_timestamp
  timestamp tag s =
      if is_empty tag || bytes_eq tag timestamp_tag
      then elim (parse_timestamp s) [ none ↦ none | some t ↦ some (timestamp_tag, time_value t) ]
      else none

  -- An int, a float, a timestamp, or a string.
  unfoldable resolve_number : Bytes → Bytes → Tagged
  unfolding timestamp int_or_uint float_number based without_underscores
  resolve_number tag s =
      let plain = without_underscores s in
      from_option (str_tag, string_value s)
        (timestamp tag s
          or_else int_or_uint plain 0
          or_else (if go.matches_float plain then float_number plain else none)
          or_else based (codes "0b") 2 plain
          or_else based (codes "0o") 8 plain)

  -- The cases of the hint; `none` is the panic of the last.
  unfoldable pub resolve_hint : ℕ → Bytes → Bytes → Option Tagged
  unfolding float_number resolve_number
  resolve_hint hint tag s =
      if hint == b'M'
      then some (str_tag, string_value s)
      else if hint == b'.'
      then some (from_option (str_tag, string_value s) (float_number s))
      else if hint == b'D' || hint == b'S'
      then some (resolve_number tag s)
      else none

  -- Resolve behind the test of the tag, up to the deferred function.
  unfoldable pub resolve_value : Bytes → Bytes → Option Tagged
  unfolding hint_of resolve_map resolve_hint
  resolve_value tag s =
      if not (hint_of s == 0) && not (bytes_eq tag str_tag) && not (bytes_eq tag binary_tag)
      then elim (resolve_map s) [ none ↦ resolve_hint (hint_of s) tag s | some r ↦ some r ]
      else some (str_tag, string_value s)

  -- The results of Resolve: the tag, the value, and an error.
  pub record Resolved : Type 0 where
    pub tag : Bytes
    pub out : Value F T
    pub error : Option Bytes

  -- The text of the error of the deferred function.
  unfoldable pub cannot_decode : Bytes → Bytes → Bytes → Cache → Bytes × Cache
  unfolding short_tag
  cannot_decode tag rtag s cache =
      let (r, cache₁) = short_tag rtag cache in
      let (t, cache₂) = short_tag tag cache₁ in
      (codes "yaml: cannot decode " ++ r ++ codes " `" ++ s ++ codes "` as a " ++ t, cache₂)

  abbrev pub as_float : Value F T → Option F
  as_float (int_value z) = some (go.to_float z)
  as_float (int64_value z) = some (go.to_float z)
  as_float _ = none

  -- The deferred function.
  unfoldable pub finish : Bytes → Bytes → Tagged → Cache → Resolved × Cache
  unfolding cannot_decode
  finish tag s (rtag, out) cache =
      let failed = cannot_decode tag rtag s cache in
      let failure : Resolved × Cache =
        (record { tag = rtag; out = out; error = some failed.0 }, failed.1) in
      if is_empty tag || bytes_eq tag rtag || bytes_eq tag str_tag || bytes_eq tag binary_tag
      then (record { tag = rtag; out = out; error = none }, cache)
      else if bytes_eq tag float_tag && bytes_eq rtag int_tag
      then elim (as_float out) [
        | none ↦ failure
        | some f ↦ (record { tag = float_tag; out = float_value f; error = none }, cache)
      ]
      else failure

  -- Resolve, with the cache of ShortTag behind it; `none` is a panic.
  unfoldable pub resolve : Bytes → Bytes → Cache → Option (Resolved × Cache)
  unfolding short_tag resolvable_tag resolve_value finish
  resolve tag s cache =
      let (tag', cache') = short_tag tag cache in
      if not (resolvable_tag tag')
      then some (record { tag = tag'; out = string_value s; error = none }, cache')
      else elim (resolve_value tag' s) [ none ↦ none | some r ↦ some (finish tag' s r cache') ]
