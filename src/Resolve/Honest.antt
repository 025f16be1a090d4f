-- ===== src/Resolve/Honest.antt =====
-- Resolve does not panic, and keeps to a tag that it is given.
use yaml.Common.{
  ℕ, ◌≡◌, refl, sym, subst, ◌∙◌, ◌⊎◌, inl, inr, Bool, true, false, not, ◌&&◌, ◌||◌, Option, none,
  some, [], ◌∷◌, Bytes, bytes_eq, is_empty, Bool-cases, if◌then◌else◌, one_of, codes, ◌==◌, arith,
}
use yaml.Resolve.Tags.{str_tag, float_tag, int_tag, binary_tag, Cache, short_tag}
use yaml.Resolve.Value.{
  Platform, float_value, string_value, resolve_table, resolvable_tag, Tagged, resolve_map,
  resolve_hint, hint_of, resolve_value, Resolved, cannot_decode, as_float, finish, resolve,
}
use yaml.Resolve.Round.{short_of, Caches, bytes_eq_sound, short_tag-short_of}

first_true : (a b : Bool) → a && b ≡ true → a ≡ true
first_true true b e = refl
first_true false b e = e

first_false : (a b c : Bool) → not a && b && c ≡ true → a ≡ false
first_false true b c e = cc
first_false false b c e = refl

empty_tag : (tag : Bytes) → is_empty tag ≡ true → tag ≡ []
empty_tag [] e = refl
empty_tag (c ∷ tag) e = cc

-- The tags with which the deferred function leaves the results alone.
same_tag :
    (tag rtag : Bytes)
    → (bytes_eq tag str_tag ≡ true → rtag ≡ str_tag)
    → bytes_eq tag binary_tag ≡ false
    → is_empty tag || bytes_eq tag rtag || bytes_eq tag str_tag || bytes_eq tag binary_tag ≡ true
    → (tag ≡ []) ⊎ (rtag ≡ tag)
same_tag tag rtag str bin e = elim (Bool-cases (is_empty tag)) [
  | inl h ↦ inl (empty_tag tag h)
  | inr h ↦ elim (Bool-cases (bytes_eq tag rtag)) [
    | inl k ↦ inr (sym (bytes_eq_sound tag rtag k))
    | inr k ↦
        let is_str : bytes_eq tag str_tag ≡ true = ground (arith, e, h, k, bin) in
        inr (str is_str ∙ sym (bytes_eq_sound tag str_tag is_str))
  ]
]

binary_unresolvable : (tag : Bytes) → resolvable_tag tag ≡ true → bytes_eq tag binary_tag ≡ false
unfolding resolvable_tag
binary_unresolvable tag e = elim (Bool-cases (bytes_eq tag binary_tag)) [
  | inl h ↦ let same : tag ≡ binary_tag = bytes_eq_sound tag binary_tag h in cc
  | inr h ↦ h
]

-- A hint that has a case.
abbrev has_case : ℕ → Bool
has_case h = h == b'M' || h == b'.' || (h == b'D' || h == b'S')

resolve_table-has_case :
    (c : ℕ) → (resolve_table c == 0) ≡ false → has_case (resolve_table c) ≡ true
unfolding resolve_table
resolve_table-has_case c =
    go (one_of (codes "+-") c) (one_of (codes "0123456789") c) (one_of (codes "yYnNtTfFoO~") c)
      (c == b'.')
  where
    go :
        (p q r s : Bool)
        → let h : ℕ =
            if p then b'S' else if q then b'D' else if r then b'M' else if s then b'.' else 0 in
          (h == 0) ≡ false → has_case h ≡ true
    go true q r s e = refl
    go false true r s e = refl
    go false false true s e = refl
    go false false false true e = refl
    go false false false false e = cc

module _ {F T : Type 0} (go : Platform F T) where
  resolve_hint-Some :
      (h : ℕ) (tag s : Bytes)
      → has_case h ≡ true
      → (r : Tagged go) × (resolve_hint go h tag s ≡ some r)
  unfolding resolve_hint
  resolve_hint-Some h tag s e = elim (Bool-cases (h == b'M')) [
    | inl m ↦ rw m (_, refl)
    | inr m ↦ elim (Bool-cases (h == b'.')) [
      | inl d ↦ rw m (rw d (_, refl))
      | inr d ↦
          let n : (h == b'D' || h == b'S') ≡ true = rw⁻¹ e (rw m (rw d refl)) in
          rw m (rw d (rw n (_, refl)))
    ]
  ]

  mapped_or-Some :
      (b : Bool) (m n : Option (Tagged go)) (d : Tagged go)
      → (m ≡ none → b ≡ true → (r : Tagged go) × (n ≡ some r))
      → (r : Tagged go) × ((if b then elim m [ none ↦ n | some r ↦ some r ] else some d) ≡ some r)
  mapped_or-Some true none n d h = h refl refl
  mapped_or-Some true (some r) n d h = (r, refl)
  mapped_or-Some false m n d h = (d, refl)

  -- The map and the cases of the hints cover every scalar.
  resolve_value-Some : (tag s : Bytes) → (r : Tagged go) × (resolve_value go tag s ≡ some r)
  unfolding resolve_value resolve_map hint_of
  resolve_value-Some tag [] =
      mapped_or-Some (not (bytes_eq tag str_tag) && not (bytes_eq tag binary_tag))
        (resolve_map go []) (resolve_hint go (hint_of []) tag []) (str_tag, string_value [])
        (λ e h. cc)
  resolve_value-Some tag (c ∷ s) =
      mapped_or-Some
        (not (resolve_table c == 0) && not (bytes_eq tag str_tag) && not (bytes_eq tag binary_tag))
        (resolve_map go (c ∷ s)) (resolve_hint go (resolve_table c) tag (c ∷ s))
        (str_tag, string_value (c ∷ s))
        (λ e h.
          resolve_hint-Some (resolve_table c) tag (c ∷ s)
            (resolve_table-has_case c (first_false (resolve_table c == 0) _ _ h)))

  resolve_value-str :
      (tag s : Bytes)
      → bytes_eq tag str_tag ≡ true
      → resolve_value go tag s ≡ some (str_tag, string_value s)
  unfolding resolve_value
  resolve_value-str tag s e = rw e (
      skipped (not (hint_of s == 0)) (resolve_map go s) (resolve_hint go (hint_of s) tag s)
        (not (bytes_eq tag binary_tag)))
    where
      skipped :
          (a : Bool) (m n : Option (Tagged go)) (z : Bool)
          → (if a && false && z
              then elim m [ none ↦ n | some r ↦ some r ]
              else some (str_tag, string_value s))
            ≡ some (str_tag, string_value s)
      skipped true m n z = refl
      skipped false m n z = refl

  -- The caches stay true, and there is an error, or the tag is the one given, if one was given.
  abbrev Honest : Bytes → Resolved go × Cache → Type 0
  Honest tag (r, cache) =
      Caches short_of cache
      × (((text : Bytes) × (r.error ≡ some text)) ⊎ ((tag ≡ []) ⊎ (r.tag ≡ tag)))

  cannot_decode-Caches :
      (tag rtag s : Bytes) (cache : Cache)
      → Caches short_of cache
      → Caches short_of (cannot_decode go tag rtag s cache).1
  unfolding cannot_decode
  cannot_decode-Caches tag rtag s cache c =
      (short_tag-short_of tag (short_tag rtag cache).1 (short_tag-short_of rtag cache c).1).1

  finish-Honest :
      (tag s : Bytes) (r : Tagged go) (cache : Cache)
      → (bytes_eq tag str_tag ≡ true → r.0 ≡ str_tag)
      → bytes_eq tag binary_tag ≡ false
      → Caches short_of cache
      → Honest tag (finish go tag s r cache)
  unfolding finish
  finish-Honest tag s (rtag, out) cache str bin c =
      kept (is_empty tag || bytes_eq tag rtag || bytes_eq tag str_tag || bytes_eq tag binary_tag)
        refl
    where
      failed : Bytes × Cache
      failed = cannot_decode go tag rtag s cache

      failure : Resolved go × Cache
      failure = (record { tag = rtag; out = out; error = some failed.0 }, failed.1)

      converted :
          (f : Option F)
          → tag ≡ float_tag
          → Honest tag (elim f [
            | none ↦ failure
            | some x ↦ (record { tag = float_tag; out = float_value x; error = none }, cache)
          ])
      converted none e = (cannot_decode-Caches tag rtag s cache c, inl (_, refl))
      converted (some x) e = (c, inr (inr (sym e)))

      changed :
          (b : Bool)
          → b ≡ (bytes_eq tag float_tag && bytes_eq rtag int_tag)
          → Honest tag (
              if b
              then elim (as_float go out) [
                | none ↦ failure
                | some x ↦ (record { tag = float_tag; out = float_value x; error = none }, cache)
              ]
              else failure)
      changed true e =
          converted (as_float go out) (bytes_eq_sound tag float_tag (first_true _ _ (sym e)))
      changed false e = (cannot_decode-Caches tag rtag s cache c, inl (_, refl))

      kept :
          (b : Bool)
          → b
            ≡ (is_empty tag || bytes_eq tag rtag || bytes_eq tag str_tag || bytes_eq tag binary_tag)
          → Honest tag (
              if b
              then (record { tag = rtag; out = out; error = none }, cache)
              else if bytes_eq tag float_tag && bytes_eq rtag int_tag
              then elim (as_float go out) [
                | none ↦ failure
                | some x ↦ (record { tag = float_tag; out = float_value x; error = none }, cache)
              ]
              else failure)
      kept true e = (c, inr (same_tag tag rtag str bin (sym e)))
      kept false e = changed (bytes_eq tag float_tag && bytes_eq rtag int_tag) refl

  Honest-value :
      (tag s : Bytes) (cache : Cache) (b : Bool)
      → resolvable_tag tag ≡ b
      → Caches short_of cache
      → (res : Resolved go × Cache) × ((if not b
            then some (record { tag = tag; out = string_value s; error = none }, cache)
            else elim (resolve_value go tag s) [
              | none ↦ none
              | some r ↦ some (finish go tag s r cache)
            ])
          ≡ some res)
        × Honest tag res
  Honest-value tag s cache false e c = (_, refl, (c, inr (inr refl)))
  Honest-value tag s cache true e c =
      let (r, found) = resolve_value-Some tag s in
      let str : bytes_eq tag str_tag ≡ true → r.0 ≡ str_tag =
        λ h. let same = resolve_value-str tag s h in cc in
      (
        finish go tag s r cache,
        rw found refl,
        finish-Honest tag s r cache str (binary_unresolvable tag e) c,
      )

  -- Resolve returns, whatever the tag and the scalar and whatever Go's conversions answer: it does not
  -- come to the panic of its last case. The cache of ShortTag, true before, stays true; and Resolve
  -- returns an error, or the short form of the tag given is empty, or it is the tag returned.
  pub resolve-Honest :
      (tag s : Bytes) (cache : Cache)
      → Caches short_of cache
      → (r : Resolved go) × (cache' : Cache) × (resolve go tag s cache ≡ some (r, cache'))
        × Caches short_of cache'
        × (((text : Bytes) × (r.error ≡ some text))
            ⊎ ((short_of tag ≡ []) ⊎ (r.tag ≡ short_of tag)))
  unfolding resolve
  resolve-Honest tag s cache c =
      let (e, d) = short_tag-short_of tag cache c in
      let t = short_tag tag cache in
      let (res, found, (honest, kept)) = Honest-value t.0 s t.1 (resolvable_tag t.0) refl d in
      (
        res.0,
        res.1,
        found,
        honest,
        subst (λ x. ((text : Bytes) × (res.0.error ≡ some text)) ⊎ ((x ≡ []) ⊎ (res.0.tag ≡ x))) e
            kept,
      )
