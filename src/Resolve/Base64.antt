-- ===== src/Resolve/Base64.antt =====
-- EncodeBase64 of internal/resolve/resolve.go: base64 in lines.
use yaml.Common.{
  ◌⊎◌, ℕ, zero, suc, ◌+◌, ◌-◌, ◌/◌, ◌≤◌, ◌<◌, ◌≡◌, ◌≢◌, refl, sym, ap, ◌∙◌, subst, Bool, true,
  false, Option, none, some, [], ◌∷◌, ◌++◌, Bytes, length, length-append, take, drop, ltb,
  if◌then◌else◌, Bool-cases, inl, inr, append_assoc, append-nil, arith,
}

-- The length of a line.
abbrev line_len : ℕ
line_len = 70

-- `copy(out[k:], chunk)`, where `out[:k]` is written and `out` has the size `limit`.
unfoldable copy_chunk : ℕ → Bytes → Bytes → Bytes
copy_chunk limit written chunk = written ++ take (limit - length written) chunk

-- `out[k] = '\n'`, and the step of `k`; `none` is an index out of range.
unfoldable end_line : ℕ → Bytes → Option Bytes
end_line limit written = if ltb (length written) limit then some (written ++ 0x0A ∷ []) else none

-- The loop over the lines of what is left of the encoding, each with a line break if `several`. A round
-- takes a byte at least, so that the length of the encoding bounds the rounds; `none` is a panic, or
-- the fuel that runs out.
unfoldable write_lines : ℕ → Bool → ℕ → Bytes → Bytes → Option Bytes
unfolding copy_chunk end_line
write_lines fuel several limit [] written = some written
write_lines zero several limit (c ∷ rest) written = none
write_lines (suc fuel) several limit (c ∷ rest) written =
    let written' = copy_chunk limit written (take line_len (c ∷ rest)) in
    let rest' = drop line_len (c ∷ rest) in
    elim (if several then end_line limit written' else some written') [
      | none ↦ none
      | some w ↦ write_lines fuel several limit rest' w
    ]

-- EncodeBase64, over the encoding of the library and its length.
unfoldable pub encode_base64 : (Bytes → Bytes) → (ℕ → ℕ) → Bytes → Option Bytes
unfolding write_lines
encode_base64 encode encoded_len s =
    let enc_len = encoded_len (length s) in
    let lines = enc_len / line_len + 1 in
    write_lines enc_len (ltb 1 lines) (enc_len + lines) (encode s) []

-- Lines of 70 bytes, each with its line break, the last as long as it comes out.
pub data Wrapped : Bytes → Bytes → Type 0 where
  no_line : Wrapped [] []
  line :
      {rest out : Bytes} (chunk : Bytes)
      → 0 < length chunk
      → length chunk ≤ 70
      → (rest ≢ [] → length chunk ≡ 70)
      → Wrapped rest out
      → Wrapped (chunk ++ rest) (chunk ++ 0x0A ∷ out)

take_all : (n : ℕ) (xs : Bytes) → length xs ≤ n → take n xs ≡ xs
take_all zero [] h = refl
take_all (suc n) [] h = refl
take_all zero (x ∷ xs) h = absurd (omega (arith, h))
take_all (suc n) (x ∷ xs) h = ap (λ k. x ∷ k) (take_all n xs (omega (arith, h)))

take-drop : (n : ℕ) (xs : Bytes) → take n xs ++ drop n xs ≡ xs
take-drop zero xs = refl
take-drop (suc n) [] = refl
take-drop (suc n) (x ∷ xs) = ap (λ k. x ∷ k) (take-drop n xs)

length-drop : (n : ℕ) (xs : Bytes) → length (drop n xs) ≡ length xs - n
length-drop zero xs = omega arith
length-drop (suc n) [] = omega arith
length-drop (suc n) (x ∷ xs) = omega (arith, length-drop n xs)

length-take : (n : ℕ) (xs : Bytes) → length (take n xs) + length (drop n xs) ≡ length xs
length-take n xs = sym (length-append (take n xs) (drop n xs)) ∙ ap length (take-drop n xs)

empty_length : (xs : Bytes) → length xs ≡ 0 → xs ≡ []
empty_length [] h = refl
empty_length (x ∷ xs) h = absurd (omega (arith, h))

not_empty_length : (xs : Bytes) → xs ≢ [] → 0 < length xs
not_empty_length [] h = absurd (h refl)
not_empty_length (x ∷ xs) h = omega arith

copy_chunk-fits :
    (limit : ℕ) (written chunk : Bytes)
    → length written + length chunk ≤ limit
    → copy_chunk limit written chunk ≡ written ++ chunk
unfolding copy_chunk
copy_chunk-fits limit written chunk h =
    ap (λ k. written ++ k) (take_all (limit - length written) chunk (omega (arith, h)))

ltb-true : (a b : ℕ) → a < b → ltb a b ≡ true
ltb-true a b h = ground (arith, h)

end_line-fits :
    (limit : ℕ) (written : Bytes)
    → length written < limit
    → end_line limit written ≡ some (written ++ 0x0A ∷ [])
unfolding end_line
end_line-fits limit written h = rw (ltb-true (length written) limit h) refl

-- One round of the loop.
module _ (fuel limit c : ℕ) (rest written : Bytes) {u : Bytes}
    (copied : copy_chunk limit written (take 70 (c ∷ rest)) ≡ u) where
  after_line : Bool → Option Bytes → Option Bytes
  after_line several r = elim r [
    | none ↦ none
    | some w ↦ write_lines fuel several limit (drop 70 (c ∷ rest)) w
  ]

  write_lines-several :
      {w : Bytes}
      → end_line limit u ≡ some w
      → write_lines (suc fuel) true limit (c ∷ rest) written
        ≡ write_lines fuel true limit (drop 70 (c ∷ rest)) w
  unfolding write_lines after_line
  write_lines-several ended =
      ap (λ x. after_line true (end_line limit x)) copied ∙ ap (after_line true) ended

  write_lines-one :
      write_lines (suc fuel) false limit (c ∷ rest) written
      ≡ write_lines fuel false limit (drop 70 (c ∷ rest)) u
  unfolding write_lines after_line
  write_lines-one = ap (write_lines fuel false limit (drop 70 (c ∷ rest))) copied

-- The room that lines need.
abbrev Room : ℕ → ℕ → Bytes → Type 0
Room limit written rest = rest ≢ [] → written + length rest + length rest / 70 + 1 ≤ limit

write_lines-Wrapped :
    (fuel limit : ℕ) (rest written : Bytes)
    → length rest ≤ fuel
    → Room limit (length written) rest
    → (out : Bytes) × (write_lines fuel true limit rest written ≡ some (written ++ out))
      × Wrapped rest out
unfolding write_lines
write_lines-Wrapped fuel limit [] written h room = ([], ap some (sym (append-nil written)), no_line)
write_lines-Wrapped zero limit (c ∷ rest) written h room = absurd (omega (arith, h))
write_lines-Wrapped (suc fuel) limit (c ∷ rest) written h room =
    let r : Bytes = c ∷ rest in
    let chunk = take 70 r in
    let rest' = drop 70 r in
    let sum = length-take 70 r in
    let left = length-drop 70 r in
    let need = room (λ e. cc) in
    let copied = copy_chunk-fits limit written chunk (omega (arith, sum, left, need)) in
    let joined = length-append written chunk in
    let fits = end_line-fits limit (written ++ chunk) (omega (arith, sum, left, need, joined)) in
    let w = (written ++ chunk) ++ 0x0A ∷ [] in
    let ended = length-append (written ++ chunk) (0x0A ∷ []) in
    let (out, e, wrapped) =
      write_lines-Wrapped fuel limit rest' w (omega (arith, h, left))
        (λ n. omega (arith, sum, left, need, joined, ended, not_empty_length rest' n)) in
    (
      chunk ++ 0x0A ∷ out,
      write_lines-several fuel limit c rest written copied fits
          ∙ (e
              ∙ ap some (
                  append_assoc (written ++ chunk) (0x0A ∷ []) out
                  ∙ append_assoc written chunk (0x0A ∷ out))),
      subst (λ x. Wrapped x (chunk ++ 0x0A ∷ out)) (take-drop 70 r)
          (line chunk (omega (arith, sum, left)) (omega (arith, sum, left))
            (λ n. omega (arith, sum, left, not_empty_length rest' n)) wrapped),
    )

write_lines-single :
    (fuel limit : ℕ) (rest : Bytes)
    → length rest ≤ fuel
    → length rest < 70
    → length rest ≤ limit
    → write_lines fuel false limit rest [] ≡ some rest
unfolding write_lines
write_lines-single fuel limit [] h lt room = refl
write_lines-single zero limit (c ∷ rest) h lt room = absurd (omega (arith, h))
write_lines-single (suc fuel) limit (c ∷ rest) h lt room =
    let r : Bytes = c ∷ rest in
    let all = take_all 70 r (omega (arith, lt)) in
    let nothing_left = empty_length (drop 70 r) (omega (arith, length-drop 70 r, lt)) in
    let copied = copy_chunk-fits limit [] (take 70 r) (omega (arith, room, ap length all)) in
    write_lines-one fuel limit c rest [] copied
    ∙ ap (λ x. write_lines fuel false limit x (take 70 r)) nothing_left
    ∙ ap some all

-- Where the library's encoding has the length that it announces, EncodeBase64 writes within its buffer
-- and returns: an encoding of less than 70 bytes as it is, and a longer one in lines of 70 bytes, each
-- with a line break behind it, of which only the last may be shorter.
pub encode_base64-Wrapped :
    (encode : Bytes → Bytes) (encoded_len : ℕ → ℕ) (s : Bytes)
    → length (encode s) ≡ encoded_len (length s)
    → (out : Bytes) × (encode_base64 encode encoded_len s ≡ some out)
      × (((length (encode s) < 70) × (out ≡ encode s))
          ⊎ ((70 ≤ length (encode s)) × Wrapped (encode s) out))
unfolding encode_base64
encode_base64-Wrapped encode encoded_len s e = elim (Bool-cases (ltb (encoded_len (length s)) 70)) [
  | inl short ↦ (
    encode s,
    rw (fewer short) (
        write_lines-single _ _ (encode s) (omega (arith, e)) (ground (arith, e, short))
          (omega (arith, e))),
    inl (ground (arith, e, short), refl),
  )
  | inr long ↦
      let (out, found, wrapped) =
        write_lines-Wrapped (encoded_len (length s))
          (encoded_len (length s) + (encoded_len (length s) / 70 + 1)) (encode s) []
          (omega (arith, e)) (λ n. omega (arith, e)) in
      (out, rw (more long) found, inr (ground (arith, e, long), wrapped))
]
  where
    fewer : ltb (encoded_len (length s)) 70 ≡ true → ltb 1 (encoded_len (length s) / 70 + 1) ≡ false
    fewer h = ground (arith, h)

    more : ltb (encoded_len (length s)) 70 ≡ false → ltb 1 (encoded_len (length s) / 70 + 1) ≡ true
    more h = ground (arith, h)
