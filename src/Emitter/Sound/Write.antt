-- ===== src/Emitter/Sound/Write.antt =====
-- The writers of internal/emitter/write.go that take any bytes, and the steps over one character.
use yaml.Common.{
  ℕ, zero, suc, ◌<◌, ◌≡◌, refl, ◌+◌, Bool, true, false, not, ◌&&◌, ◌∷◌, Bytes, length, is_empty,
  take, leb, ◌==◌, Bool-cases, inl, inr, arith, sym, subst,
}
use yaml.Chars.{width}
use yaml.Chars.Text.{Text, CharOf, first_char}
use yaml.Emitter.State.{Emitter, modify, slice}
use yaml.Emitter.Output.{
  raw_write, copy_n, put, put_break, write, write_all, write_break, rune_count, advance, new_line,
}
use yaml.Emitter.Write.{
  write_indent, separate, write_indicator, write_anchor, write_tag_handle, write_octets, plain_char,
}
use yaml.Emitter.Bind.{returns, Ends-map}
use yaml.Emitter.Frame.{fixed, raw_write-Ends, put-Ends, put_break-Ends}
use yaml.Emitter.Indent.{write_indent-Indented}
use yaml.Emitter.Sound.{Meets, Keeps, Meets-bind, Meets-pure, Meets-fail, Keeps-when, Keeps-output}

newline_width : (c : ℕ) → (c == 0x0A) ≡ true → 1 ≡ width c
unfolding width
newline_width c h = let e : c ≡ 0x0A = ground arith in rw e refl

module _ {k : Emitter} where
  raw_write-Keeps : (b : Bytes) → Keeps k (raw_write b)
  raw_write-Keeps b = Keeps-output (λ e. raw_write-Ends b e refl)

  pub put-Keeps : (c : ℕ) → Keeps k (put c)
  put-Keeps c = Keeps-output (λ e. put-Ends c e refl)

  pub put_break-Keeps : Keeps k put_break
  put_break-Keeps = Keeps-output (λ e. put_break-Ends e refl)

  pub write_all-Keeps : (b : Bytes) → Keeps k (write_all b)
  unfolding write_all
  write_all-Keeps b =
      Meets-bind
        (Keeps-output {m = modify (λ e. record e { column = e.column + rune_count b })}
          (λ e. returns refl))
        (λ _ _. Keeps-when (not (is_empty b)) (raw_write-Keeps b))

  pub write_indent-Keeps : Keeps k write_indent
  write_indent-Keeps =
      Keeps-output (λ e. Ends-map (λ _ e' p. p.laid.frame) (write_indent-Indented e))

  pub separate-Keeps : (b : Bool) → Keeps k (separate b)
  unfolding separate
  separate-Keeps b e s p = Keeps-when (b && not e.last_char_whitespace) (put-Keeps b' ') e s p

  -- A change of the output fields only.
  pub fields-Keeps :
      (f : Emitter → Emitter) → ((e : Emitter) → fixed (f e) ≡ fixed e) → Keeps k (modify f)
  fields-Keeps f h = Keeps-output {m = modify f} (λ e. returns (h e))

  pub write_indicator-Keeps : (i : Bytes) (a b c : Bool) → Keeps k (write_indicator i a b c)
  unfolding write_indicator
  write_indicator-Keeps i a b c = Meets-bind (separate-Keeps a) (λ _ _.
      Meets-bind (write_all-Keeps i) (λ _ _.
        fields-Keeps
          (λ e. record e {
            last_char_whitespace = b;
            last_char_indent = e.last_char_indent && c;
            open_ended = false;
          })
          (λ e. refl)))

  pub plain_char-Keeps : Keeps k (modify plain_char)
  plain_char-Keeps = fields-Keeps plain_char (λ e. refl)

  pub write_anchor-Keeps : (b : Bytes) → Keeps k (write_anchor b)
  unfolding write_anchor
  write_anchor-Keeps b = Meets-bind (write_all-Keeps b) (λ _ _. plain_char-Keeps)

  pub write_tag_handle-Keeps : (b : Bytes) → Keeps k (write_tag_handle b)
  unfolding write_tag_handle
  write_tag_handle-Keeps b =
      Meets-bind (separate-Keeps true)
        (λ _ _. Meets-bind (write_all-Keeps b) (λ _ _. plain_char-Keeps))

  pub write_octets-Keeps : (n octet : ℕ) → Keeps k (write_octets n octet)
  unfolding write_octets
  write_octets-Keeps zero octet = Meets-pure {a = tt} tt
  write_octets-Keeps (suc n) octet = Meets-bind (put-Keeps _) (λ _ _.
      Meets-bind (put-Keeps _)
        (λ _ _. Meets-bind (put-Keeps _) (λ _ _. write_octets-Keeps n octet)))

  copy_n-Keeps : (w : ℕ) (b : Bytes) → Keeps k (copy_n w b)
  unfolding copy_n
  copy_n-Keeps zero b e s p = Meets-pure {a = tt} tt e s p
  copy_n-Keeps (suc w) b e s p = elim (Bool-cases (leb (suc w) (length b))) [
    | inl fits ↦ rw fits (raw_write-Keeps (take (suc w) b) e s p)
    | inr short ↦ rw short (Meets-bind (raw_write-Keeps b) (λ _ _. Meets-fail) e s p)
  ]

  -- The number of bytes read is the width of the character.
  pub write-Meets : (c : ℕ) (b : Bytes) → Meets k (λ n. n ≡ width c) (write (c ∷ b))
  unfolding write
  write-Meets c b =
      Meets-bind (copy_n-Keeps (width c) (c ∷ b))
        (λ _ _. Meets-bind (fields-Keeps advance (λ e. refl)) (λ _ _. Meets-pure refl))

  pub write_break-Meets : (c : ℕ) (b : Bytes) → Meets k (λ n. n ≡ width c) (write_break (c ∷ b))
  unfolding write_break
  write_break-Meets c b e s p = elim (Bool-cases (c == 0x0A)) [
    | inl nl ↦ rw nl (Meets-bind put_break-Keeps (λ _ _. Meets-pure (newline_width c nl)) e s p)
    | inr other ↦ rw other (
        Meets-bind (write-Meets c b)
          (λ n q. Meets-bind (fields-Keeps new_line (λ e. refl)) (λ _ _. Meets-pure q)) e s p)
  ]

  -- Behind the first character of a text there is text, and less of it.
  pub slice-Meets :
      (n c : ℕ) (b : Bytes)
      → Text (c ∷ b)
      → n ≡ width c
      → Meets k (λ r. Text r × (length r < length (c ∷ b))) (slice n (c ∷ b))
  slice-Meets n c b t q e s p =
      let char = subst (λ m. CharOf m c b) (sym q) (first_char t) in
      let fits : leb n (length (c ∷ b)) ≡ true = ground (arith, char.fits) in
      rw fits (returns (record { sound = s; kept = p; result = (char.rest, char.shorter) }))
