-- ===== src/Emitter/Sound/Quoted.antt =====
-- The writers of single-quoted and double-quoted scalars end on text.
use yaml.Common.{
  ℕ, zero, suc, ◌+◌, ◌-◌, ◌*◌, ◌≤◌, ◌<◌, ◌≡◌, ◌≢◌, refl, bit_and, Bool, true, false, not, ◌&&◌,
  none, some, [], ◌∷◌, Bytes, length, ltb, leb, ◌==◌, exceeds, arith, Option,
}
use yaml.Chars.{width, is_break, is_space, is_bom, ◌&&?◌, not?}
use yaml.Chars.Text.{Text, first_char, is_break-ne-none, is_printable-ne-none}
use yaml.Emitter.State.{Emitter, M}
use yaml.Emitter.Output.{put}
use yaml.Emitter.Write.Plain.{ScalarVars}
use yaml.Emitter.Write.Quoted.{
  QuotedVars, with_count, single_space, single_char, single_round, write_single_quoted_scalar,
  first_bits, next_bits, short_escape, put_hex, put_long_escape, put_escape, write_escaped_char,
  DoubleVars, needs_escape, fold_or_write, double_space, double_round, write_double_quoted_scalar,
}
use yaml.Emitter.Sound.{
  Meets, Keeps, Meets-bind, Meets-pure, Keeps-when, Meets-checked, Less, Keeps-for_value,
}
use yaml.Emitter.Sound.Write.{
  put-Keeps, write_indent-Keeps, plain_char-Keeps, write_indicator-Keeps, write-Meets, slice-Meets,
}
use yaml.Emitter.Sound.Comment.{if-Meets}
use yaml.Emitter.Sound.Scalar.{
  get_elem?-ne-none, break_round-Meets, space_round-Meets, plain_char_round-Meets,
}

-- The second byte is read only where there is one.
guarded_space :
    (cond : Bool) (b : Bytes)
    → (cond ≡ true → 1 < length b)
    → (some cond &&? not? (is_space b 1)) ≢ none
unfolding is_space
guarded_space true b h = ground (arith, get_elem?-ne-none b 1, h)
guarded_space false b h = ground arith

second_space : (c : ℕ) (b : Bytes) → 1 < length (c ∷ b) → is_space (c ∷ b) 1 ≢ none
unfolding is_space
second_space c b h = ground (arith, get_elem?-ne-none (c ∷ b) 1)

next_bits-ne-none : (n v : ℕ) (b : Bytes) → n ≤ length b → next_bits n v b ≢ none
unfolding next_bits
next_bits-ne-none zero v b h = cc
next_bits-ne-none (suc n) v [] h = absurd (omega arith)
next_bits-ne-none (suc n) v (c ∷ b) h =
    next_bits-ne-none n (v * 64 + bit_and c 0x3F) b (omega arith)

needs_escape-ne-none :
    (bom : Bool) (c : ℕ) (b : Bytes) → Text (c ∷ b) → needs_escape bom c (c ∷ b) ≢ none
unfolding needs_escape
needs_escape-ne-none bom c b t = ground (arith, is_printable-ne-none t, is_break-ne-none t)

bom-ne-none : (b : Bytes) → (some (leb 3 (length b)) &&? is_bom b) ≢ none
unfolding is_bom
bom-ne-none b = ground (arith, get_elem?-ne-none b 0, get_elem?-ne-none b 1, get_elem?-ne-none b 2)

module _ {k : Emitter} where
  with_count-Meets :
      (n m : ℕ) {a : M (ScalarVars × Bytes)}
      → Meets k (Less m) a
      → Meets k (Less m) (with_count n a)
  with_count-Meets n m h =
      Meets-bind h
        (λ r q. Meets-pure {a = ((r.0, n), r.1)} (record { text = q.text; less = q.less }))

  single_space-Meets :
      (allow spaces breaks : Bool) (count c : ℕ) (b : Bytes)
      → Text (c ∷ b)
      → Meets k (Less (length (c ∷ b))) (single_space allow spaces breaks count (width c) (c ∷ b))
  unfolding single_space
  single_space-Meets allow spaces breaks count c b t e s p =
      let cond =
        allow
        && not spaces
        && exceeds e.column e.best_width
        && ltb 1 count
        && ltb (width c) (length (c ∷ b)) in
      let room : cond ≡ true → 1 < length (c ∷ b) = ground (arith, (first_char t).positive) in
      Meets-bind
        (Meets-checked (some cond &&? not? (is_space (c ∷ b) 1)) (guarded_space cond (c ∷ b) room))
        (λ fold _. space_round-Meets fold breaks c b t) e s p

  single_char-Meets :
      (breaks : Bool) (c : ℕ) (b : Bytes)
      → Text (c ∷ b)
      → Meets k (Less (length (c ∷ b))) (single_char breaks c (c ∷ b))
  unfolding single_char
  single_char-Meets breaks c b t = Meets-bind (Keeps-when breaks write_indent-Keeps) (λ _ _.
      Meets-bind (Keeps-when (c == b'\'') (put-Keeps b'\''))
        (λ _ _. plain_char_round-Meets false c b t))

  single_round-Meets :
      (allow : Bool) (v : QuotedVars) (c : ℕ) (b : Bytes)
      → Text (c ∷ b)
      → Meets k (Less (length (c ∷ b))) (single_round allow v (c ∷ b))
  unfolding single_round
  single_round-Meets allow ((spaces, breaks), count) c b t =
      if-Meets (c == b' ')
        (with_count-Meets (count + 1) (length (c ∷ b))
          (single_space-Meets allow spaces breaks (count + 1) c b t))
        (Meets-bind (Meets-checked (is_break (c ∷ b) 0) (is_break-ne-none t)) (λ break _.
          with_count-Meets (count + 1) (length (c ∷ b)) (
            if-Meets break (break_round-Meets spaces breaks c b t)
              (single_char-Meets breaks c b t))))

  pub write_single_quoted_scalar-Keeps :
      (b : Bytes) (allow : Bool) → Text b → Keeps k (write_single_quoted_scalar b allow)
  unfolding write_single_quoted_scalar
  write_single_quoted_scalar-Keeps b allow t =
      Meets-bind (write_indicator-Keeps (b'\'' ∷ []) true false false) (λ _ _.
        Meets-bind
          (Keeps-for_value (single_round allow) (single_round-Meets allow) ((false, false), 0) b t)
          (λ _ _.
            Meets-bind (write_indicator-Keeps (b'\'' ∷ []) false false false)
              (λ _ _. plain_char-Keeps)))

  put_hex-Keeps : (n v : ℕ) → Keeps k (put_hex n v)
  unfolding put_hex
  put_hex-Keeps zero v = Meets-pure {a = tt} tt
  put_hex-Keeps (suc n) v = Meets-bind (put-Keeps _) (λ _ _. put_hex-Keeps n v)

  put_long_escape-Keeps : (v : ℕ) → Keeps k (put_long_escape v)
  unfolding put_long_escape
  put_long_escape-Keeps v =
      if-Meets (leb v 0xFF) (Meets-bind (put-Keeps b'x') (λ _ _. put_hex-Keeps 2 v)) (
        if-Meets (leb v 0xFFFF) (Meets-bind (put-Keeps b'u') (λ _ _. put_hex-Keeps 4 v))
          (Meets-bind (put-Keeps b'U') (λ _ _. put_hex-Keeps 8 v)))

  letter_or_long :
      (v : ℕ) (o : Option ℕ)
      → Keeps k (elim o [ some letter ↦ put letter | none ↦ put_long_escape v ])
  letter_or_long v none = put_long_escape-Keeps v
  letter_or_long v (some letter) = put-Keeps letter

  put_escape-Keeps : (v : ℕ) → Keeps k (put_escape v)
  unfolding put_escape
  put_escape-Keeps v = Meets-bind (put-Keeps b'\\') (λ _ _. letter_or_long v (short_escape v))

  write_escaped_char-Meets :
      (c : ℕ) (b : Bytes)
      → Text (c ∷ b)
      → Meets k (λ r. Text r × (length r < length (c ∷ b))) (write_escaped_char (c ∷ b))
  unfolding write_escaped_char
  write_escaped_char-Meets c b t =
      let room : width c - 1 ≤ length b = omega (arith, (first_char t).fits) in
      Meets-bind
        (Meets-checked (next_bits (width c - 1) (first_bits c) b)
          (next_bits-ne-none (width c - 1) (first_bits c) b room))
        (λ v _.
          Meets-bind (slice-Meets (width c) c b t refl)
            (λ r q. Meets-bind (put_escape-Keeps v) (λ _ _. Meets-pure {a = r} q)))

  fold_or_write-Meets :
      (cond : Bool) (c : ℕ) (b : Bytes)
      → (cond ≡ true → 1 < length (c ∷ b))
      → Meets k (λ n. n ≡ width c) (fold_or_write cond (width c) (c ∷ b))
  unfolding fold_or_write is_space
  fold_or_write-Meets true c b room = Meets-bind write_indent-Keeps (λ _ _.
      Meets-bind (Meets-checked (is_space (c ∷ b) 1) (second_space c b (room refl))) (λ space _.
        Meets-bind (Keeps-when space (put-Keeps b'\\')) (λ _ _. Meets-pure {a = width c} refl)))
  fold_or_write-Meets false c b room = write-Meets c b

  double_space-Meets :
      (allow spaces : Bool) (count c : ℕ) (b : Bytes)
      → Text (c ∷ b)
      → Meets k (Less (length (c ∷ b))) (double_space allow spaces count (width c) (c ∷ b))
  unfolding double_space
  double_space-Meets allow spaces count c b t e s p =
      let cond =
        allow
        && not spaces
        && exceeds e.column e.best_width
        && ltb 1 count
        && ltb (width c) (length (c ∷ b)) in
      let room : cond ≡ true → 1 < length (c ∷ b) = ground (arith, (first_char t).positive) in
      Meets-bind (fold_or_write-Meets cond c b room)
        (λ n q.
          Meets-bind (slice-Meets n c b t q)
            (λ r (x, y). Meets-pure {a = ((true, count), r)} (record { text = x; less = y })))
        e s p

  double_round-Meets :
      (bom allow : Bool) (v : DoubleVars) (c : ℕ) (b : Bytes)
      → Text (c ∷ b)
      → Meets k (Less (length (c ∷ b))) (double_round bom allow v (c ∷ b))
  unfolding double_round
  double_round-Meets bom allow (spaces, count) c b t =
      Meets-bind (Meets-checked (needs_escape bom c (c ∷ b)) (needs_escape-ne-none bom c b t))
        (λ escape _.
          if-Meets escape
            (Meets-bind (write_escaped_char-Meets c b t) (λ r (x, y).
              Meets-pure {a = ((false, count + 1), r)} (record { text = x; less = y })))
            (if-Meets (c == b' ') (double_space-Meets allow spaces (count + 1) c b t) (
              Meets-bind (write-Meets c b) (λ n q. Meets-bind (slice-Meets n c b t q) (λ r (x, y).
                Meets-pure {a = ((false, count + 1), r)} (record { text = x; less = y }))))))

  pub write_double_quoted_scalar-Keeps :
      (b : Bytes) (allow : Bool) → Text b → Keeps k (write_double_quoted_scalar b allow)
  unfolding write_double_quoted_scalar
  write_double_quoted_scalar-Keeps b allow t =
      Meets-bind (write_indicator-Keeps (b'"' ∷ []) true false false) (λ _ _.
        Meets-bind (Meets-checked (some (leb 3 (length b)) &&? is_bom b) (bom-ne-none b)) (λ bom _.
          Meets-bind
            (Keeps-for_value (double_round bom allow) (double_round-Meets bom allow) (false, 0) b t)
            (λ _ _.
              Meets-bind (write_indicator-Keeps (b'"' ∷ []) false false false)
                (λ _ _. plain_char-Keeps))))
