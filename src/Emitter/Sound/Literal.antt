-- ===== src/Emitter/Sound/Literal.antt =====
-- writeBlockScalarHints and writeLiteralScalar end on text that is not empty.
use Prim.Native.Nat.add
use yaml.Common.{
  ℕ, zero, suc, ◌+◌, ◌%◌, ◌≤◌, ◌<◌, ◌≡◌, ◌≢◌, refl, bit_and, Bool, true, false, none, some, [], ◌∷◌,
  Bytes, length, ltb, leb, ◌&&◌, ◌==◌, if◌then◌else◌, all_below, all_below_sound, arith,
}
use yaml.Chars.{is_break, is_space, ◌||?◌}
use yaml.Chars.Text.{Text, IsTail, empty, one, two, three, four, is_break-ne-none}
use yaml.Emitter.State.{Emitter}
use yaml.Emitter.Write.Comment.{clear_indent}
use yaml.Emitter.Write.Block.{
  Chomp, strip, clip, keep, lead_index, chomp_at, chomp, write_chomp, write_block_scalar_hints,
  write_block_header, literal_round, write_literal_scalar,
}
use yaml.Emitter.Sound.{
  Meets, Keeps, Meets-bind, Meets-pure, Keeps-when, Meets-checked, Less, Keeps-for_value,
}
use yaml.Emitter.Sound.Write.{
  write_indent-Keeps, write_indicator-Keeps, fields-Keeps, write-Meets, write_break-Meets,
  slice-Meets,
}
use yaml.Emitter.Sound.Comment.{if-Meets, process_line_comment-Keeps}

abbrev is_tail : ℕ → Bool
is_tail c = bit_and c 0xC0 == 0x80

abbrev agrees : ℕ → Bool
agrees c = if is_tail c then leb 0x80 c && ltb c 0xC0 else if leb 0x80 c then leb 0xC0 c else true

tail_table : all_below 256 agrees ≡ true
tail_table = refl

is_tail_of : (c : ℕ) → IsTail c → is_tail c ≡ true
is_tail_of c h = ground (arith, all_below_sound 256 agrees c tail_table (omega arith))

not_tail_low : (c : ℕ) → c < 0x80 → is_tail c ≡ false
not_tail_low c h = ground (arith, all_below_sound 256 agrees c tail_table (omega arith))

not_tail_high : (c : ℕ) → 0xC0 ≤ c → c < 256 → is_tail c ≡ false
not_tail_high c h k = ground (arith, all_below_sound 256 agrees c tail_table k)

-- The loop back from the index finds a character, whose class reads nothing behind the end.
abbrev Lead : Bytes → ℕ → Type 0
Lead v i = (j : ℕ) × (lead_index v i ≡ some j) × (is_break v j ≢ none) × (j ≤ i)

lead_index-cons :
    (a : ℕ) (v : Bytes) (i j : ℕ)
    → lead_index v i ≡ some j
    → lead_index (a ∷ v) (suc i) ≡ some (suc j)
unfolding lead_index
lead_index-cons a v zero j h = ground arith
lead_index-cons a v (suc i) j h = ground (arith, lead_index-cons a v i j)

is_break-cons : (a : ℕ) (v : Bytes) (j : ℕ) → is_break (a ∷ v) (suc j) ≡ is_break v j
unfolding is_break
is_break-cons a v j = rw (add.suc, add.suc) refl

Lead-cons : (a : ℕ) (v : Bytes) (i : ℕ) → Lead v i → Lead (a ∷ v) (suc i)
Lead-cons a v i (j, e, nb, le) =
    (suc j, lead_index-cons a v i j e, (rw (is_break-cons a v j) nb), omega arith)

leads : {v : Bytes} → Text v → (i : ℕ) → i < length v → Lead v i
unfolding lead_index
leads empty i h = elim h [ ]
leads (one {a} {b} p t) zero h = (0, rw (not_tail_low a p), is_break-ne-none (one p t), omega arith)
leads (one {a} {b} p t) (suc i) h = Lead-cons a b i (leads t i (omega arith))
leads (two {a} {c} {b} p q r t) zero h =
    (0, rw (not_tail_high a p (omega arith)), is_break-ne-none (two p q r t), omega arith)
leads (two {a} {c} {b} p q r t) (suc zero) h = (
  0,
  rw (is_tail_of c r, not_tail_high a p (omega arith)),
  is_break-ne-none (two p q r t),
  omega arith,
)
leads (two {a} {c} {b} p q r t) (suc (suc i)) h =
    Lead-cons a _ _ (Lead-cons c b i (leads t i (omega arith)))
leads (three {a} {c} {d} {b} p q r r' t) zero h = (
  0,
  rw (not_tail_high a (omega arith) (omega arith)),
  is_break-ne-none (three p q r r' t),
  omega arith,
)
leads (three {a} {c} {d} {b} p q r r' t) (suc zero) h = (
  0,
  rw (is_tail_of c r, not_tail_high a (omega arith) (omega arith)),
  is_break-ne-none (three p q r r' t),
  omega arith,
)
leads (three {a} {c} {d} {b} p q r r' t) (suc (suc zero)) h = (
  0,
  rw (is_tail_of d r', is_tail_of c r, not_tail_high a (omega arith) (omega arith)),
  is_break-ne-none (three p q r r' t),
  omega arith,
)
leads (three {a} {c} {d} {b} p q r r' t) (suc (suc (suc i))) h =
    Lead-cons a _ _ (Lead-cons c _ _ (Lead-cons d b i (leads t i (omega arith))))
leads (four {a} {c} {d} {g} {b} p q r r' r'' t) zero h = (
  0,
  rw (not_tail_high a (omega arith) (omega arith)),
  is_break-ne-none (four p q r r' r'' t),
  omega arith,
)
leads (four {a} {c} {d} {g} {b} p q r r' r'' t) (suc zero) h = (
  0,
  rw (is_tail_of c r, not_tail_high a (omega arith) (omega arith)),
  is_break-ne-none (four p q r r' r'' t),
  omega arith,
)
leads (four {a} {c} {d} {g} {b} p q r r' r'' t) (suc (suc zero)) h = (
  0,
  rw (is_tail_of d r', is_tail_of c r, not_tail_high a (omega arith) (omega arith)),
  is_break-ne-none (four p q r r' r'' t),
  omega arith,
)
leads (four {a} {c} {d} {g} {b} p q r r' r'' t) (suc (suc (suc zero))) h = (
  0,
  rw (
    is_tail_of g r'',
    is_tail_of d r',
    is_tail_of c r,
    not_tail_high a (omega arith) (omega arith),
  ),
  is_break-ne-none (four p q r r' r'' t),
  omega arith,
)
leads (four {a} {c} {d} {g} {b} p q r r' r'' t) (suc (suc (suc (suc i)))) h =
    Lead-cons a _ _ (Lead-cons c _ _ (Lead-cons d _ _ (Lead-cons g b i (leads t i (omega arith)))))

chomp_at-ne-none : {v : Bytes} → Text v → (i : ℕ) → i < length v → chomp_at v i ≢ none
unfolding chomp_at
chomp_at-ne-none t zero h = cc
chomp_at-ne-none t (suc i) h = let (j, e, nb, _) = leads t i (omega arith) in ground (arith, e, nb)

chomp-ne-none : {c : ℕ} {b : Bytes} → Text (c ∷ b) → chomp (c ∷ b) ≢ none
unfolding chomp
chomp-ne-none {c} {b} t =
    let (j, e, nb, le) = leads t (length b) (omega arith) in
    ground (arith, e, nb, chomp_at-ne-none t j (omega arith))

hinted-ne-none :
    {c : ℕ} {b : Bytes} → Text (c ∷ b) → (is_space (c ∷ b) 0 ||? is_break (c ∷ b) 0) ≢ none
unfolding is_space
hinted-ne-none t = ground (arith, is_break-ne-none t)

module _ {k : Emitter} where
  write_chomp-Keeps : (h : Chomp) → Keeps k (write_chomp h)
  unfolding write_chomp
  write_chomp-Keeps strip = write_indicator-Keeps (b'-' ∷ []) false false false
  write_chomp-Keeps clip = Meets-pure {a = tt} tt
  write_chomp-Keeps keep =
      Meets-bind (fields-Keeps (λ e. record e { open_ended = true }) (λ e. refl))
        (λ _ _. write_indicator-Keeps (b'+' ∷ []) false false false)

  write_block_scalar_hints-Keeps :
      (c : ℕ) (b : Bytes) → Text (c ∷ b) → Keeps k (write_block_scalar_hints (c ∷ b))
  unfolding write_block_scalar_hints
  write_block_scalar_hints-Keeps c b t =
      Meets-bind (Meets-checked (is_space (c ∷ b) 0 ||? is_break (c ∷ b) 0) (hinted-ne-none t))
        (λ hinted _ e s p.
          Meets-bind
            (Keeps-when hinted
              (write_indicator-Keeps (((b'0' + e.indent) % 256) ∷ []) false false false))
            (λ _ _.
              Meets-bind (fields-Keeps (λ e. record e { open_ended = false }) (λ e. refl)) (λ _ _.
                Meets-bind (Meets-checked (chomp (c ∷ b)) (chomp-ne-none t))
                  (λ hint _. write_chomp-Keeps hint)))
            e s p)

  write_block_header-Keeps :
      (i c : ℕ) (b : Bytes) → Text (c ∷ b) → Keeps k (write_block_header i (c ∷ b))
  unfolding write_block_header
  write_block_header-Keeps i c b t =
      Meets-bind (write_indicator-Keeps (i ∷ []) true false false) (λ _ _.
        Meets-bind (write_block_scalar_hints-Keeps c b t) (λ _ _.
          Meets-bind process_line_comment-Keeps
            (λ _ _. fields-Keeps (λ e. record e { last_char_whitespace = true }) (λ e. refl))))

  literal_round-Meets :
      (breaks : Bool) (c : ℕ) (b : Bytes)
      → Text (c ∷ b)
      → Meets k (Less (length (c ∷ b))) (literal_round breaks (c ∷ b))
  unfolding literal_round
  literal_round-Meets breaks c b t =
      Meets-bind (Meets-checked (is_break (c ∷ b) 0) (is_break-ne-none t)) (λ break _.
        if-Meets break
          (Meets-bind (write_break-Meets c b) (λ n q.
            Meets-bind (slice-Meets n c b t q)
              (λ r (x, y). Meets-pure {a = (true, r)} (record { text = x; less = y }))))
          (Meets-bind (Keeps-when breaks write_indent-Keeps) (λ _ _.
            Meets-bind (write-Meets c b) (λ n q. Meets-bind (slice-Meets n c b t q) (λ r (x, y).
              Meets-bind (fields-Keeps clear_indent (λ e. refl))
                (λ _ _. Meets-pure {a = (false, r)} (record { text = x; less = y })))))))

  pub write_literal_scalar-Keeps :
      (c : ℕ) (b : Bytes) → Text (c ∷ b) → Keeps k (write_literal_scalar (c ∷ b))
  unfolding write_literal_scalar
  write_literal_scalar-Keeps c b t = Meets-bind (write_block_header-Keeps b'|' c b t) (λ _ _.
      Meets-bind (Keeps-for_value literal_round literal_round-Meets true (c ∷ b) t)
        (λ _ _. Meets-pure {a = tt} tt))
