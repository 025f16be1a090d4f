-- ===== src/Emitter/Level.antt =====
-- The indentation level that increaseIndent of internal/emitter/emitter.go sets.
use yaml.Common.{
  ℕ, ◌+◌, ◌*◌, ◌/◌, ◌%◌, ◌≤◌, ◌<◌, ◌≡◌, refl, Bool, true, false, some, List, ◌∷◌, pos, arith,
  if◌then◌else◌,
}
use yaml.Emitter.State.{Emitter, EmitterState, ok}
use yaml.Emitter.Output.{is_block_sequence_item, next_level, increase_indent}

-- The next multiple of the indent behind the level.
next_multiple :
    (i n : ℕ)
    → 0 < i
    → (n < i * ((n + i) / i)) × (i * ((n + i) / i) ≤ n + i) × ((i * ((n + i) / i)) % i ≡ 0)
next_multiple i n h = (grind arith, grind arith, grind arith)

-- A deeper level `m` than `n`: two more inside a block sequence, else the next multiple of the indent.
pub record Deeper (s : EmitterState) (indent n m : ℕ) : Type 0 where
  pub deeper : n < m
  pub in_sequence : is_block_sequence_item s ≡ true → m ≡ n + 2
  pub elsewhere : is_block_sequence_item s ≡ false → (m % indent ≡ 0) × (m ≤ n + indent)

abbrev deeper_level : EmitterState → ℕ → ℕ → ℕ
deeper_level s indent n =
    if is_block_sequence_item s then n + 2 else indent * ((n + indent) / indent)

deeper_level-Deeper :
    (s : EmitterState) (indent n : ℕ) → 0 < indent → Deeper s indent n (deeper_level s indent n)
deeper_level-Deeper s indent n h = ground (arith, next_multiple indent n h)

-- The level behind increaseIndent: the same where it does not indent.
abbrev pub Leveled : Bool → EmitterState → ℕ → ℕ → ℕ → Type 0
Leveled true s indent n m = m ≡ n
Leveled false s indent n m = Deeper s indent n m

next_level-deeper_level :
    (s : EmitterState) (rest : List EmitterState) (indent n : ℕ) (flow : Bool)
    → 0 < indent
    → next_level indent (pos n) (s ∷ rest) flow false ≡ some (pos (deeper_level s indent n))
unfolding next_level
next_level-deeper_level s rest indent n flow h = ground arith

-- Inside a node, where the level is not negative and the indent is not zero, increaseIndent pushes the
-- level and leaves it where it is told not to indent; else it sets a deeper one: two more in a block
-- sequence, and elsewhere the next multiple of the indent.
pub increase_indent-Deeper :
    (flow indentless : Bool) (e : Emitter) (n : ℕ) (s : EmitterState) (rest : List EmitterState)
    → e.indent_level ≡ pos n
    → e.states ≡ s ∷ rest
    → 0 < e.indent
    → (m : ℕ) × Leveled indentless s e.indent n m
      × (increase_indent flow indentless e
          ≡ ok tt
              (record e { indent_stack = e.indent_level ∷ e.indent_stack; indent_level = pos m }))
unfolding increase_indent next_level
increase_indent-Deeper flow true e n s rest p q h = (n, refl, rw p refl)
increase_indent-Deeper flow false e n s rest p q h =
    let next : next_level e.indent e.indent_level e.states flow false
        ≡ some (pos (deeper_level s e.indent n)) =
      rw (p, q) (next_level-deeper_level s rest e.indent n flow h) in
    (deeper_level s e.indent n, deeper_level-Deeper s e.indent n h, rw next refl)
