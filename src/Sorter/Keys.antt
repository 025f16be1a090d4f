-- ===== src/Sorter/Keys.antt =====
-- Less of internal/sorter/sorter.go on the keys that reflection shows, and that it does not panic.
use yaml.Common.{
  Bytes, ℕ, ◌+◌, ◌<◌, ◌≡◌, refl, ℤ, pos, negsuc, Bool, true, false, not, ◌&&◌, Option, none, some,
  ltb, ◌==◌, if◌then◌else◌, arith,
}
use yaml.Sorter.{Unicode, string_less}

-- What Less uses of float64: the conversion from an integer, `==` and `<`.
pub record Floats (F : Type 0) : Type 0 where
  pub of_int : ℤ → F
  pub equal : F → F → Bool
  pub less_than : F → F → Bool

-- A reflect.Value by its kind: the number of an integer or a float in the list of its kinds, and for
-- other kinds, nil pointers and nil interfaces the kind. A pointer or an interface holds a value.
pub data Key (F : Type 0) : Type 0 where
  bool_key : Bool → Key F
  int_key : ℕ → ℤ → Key F
  uint_key : ℕ → ℕ → Key F
  float_key : ℕ → F → Key F
  string_key : Bytes → Key F
  other_key : ℕ → Key F
  pointer_key : Key F → Key F

unfoldable pub int_less : ℤ → ℤ → Bool
int_less (pos m) (pos n) = ltb m n
int_less (pos m) (negsuc n) = false
int_less (negsuc m) (pos n) = true
int_less (negsuc m) (negsuc n) = ltb n m

module _ {F : Type 0} where
  -- The numbers of the kinds in package reflect.
  unfoldable pub kind : Key F → ℕ
  kind (bool_key b) = 1
  kind (int_key n z) = 2 + n
  kind (uint_key n u) = 7 + n
  kind (float_key n f) = 13 + n
  kind (string_key s) = 24
  kind (other_key k) = k
  kind (pointer_key key) = 22

  -- The loops over Elem.
  unfoldable pub elem : Key F → Key F
  elem (pointer_key key) = elem key
  elem key = key

  -- The five kinds of int, the six of uint, and the two of floats.
  abbrev pub Sized : Key F → Type 0
  Sized (int_key n z) = n < 5
  Sized (uint_key n u) = n < 6
  Sized (float_key n f) = n < 2
  Sized (pointer_key key) = Sized key
  Sized _ = Unit

  module _ (floats : Floats F) where
    -- keyFloat
    unfoldable pub key_float : Key F → Option F
    key_float (int_key n z) = some (floats.of_int z)
    key_float (float_key n f) = some f
    key_float (uint_key n u) = some (floats.of_int (pos u))
    key_float (bool_key true) = some (floats.of_int (pos 1))
    key_float (bool_key false) = some (floats.of_int (pos 0))
    key_float _ = none

    -- numLess; `none` is its panic, or that of reflection on a value of another kind.
    unfoldable pub num_less : Key F → Key F → Option Bool
    unfolding int_less
    num_less (int_key m a) (int_key n b) = some (int_less a b)
    num_less (float_key m a) (float_key n b) = some (floats.less_than a b)
    num_less (uint_key m a) (uint_key n b) = some (ltb a b)
    num_less (bool_key a) (bool_key b) = some (not a && b)
    num_less _ _ = none

    module _ (unicode : Unicode) where
      -- Two keys of which one at least is no number.
      unfoldable pub other_less : Key F → Key F → Bool
      unfolding kind string_less
      other_less (string_key a) (string_key b) = string_less unicode a b
      other_less a b = ltb (kind a) (kind b)

      -- Less, behind the loops over Elem.
      unfoldable pub elem_less : Key F → Key F → Option Bool
      unfolding key_float num_less other_less kind
      elem_less a b = elim (key_float a) [
        | none ↦ some (other_less a b)
        | some af ↦ elim (key_float b) [
          | none ↦ some (other_less a b)
          | some bf ↦
              if not (floats.equal af bf)
              then some (floats.less_than af bf)
              else if not (kind a == kind b)
              then some (ltb (kind a) (kind b))
              else num_less a b
        ]
      ]

      -- Less
      unfoldable pub less : Key F → Key F → Option Bool
      unfolding elem elem_less
      less a b = elem_less (elem a) (elem b)

      numbers-Some :
          (a b : Key F) {af bf : F}
          → Sized a
          → Sized b
          → key_float a ≡ some af
          → key_float b ≡ some bf
          → kind a ≡ kind b
          → (r : Bool) × (num_less a b ≡ some r)
      unfolding num_less key_float kind
      numbers-Some (int_key m x) (int_key n y) s t e f k = (_, refl)
      numbers-Some (float_key m x) (float_key n y) s t e f k = (_, refl)
      numbers-Some (uint_key m x) (uint_key n y) s t e f k = (_, refl)
      numbers-Some (bool_key x) (bool_key y) s t e f k = (_, refl)
      numbers-Some _ _ s t e f k = absurd (ground (arith, s, t, e, f, k))

      -- On numbers and bools as they are, and on all other keys by kind or by string, Less decides.
      elem_less-Some : (a b : Key F) → Sized a → Sized b → (r : Bool) × (elem_less a b ≡ some r)
      unfolding elem_less
      elem_less-Some a b s t = first (key_float a) refl
        where
          equal_case :
              (af bf : F)
              → key_float a ≡ some af
              → key_float b ≡ some bf
              → (p q : Bool) → (kind a == kind b) ≡ q
              → (r : Bool) × ((if not p
                    then some (floats.less_than af bf)
                    else if not q
                    then some (ltb (kind a) (kind b))
                    else num_less a b)
                  ≡ some r)
          equal_case af bf e f false q k = (_, refl)
          equal_case af bf e f true false k = (_, refl)
          equal_case af bf e f true true k = numbers-Some a b s t e f (ground (arith, k))

          second :
              (af : F)
              → key_float a ≡ some af
              → (y : Option F) → key_float b ≡ y
              → (r : Bool) × (elim y [
                | none ↦ some (other_less a b)
                | some bf ↦
                    if not (floats.equal af bf)
                    then some (floats.less_than af bf)
                    else if not (kind a == kind b)
                    then some (ltb (kind a) (kind b))
                    else num_less a b
              ]
                  ≡ some r)
          second af e none f = (_, refl)
          second af e (some bf) f =
              equal_case af bf e f (floats.equal af bf) (kind a == kind b) refl

          first :
              (x : Option F)
              → key_float a ≡ x
              → (r : Bool) × (elim x [
                | none ↦ some (other_less a b)
                | some af ↦ elim (key_float b) [
                  | none ↦ some (other_less a b)
                  | some bf ↦
                      if not (floats.equal af bf)
                      then some (floats.less_than af bf)
                      else if not (kind a == kind b)
                      then some (ltb (kind a) (kind b))
                      else num_less a b
                ]
              ]
                  ≡ some r)
          first none e = (_, refl)
          first (some af) e = second af e (key_float b) refl

      elem-Sized : (a : Key F) → Sized a → Sized (elem a)
      unfolding elem
      elem-Sized (pointer_key key) s = elem-Sized key s
      elem-Sized (int_key n z) s = s
      elem-Sized (uint_key n z) s = s
      elem-Sized (float_key n z) s = s
      elem-Sized (bool_key b) s = s
      elem-Sized (string_key b) s = s
      elem-Sized (other_key b) s = s

      -- Less does not panic, whatever two keys it compares and whatever float64 answers, where the
      -- integers and floats in them are of the kinds that Go has.
      pub less-Some : (a b : Key F) → Sized a → Sized b → (r : Bool) × (less a b ≡ some r)
      unfolding less
      less-Some a b s t = elem_less-Some (elem a) (elem b) (elem-Sized a s) (elem-Sized b t)
