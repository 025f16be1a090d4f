-- ===== src/Run.antt =====
-- Methods with a receiver: functions from the state to how the call ends. The parser uses this monad.
use yaml.Common.{◌≡◌, refl, Bool, true, false, Option, none, some, if◌then◌else◌}

-- How a call ends: with a value, with an error, by a Go panic, or by running out of the fuel of a
-- loop.
pub data Outcome (S E A : Type 0) : Type 0 where
  ok : A → S → Outcome S E A
  err : E → S → Outcome S E A
  panic : Outcome S E A
  exhausted : Outcome S E A

infixl 5 ◌>>=◌ ◌>>◌
abbrev pub ◌>>=◌ :
    {S E A B : Type 0} → (S → Outcome S E A) → (A → S → Outcome S E B) → S → Outcome S E B
◌>>=◌ m f s = elim (m s) [
  | ok a s' ↦ f a s'
  | err x s' ↦ err x s'
  | panic ↦ panic
  | exhausted ↦ exhausted
]

abbrev pub ◌>>◌ :
    {S E B : Type 0} → (S → Outcome S E (Unit {0})) → (S → Outcome S E B) → S → Outcome S E B
m >> k = m >>= λ _. k

abbrev pub pure : {S E A : Type 0} → A → S → Outcome S E A
pure a s = ok a s

abbrev pub get : {S E : Type 0} → S → Outcome S E S
get s = ok s s

abbrev pub modify : {S E : Type 0} → (S → S) → S → Outcome S E (Unit {0})
modify f s = ok tt (f s)

abbrev pub fail : {S E A : Type 0} → E → S → Outcome S E A
fail x s = err x s

-- The value of an expression that indexes or cuts a slice.
abbrev pub checked : {S E A : Type 0} → Option A → S → Outcome S E A
checked none s = panic
checked (some a) s = ok a s

abbrev pub when : {S E : Type 0} → Bool → (S → Outcome S E (Unit {0})) → S → Outcome S E (Unit {0})
when true m s = m s
when false m s = ok tt s

-- The call returns a value and a state that meet `Q`, or an error; it neither panics nor runs out of
-- fuel.
pub data Ends {S E A : Type 0} (Q : A → S → Type 0) : Outcome S E A → Type 0 where
  returns : {a : A} {s : S} → Q a s → Ends Q (ok a s)
  raises : {x : E} {s : S} → Ends Q (err x s)

module _ {S E : Type 0} where
  pub Ends-bind :
      {A B : Type 0} {P : A → S → Type 0} {Q : B → S → Type 0} (m : S → Outcome S E A)
      (f : A → S → Outcome S E B) (s : S)
      → Ends P (m s)
      → ((a : A) (s' : S) → P a s' → Ends Q (f a s'))
      → Ends Q ((m >>= f) s)
  Ends-bind {A} {B} {P} {Q} m f s h g = go (m s) h
    where
      go :
          (r : Outcome S E A)
          → Ends P r
          → Ends Q (elim r [
            | ok a s' ↦ f a s'
            | err x s' ↦ err x s'
            | panic ↦ panic
            | exhausted ↦ exhausted
          ])
      go _ (returns p) = g _ _ p
      go _ raises = raises

  pub Ends-map :
      {A : Type 0} {P Q : A → S → Type 0} {r : Outcome S E A}
      → ((a : A) (s : S) → P a s → Q a s)
      → Ends P r
      → Ends Q r
  Ends-map f (returns p) = returns (f _ _ p)
  Ends-map f raises = raises

  pub Ends-if :
      {A : Type 0} {Q : A → S → Type 0} (b : Bool) (m n : S → Outcome S E A) (s : S)
      → (b ≡ true → Ends Q (m s))
      → (b ≡ false → Ends Q (n s))
      → Ends Q ((if b then m else n) s)
  Ends-if true m n s h g = h refl
  Ends-if false m n s h g = g refl

  pub Ends-either :
      {A : Type 0} {Q : A → S → Type 0} (b : Bool) {r t : Outcome S E A}
      → (b ≡ true → Ends Q r)
      → (b ≡ false → Ends Q t)
      → Ends Q (if b then r else t)
  Ends-either true h g = h refl
  Ends-either false h g = g refl

  pub Ends-when :
      {Q : Unit {0} → S → Type 0} (b : Bool) (m : S → Outcome S E (Unit {0})) (s : S)
      → (b ≡ true → Ends Q (m s))
      → (b ≡ false → Q tt s)
      → Ends Q (when b m s)
  Ends-when true m s h g = h refl
  Ends-when false m s h g = returns (g refl)
