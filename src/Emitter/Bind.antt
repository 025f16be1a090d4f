-- ===== src/Emitter/Bind.antt =====
-- Lemmas on the monad of the emitter: inversion of a successful bind, and a postcondition that rules
-- out panics and exhausted loops.
use yaml.Common.{◌≡◌, refl}
use yaml.Emitter.State.{Emitter, Error, Outcome, ok, err, panic, exhausted, M, ◌>>=◌}

outcome-eq-ok :
    {A B : Type 0} (r : Outcome A) (f : A → M B) {b : B} {e' : Emitter}
    → (elim r [ ok a e₁ ↦ f a e₁ | err x e₁ ↦ err x e₁ | panic ↦ panic | exhausted ↦ exhausted ])
      ≡ ok b e'
    → (a : A) × (e₁ : Emitter) × (r ≡ ok a e₁) × (f a e₁ ≡ ok b e')
outcome-eq-ok (ok a e₁) f h = (a, e₁, refl, h)
outcome-eq-ok (err x e₁) f h = cc
outcome-eq-ok panic f h = cc
outcome-eq-ok exhausted f h = cc

pub >>=-eq-ok :
    {A B : Type 0} (m : M A) (f : A → M B) {b : B} (e : Emitter) {e' : Emitter}
    → (m >>= f) e ≡ ok b e'
    → (a : A) × (e₁ : Emitter) × (m e ≡ ok a e₁) × (f a e₁ ≡ ok b e')
>>=-eq-ok m f e h = outcome-eq-ok (m e) f h

pub ok-injective : {A : Type 0} {a b : A} {e e' : Emitter} → ok a e ≡ ok b e' → e ≡ e'
ok-injective h = cc

-- The run returns a value that meets `Q`, or an error; it neither panics nor runs out of fuel.
pub data Ends {A : Type 0} (Q : A → Emitter → Type 0) : Outcome A → Type 0 where
  returns : {a : A} {e : Emitter} → Q a e → Ends Q (ok a e)
  raises : {x : Error} {e : Emitter} → Ends Q (err x e)

-- The weakest condition of a sequence is that of its first part.
pub Ends-bind :
    {A B : Type 0} {Q : B → Emitter → Type 0} (m : M A) (f : A → M B) (e : Emitter)
    → Ends (λ a e₁. Ends Q (f a e₁)) (m e)
    → Ends Q ((m >>= f) e)
Ends-bind {A} {B} {Q} m f e h = go (m e) h
  where
    go :
        (r : Outcome A)
        → Ends (λ a e₁. Ends Q (f a e₁)) r
        → Ends Q (elim r [
          | ok a e₁ ↦ f a e₁
          | err x e₁ ↦ err x e₁
          | panic ↦ panic
          | exhausted ↦ exhausted
        ])
    go _ (returns p) = p
    go _ raises = raises

pub Ends-map :
    {A : Type 0} {P Q : A → Emitter → Type 0} {r : Outcome A}
    → ((a : A) (e : Emitter) → P a e → Q a e)
    → Ends P r
    → Ends Q r
Ends-map f (returns p) = returns (f _ _ p)
Ends-map f raises = raises
