-- ===== src/Emitter/Sound.antt =====
-- Runs of the emitter that neither panic nor run out of fuel: the invariant on the pending comments,
-- the part of the state that output leaves alone, and a rule for each construct of the monad.
pub mod Write
pub mod Comment
pub mod Scalar
pub mod Quoted
pub mod Literal
pub mod Styled
pub mod Texts
pub mod Properties
use yaml.Common.{
  ℕ, zero, suc, ◌≤◌, ◌<◌, ◌≡◌, ◌≢◌, refl, sym, ap, subst, ◌∙◌, Bool, true, false, Option, none,
  some, [], ◌∷◌, Bytes, length, arith,
}
use yaml.Chars.Text.{Text}
use yaml.Emitter.State.{
  Emitter, M, ◌>>=◌, pure, get, modify, fail, when, checked, walk, for_value, Error,
}
use yaml.Emitter.Bind.{Ends, returns, raises, Ends-bind, Ends-map}
use yaml.Emitter.Frame.{fixed}

-- The pending comments are text.
pub record Sound (e : Emitter) : Type 0 where
  pub head : Text e.head_comment
  pub line : Text e.line_comment
  pub foot : Text e.foot_comment
  pub tail : Text e.tail_comment
  pub key : Text e.key_line_comment

-- The emitter with the output fields and the comments erased: what no writer changes.
abbrev pub stem : Emitter → Emitter
stem e = record (fixed e) {
  head_comment = [];
  line_comment = [];
  foot_comment = [];
  tail_comment = [];
  key_line_comment = [];
}

pub record Kept (k : Emitter) {A : Type 0} (Q : A → Type 0) (a : A) (e : Emitter) : Type 0 where
  pub sound : Sound e
  pub kept : stem e ≡ k
  pub result : Q a

-- From a sound state with the stem `k`, the run ends in one, with a result that meets `Q`.
abbrev pub Meets : Emitter → {A : Type 0} → (A → Type 0) → M A → Type 0
Meets k Q m = (e : Emitter) → Sound e → stem e ≡ k → Ends (Kept k Q) (m e)

abbrev pub Any : {A : Type 0} → A → Type 0
Any a = Unit

-- The same for an action with no result that matters.
abbrev pub Keeps : Emitter → {A : Type 0} → M A → Type 0
Keeps k m = Meets k Any m

module _ {k : Emitter} where
  pub Meets-bind :
      {A B : Type 0} {P : A → Type 0} {Q : B → Type 0} {m : M A} {f : A → M B}
      → Meets k P m
      → ((a : A) → P a → Meets k Q (f a))
      → Meets k Q (m >>= f)
  Meets-bind {m = m} {f = f} h g e s p =
      Ends-bind m f e (Ends-map (λ a e₁ q. g a q.result e₁ q.sound q.kept) (h e s p))

  pub Meets-pure : {A : Type 0} {Q : A → Type 0} {a : A} → Q a → Meets k Q (pure a)
  Meets-pure q e s p = returns (record { sound = s; kept = p; result = q })

  pub Meets-fail : {A : Type 0} {Q : A → Type 0} {x : Error} → Meets k Q (fail x)
  Meets-fail e s p = raises

  pub Keeps-modify :
      {f : Emitter → Emitter}
      → ((e : Emitter) → Sound e → stem e ≡ k → Sound (f e) × (stem (f e) ≡ k))
      → Keeps k (modify f)
  Keeps-modify g e s p =
      let (s', p') = g e s p in returns (record { sound = s'; kept = p'; result = tt })

  pub Keeps-when : (b : Bool) {m : M (Unit {0})} → Keeps k m → Keeps k (when b m)
  Keeps-when true h e s p = h e s p
  Keeps-when false h e s p = returns (record { sound = s; kept = p; result = tt })

  pub Meets-checked : {A : Type 0} (o : Option A) → o ≢ none → Keeps k (checked o)
  Meets-checked none h e s p = absurd (h refl)
  Meets-checked (some a) h e s p = returns (record { sound = s; kept = p; result = tt })

  -- An output action, which changes only what `fixed` erases.
  pub Keeps-output :
      {A : Type 0} {m : M A} → ((e : Emitter) → Ends (λ _ e'. fixed e' ≡ fixed e) (m e)) → Keeps k m
  Keeps-output g e s p =
      Ends-map
        (λ a e' q. record {
          sound = record {
            head = subst Text (ap (λ (x : Emitter). x.head_comment) (sym q)) s.head;
            line = subst Text (ap (λ (x : Emitter). x.line_comment) (sym q)) s.line;
            foot = subst Text (ap (λ (x : Emitter). x.foot_comment) (sym q)) s.foot;
            tail = subst Text (ap (λ (x : Emitter). x.tail_comment) (sym q)) s.tail;
            key = subst Text (ap (λ (x : Emitter). x.key_line_comment) (sym q)) s.key;
          };
          kept = ap stem q ∙ p;
          result = tt;
        })
        (g e)

-- What a round of a loop over text returns: shorter text, behind the loop's variables.
pub record Less {S : Type 0} (n : ℕ) (r : S × Bytes) : Type 0 where
  pub text : Text r.1
  pub less : length r.1 < n

module _ {k : Emitter} {S : Type 0} (body : S → Bytes → M (S × Bytes)) where
  -- If each round shortens the text, the loop ends within as many rounds as the text has bytes.
  Keeps-walk :
      ((s : S) (c : ℕ) (b : Bytes)
        → Text (c ∷ b)
        → Meets k (Less (length (c ∷ b))) (body s (c ∷ b)))
      → (fuel : ℕ) (s : S) (value : Bytes) → Text value
      → length value ≤ fuel
      → Keeps k (walk body fuel s value)
  unfolding walk
  Keeps-walk h fuel s [] t le e snd p = returns (record { sound = snd; kept = p; result = tt })
  Keeps-walk h zero s (c ∷ b) t le e snd p = absurd (omega arith)
  Keeps-walk h (suc fuel) s (c ∷ b) t le e snd p =
      Meets-bind {m = body s (c ∷ b)} (h s c b t)
        (λ r q. Keeps-walk h fuel r.0 r.1 q.text (omega (arith, q.less))) e snd p

  pub Keeps-for_value :
      ((s : S) (c : ℕ) (b : Bytes)
        → Text (c ∷ b)
        → Meets k (Less (length (c ∷ b))) (body s (c ∷ b)))
      → (s : S) (value : Bytes) → Text value
      → Keeps k (for_value body s value)
  unfolding for_value
  Keeps-for_value h s value t = Keeps-walk h (length value) s value t (omega arith)
