-- ===== src/Encoder/Replay.antt =====
-- The Encoder of encode.go over any emitter, beside the same calls over one that keeps every event.
use yaml.Common.{
  ◌≡◌, refl, ap, ◌∙◌, Bool, true, false, List, [], ◌∷◌, ◌++◌, ◌⊎◌, inl, inr, if◌then◌else◌,
}
use yaml.Event.{Event}
use yaml.Run.{Outcome, ok, err, panic, exhausted, ◌>>=◌, pure}
use yaml.Encoder.State.{
  Sink, Encoder, Error, emitting, resolving, binary_not_encoded, invalid_utf8, unknown_kind, M,
  emit,
}
use yaml.Encoder.Trees.{recorder}

-- It keeps every event.
abbrev pub collector : Sink (List Event) (Unit {0})
collector = recorder (λ log event. true)

-- An error of the encoder's own, also over another emitter.
abbrev pub Own : {E E' : Type 0} → Error E → Error E' → Type 0
Own (emitting x) y = ⊥
Own (resolving tag) y = y ≡ resolving tag
Own binary_not_encoded y = y ≡ binary_not_encoded
Own (invalid_utf8 tag) y = y ≡ invalid_utf8 tag
Own (unknown_kind k) y = y ≡ unknown_kind k

-- The encoder, over the state of an emitter.
abbrev pub over : {S T : Type 0} → S → Encoder T → Encoder S
over s e = record {
  emitter = s;
  flow = e.flow;
  started = e.started;
  shorts = e.shorts;
  longs = e.longs;
}

-- How Emit fails: the encoder then ends in the same way.
pub data Failure (S E : Type 0) : Type 0 where
  refused : E → Encoder S → Failure S E
  broke : Failure S E
  spent : Failure S E

abbrev pub of_emit : {S E : Type 0} → Failure S E → Outcome S E (Unit {0})
of_emit (refused x e) = err x e.emitter
of_emit broke = panic
of_emit spent = exhausted

abbrev pub of_encoder : {S E A : Type 0} → Failure S E → Outcome (Encoder S) (Error E) A
of_encoder (refused x e) = err (emitting x) e
of_encoder broke = panic
of_encoder spent = exhausted

module _ {S E : Type 0} (sink : Sink S E) where
  -- Emit of one event after the other.
  unfoldable pub feed : List Event → S → Outcome S E (Unit {0})
  feed [] s = ok tt s
  feed (event ∷ events) s = (sink.emit event false >>= λ u. feed events) s

  feed-snoc :
      (events : List Event) (event : Event) (s : S)
      → feed (events ++ event ∷ []) s ≡ (feed events >>= λ u. sink.emit event false) s
  unfolding feed
  feed-snoc [] event s = last (sink.emit event false s)
    where
      last :
          (r : Outcome S E (Unit {0}))
          → ◌≡◌ {A = Outcome S E (Unit {0})}
              (elim r [
                | ok u s' ↦ ok tt s'
                | err x s' ↦ err x s'
                | panic ↦ panic
                | exhausted ↦ exhausted
              ])
              r
      last (ok u s') = refl
      last (err x s') = refl
      last panic = refl
      last exhausted = refl
  feed-snoc (e ∷ events) event s = go (feed-snoc events event) (sink.emit e false s)
    where
      go :
          ((s : S) → feed (events ++ event ∷ []) s ≡ (feed events >>= λ u. sink.emit event false) s)
          → (r : Outcome S E (Unit {0}))
          → ((λ (t : S). r) >>= λ u. feed (events ++ event ∷ [])) s
            ≡ (((λ (t : S). r) >>= λ u. feed events) >>= λ u. sink.emit event false) s
      go again (ok u s') = again s'
      go again (err x s') = refl
      go again panic = refl
      go again exhausted = refl

  module _ (s₀ : S) where
    -- How the emitter has taken the events of the collector.
    abbrev pub Follows :
        {A : Type 0}
        → Outcome (Encoder (List Event)) (Error (Unit {0})) A
        → Outcome (Encoder S) (Error E) A
        → Type 0
    Follows {A} (ok a e) r =
        ((s : S) × (feed e.emitter s₀ ≡ ok tt s) × (r ≡ ok a (over s e)))
        ⊎ ((w : Failure S E) × (feed e.emitter s₀ ≡ of_emit w) × (r ≡ of_encoder w))
    Follows {A} (err x e) r =
        ((s : S) × (y : Error E) × Own x y × (feed e.emitter s₀ ≡ ok tt s) × (r ≡ err y (over s e)))
        ⊎ ((w : Failure S E) × (feed e.emitter s₀ ≡ of_emit w) × (r ≡ of_encoder w))
    Follows panic r = Unit
    Follows exhausted r = Unit

    -- Once the emitter has failed, it has failed on what follows.
    abbrev pub Failed :
        {A : Type 0} → Failure S E → Outcome (Encoder (List Event)) (Error (Unit {0})) A → Type 0
    Failed w (ok a e) = feed e.emitter s₀ ≡ of_emit w
    Failed w (err x e) = feed e.emitter s₀ ≡ of_emit w
    Failed w panic = Unit
    Failed w exhausted = Unit

    -- The same code over the two emitters.
    pub record Alike {A : Type 0} (m : M (List Event) (Unit {0}) A) (m' : M S E A) : Type 0 where
      pub live :
          (e : Encoder (List Event)) (s : S)
          → feed e.emitter s₀ ≡ ok tt s
          → Follows (m e) (m' (over s e))
      pub dead :
          (e : Encoder (List Event)) (w : Failure S E)
          → feed e.emitter s₀ ≡ of_emit w
          → Failed w (m e)

    pub Alike-pure : {A : Type 0} (a : A) → Alike (pure a) (pure a)
    Alike-pure a = record { live = λ e s h. inl (s, h, refl); dead = λ e w h. h }

    pub Alike-if :
        {A : Type 0} (b : Bool) {m n : M (List Event) (Unit {0}) A} {m' n' : M S E A}
        → Alike m m'
        → Alike n n'
        → Alike (if b then m else n) (if b then m' else n')
    Alike-if true h g = h
    Alike-if false h g = g

    failing :
        {A B : Type 0} (w : Failure S E) (f : A → M S E B) (e : Encoder S)
        → ((λ (t : Encoder S). of_encoder {A = A} w) >>= f) e ≡ of_encoder w
    failing (refused x e') f e = refl
    failing broke f e = refl
    failing spent f e = refl

    pub Failed-Follows :
        {A : Type 0} (r : Outcome (Encoder (List Event)) (Error (Unit {0})) A) (w : Failure S E)
        {r' : Outcome (Encoder S) (Error E) A}
        → Failed w r
        → r' ≡ of_encoder w
        → Follows r r'
    Failed-Follows (ok a e) w k same = inr (w, k, same)
    Failed-Follows (err x e) w k same = inr (w, k, same)
    Failed-Follows panic w k same = tt
    Failed-Follows exhausted w k same = tt

    pub Alike-bind :
        {A B : Type 0} (m : M (List Event) (Unit {0}) A) (m' : M S E A)
        (f : A → M (List Event) (Unit {0}) B) (f' : A → M S E B)
        → Alike m m'
        → ((a : A) → Alike (f a) (f' a))
        → Alike (m >>= f) (m' >>= f')
    Alike-bind {A} {B} m m' f f' h g = record {
      live = λ e s fed. living (m e) (m' (over s e)) (over s e) (h.live e s fed);
      dead = λ e w fed. dying w (m e) (h.dead e w fed);
    }
      where
        after : Outcome (Encoder S) (Error E) A → Encoder S → Outcome (Encoder S) (Error E) B
        after r e = ((λ (t : Encoder S). r) >>= f') e

        living :
            (r : Outcome (Encoder (List Event)) (Error (Unit {0})) A)
            (r' : Outcome (Encoder S) (Error E) A) (e' : Encoder S)
            → Follows r r'
            → Follows
                (elim r [
                  | ok a s' ↦ f a s'
                  | err x s' ↦ err x s'
                  | panic ↦ panic
                  | exhausted ↦ exhausted
                ])
                (after r' e')
        living (ok a e) r' e' (inl (s, fed, same)) = rw same ((g a).live e s fed)
        living (ok a e) r' e' (inr (w, fed, same)) =
            rw same (Failed-Follows (f a e) w ((g a).dead e w fed) (failing w f' e'))
        living (err x e) r' e' (inl (s, y, own, fed, same)) = rw same (inl (s, y, own, fed, refl))
        living (err x e) r' e' (inr (w, fed, same)) = rw same (inr (w, fed, failing w f' e'))
        living panic r' e' k = tt
        living exhausted r' e' k = tt

        dying :
            (w : Failure S E) (r : Outcome (Encoder (List Event)) (Error (Unit {0})) A)
            → Failed w r
            → Failed w (elim r [
              | ok a s' ↦ f a s'
              | err x s' ↦ err x s'
              | panic ↦ panic
              | exhausted ↦ exhausted
            ])
        dying w (ok a e) k = (g a).dead e w k
        dying w (err x e) k = k
        dying w panic k = tt
        dying w exhausted k = tt

    -- Emit keeps the event on the one side, and gives it to the emitter on the other.
    pub Alike-emit : (event : Event) → Alike (emit collector false event) (emit sink false event)
    unfolding emit
    Alike-emit event = record {
      live = λ e s fed.
          emitted e s
            (feed-snoc e.emitter event s₀
              ∙ ap (λ r. ((λ (t : S). r) >>= λ u. sink.emit event false) s₀) fed)
            (sink.emit event false s) refl;
      dead = λ e w fed.
          feed-snoc e.emitter event s₀
          ∙ ap (λ r. ((λ (t : S). r) >>= λ u. sink.emit event false) s₀) fed
          ∙ still w;
    }
      where
        still :
            (w : Failure S E)
            → ((λ (t : S). of_emit w) >>= λ u. sink.emit event false) s₀ ≡ of_emit w
        still (refused x e) = refl
        still broke = refl
        still spent = refl

        emitted :
            (e : Encoder (List Event)) (s : S)
            → feed (e.emitter ++ event ∷ []) s₀ ≡ sink.emit event false s
            → (r : Outcome S E (Unit {0})) → sink.emit event false s ≡ r
            → Follows {A = Unit} (ok tt (record e { emitter = e.emitter ++ event ∷ [] })) (elim r [
              | ok u s ↦ ok tt (over s e)
              | err x s ↦ err (emitting x) (over s e)
              | panic ↦ panic
              | exhausted ↦ exhausted
            ])
        emitted e s fed (ok tt s') eq = inl (s', fed ∙ eq, refl)
        emitted e s fed (err x s') eq = inr (refused x (over s' e), fed ∙ eq, refl)
        emitted e s fed panic eq = inr (broke, fed ∙ eq, refl)
        emitted e s fed exhausted eq = inr (spent, fed ∙ eq, refl)
