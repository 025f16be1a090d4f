-- ===== src/NodeParser/Pending.antt =====
-- The events that the parser of decode.go has before it, against the grammar of events.
use yaml.Common.{
  ℕ, suc, ◌<◌, ◌≤◌, ◌≡◌, ◌⊎◌, inl, inr, refl, ap, sym, ◌∙◌, subst, true, false, not, Option, none,
  some, List, [], ◌∷◌, length, get_elem?, Bool-cases, arith,
}
use yaml.Event.{
  Event, EventType, ◌is_type◌, no_event, stream_start, stream_end, document_start, document_end,
  alias, scalar, sequence_start, sequence_end, mapping_start, mapping_end, tail_comment_event,
  number,
}
use yaml.Run.{ok, err, when, Ends, returns, raises, Ends-bind, Ends-if, Ends-when}
use yaml.Parser.Grammar.{
  Goal, whole_stream, documents, document_closing, node, items, pairs, accept,
}
use yaml.NodeParser.State.{NodeParser, parsing, peek, expect, next_event}

-- The types of the events may come in this order.
abbrev pub Open : List Goal → List Event → Type 0
Open gs [] = Unit
Open gs (e ∷ es) = elim (accept gs e.event_type) [ none ↦ ⊥ | some gs' ↦ Open gs' es ]

-- There is no current event, and there are less than `m` others.
pub record Ready (gs : List Goal) (m : ℕ) (t : EventType) (es : List Event) : Type 0 where
  pub idle : t ≡ no_event
  pub allowed : Open gs es
  pub bound : length es < m

-- There is a current event, and less than `m` with it.
pub record Looked (gs : List Goal) (m : ℕ) (t : EventType) (es : List Event) : Type 0 where
  pub behind : List Goal
  pub accepted : accept gs t ≡ some behind
  pub allowed : Open behind es
  pub bound : suc (length es) < m

abbrev pub Near : List Goal → ℕ → EventType → List Event → Type 0
Near gs m t es = Ready gs m t es ⊎ Looked gs m t es

numbered : ℕ → EventType
numbered n =
    elim (get_elem?
      (no_event ∷ stream_start ∷ stream_end ∷ document_start ∷ document_end ∷ alias ∷ scalar
        ∷ sequence_start ∷ sequence_end ∷ mapping_start ∷ mapping_end ∷ tail_comment_event ∷ [])
      n) [ none ↦ no_event | some t ↦ t ]

numbered-number : (t : EventType) → numbered (number t) ≡ t
unfolding numbered
numbered-number no_event = refl
numbered-number stream_start = refl
numbered-number stream_end = refl
numbered-number document_start = refl
numbered-number document_end = refl
numbered-number alias = refl
numbered-number scalar = refl
numbered-number sequence_start = refl
numbered-number sequence_end = refl
numbered-number mapping_start = refl
numbered-number mapping_end = refl
numbered-number tail_comment_event = refl

pub is_type_sound : (a b : EventType) → (a is_type b) ≡ true → a ≡ b
is_type_sound a b e =
    let same : number a ≡ number b = ground (arith, e) in
    sym (numbered-number a) ∙ ap numbered same ∙ numbered-number b

accept-no_event : (gs : List Goal) → accept gs no_event ≡ none
accept-no_event [] = refl
accept-no_event (whole_stream ∷ gs) = refl
accept-no_event (documents ∷ gs) = refl
accept-no_event (document_closing ∷ gs) = refl
accept-no_event (node ∷ gs) = refl
accept-no_event (items ∷ gs) = refl
accept-no_event (pairs ∷ gs) = refl

accepted-present :
    (gs : List Goal) (t : EventType) {gs' : List Goal}
    → accept gs t ≡ some gs'
    → (t is_type no_event) ≡ false
accepted-present gs t e = elim (Bool-cases (t is_type no_event)) [
  | inl h ↦ let same = is_type_sound t no_event h in let refused = accept-no_event gs in cc
  | inr h ↦ h
]

pub positive : {gs : List Goal} {t : EventType} {es : List Event} → Near gs 0 t es → ⊥
positive (inl r) = omega (arith, r.bound)
positive (inr l) = omega (arith, l.bound)

module _ {gs : List Goal} {m n : ℕ} {t : EventType} {es : List Event} (h : m ≤ n) where
  pub Ready-weaken : Ready gs m t es → Ready gs n t es
  Ready-weaken r = record { idle = r.idle; allowed = r.allowed; bound = omega (arith, h, r.bound) }

  pub Looked-weaken : Looked gs m t es → Looked gs n t es
  Looked-weaken l = record {
    behind = l.behind;
    accepted = l.accepted;
    allowed = l.allowed;
    bound = omega (arith, h, l.bound);
  }

first-Open :
    {gs : List Goal} {m : ℕ} (e : Event) (es : List Event)
    → length (e ∷ es) < m
    → Open gs (e ∷ es)
    → Looked gs m e.event_type es
first-Open {gs} {m} e es h o = go (accept gs e.event_type) refl o
  where
    go :
        (r : Option (List Goal))
        → accept gs e.event_type ≡ r
        → let rest : Type 0 = elim r [ none ↦ ⊥ | some gs' ↦ Open gs' es ] in
          rest → Looked gs m e.event_type es
    go none eq o = absurd o
    go (some gs') eq o = record { behind = gs'; accepted = eq; allowed = o; bound = h }

-- peek and expect on what is pending; they leave the rest of the state.
module _ (I : NodeParser → Type 0)
    (I-events : (p : NodeParser) (event : Event) (events : List Event)
      → I p
      → I (record p { event = event; events = events }))
    {gs : List Goal} {m : ℕ} where
  next_event-Looked :
      (p : NodeParser)
      → Near gs m p.event.event_type p.events
      → I p
      → Ends
          (λ _ q. Looked gs m q.event.event_type q.events × I q)
          (when (p.event.event_type is_type no_event) next_event p)
  unfolding next_event
  next_event-Looked p (inl r) i =
      Ends-when _ next_event p (λ _. go p.events r.bound r.allowed)
        (λ e.
          let same : (p.event.event_type is_type no_event) ≡ true =
            ap (λ t. t is_type no_event) r.idle in
          cc)
    where
      go :
          (es : List Event)
          → length es < m
          → Open gs es
          → Ends
              (λ _ q. Looked gs m q.event.event_type q.events × I q)
              (elim es [
                | [] ↦ err parsing p
                | e ∷ es ↦ ok tt (record p { event = e; events = es })
              ])
      go [] h o = raises
      go (e ∷ es) h o = returns (first-Open e es h o, I-events p e es i)
  next_event-Looked p (inr l) i =
      Ends-when _ next_event p (λ e. let present = accepted-present gs _ l.accepted in cc)
        (λ _. (l, i))

  pub peek-Looked :
      (p : NodeParser)
      → Near gs m p.event.event_type p.events
      → I p
      → Ends
          (λ t q. (t ≡ q.event.event_type) × Looked gs m q.event.event_type q.events × I q)
          (peek p)
  unfolding peek
  peek-Looked p n i =
      Ends-bind (when (p.event.event_type is_type no_event) next_event) _ p
        (next_event-Looked p n i) (λ _ q s. returns (refl, s.0, s.1))

pub expect-Ready :
    (I : NodeParser → Type 0)
    (I-events : (p : NodeParser) (event : Event) (events : List Event)
      → I p
      → I (record p { event = event; events = events }))
    {gs gs' : List Goal} {m : ℕ} (t : EventType) (p : NodeParser)
    → Near gs (suc m) p.event.event_type p.events
    → accept gs t ≡ some gs'
    → I p
    → Ends (λ _ q. Ready gs' m q.event.event_type q.events × I q) (expect t p)
unfolding expect
expect-Ready I I-events {gs} {gs'} {m} t p n a i =
    Ends-bind (when (p.event.event_type is_type no_event) next_event) _ p
      (next_event-Looked I I-events p n i)
      (λ _ q (l, j).
        Ends-if (q.event.event_type is_type stream_end) _ _ q (λ _. raises)
          (λ _.
            Ends-if (not (q.event.event_type is_type t)) _ _ q (λ _. raises)
              (λ e. returns (
                record {
                  idle = refl;
                  allowed =
                      subst (λ gs. Open gs q.events) (found q.event.event_type l.accepted e)
                        l.allowed;
                  bound = omega (arith, l.bound);
                },
                I-events q _ _ j,
              ))))
  where
    found :
        {behind : List Goal} (s : EventType)
        → accept gs s ≡ some behind
        → not (s is_type t) ≡ false
        → behind ≡ gs'
    found s b e = let same = is_type_sound s t (ground (arith, e)) in cc
