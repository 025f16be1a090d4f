-- ===== src/Emitter/Collected.antt =====
-- The anchor that analyzeEvent of internal/emitter/analyze.go stores for a sequence or a mapping.
use yaml.Common.{◌≡◌, Bool, true, false, not, ◌&&◌, some, [], ◌∷◌, ℕ, Bytes, is_empty, arith}
use yaml.Event.{Event, EventType, sequence_start, mapping_start}
use yaml.Emitter.State.{Emitter, Outcome, ok, when}
use yaml.Emitter.Analyze.{
  prepare, analyze_anchor, analyze_tag, analyze_collection, analyze_by_type, analyze_event,
}
use yaml.Emitter.Bind.{>>=-eq-ok}
use yaml.Emitter.Anchor.{Judged, stored, refused, analyze_anchor-Judged}

analyze_tag-anchor_data :
    (tag : Bytes) (e e' : Emitter) → analyze_tag tag e ≡ ok tt e' → e'.anchor_data ≡ e.anchor_data
unfolding analyze_tag
analyze_tag-anchor_data [] e e' h = cc
analyze_tag-anchor_data (c ∷ b) e e' h = ground arith

tag-anchor_data :
    (run : Bool) (tag : Bytes) (e e' : Emitter)
    → when run (analyze_tag tag) e ≡ ok tt e'
    → e'.anchor_data ≡ e.anchor_data
tag-anchor_data true tag e e' h = analyze_tag-anchor_data tag e e' h
tag-anchor_data false tag e e' h = cc

Judged-anchor_data :
    {anchor : Bytes} {is_alias : Bool} {e e' : Emitter} {r : Outcome (Unit {0})}
    → Judged anchor is_alias e r
    → r ≡ ok tt e'
    → e'.anchor_data ≡ record { anchor = some anchor; is_alias = is_alias }
Judged-anchor_data (stored _) h = cc
Judged-anchor_data (refused _ _) h = cc

analyze_collection-anchor_data :
    (event : Event) (c : ℕ) (b : Bytes) (e e' : Emitter)
    → event.anchor ≡ c ∷ b
    → analyze_collection event e ≡ ok tt e'
    → e'.anchor_data ≡ record { anchor = some (c ∷ b); is_alias = true }
unfolding analyze_collection
analyze_collection-anchor_data event c b e e' p h =
    let (_, e₁, anchored, rest) =
      >>=-eq-ok (when (not (is_empty event.anchor)) (analyze_anchor event.anchor true))
        (λ _. when (not (is_empty event.tag) && not event.implicit) (analyze_tag event.tag)) e h in
    let at₁ = Judged-anchor_data (analyze_anchor-Judged (c ∷ b) true e) (rw p at anchored) in
    let kept = tag-anchor_data _ event.tag e₁ e' rest in cc

-- A sequence or a mapping.
pub data IsCollection : EventType → Type 0 where
  a_sequence : IsCollection sequence_start
  a_mapping : IsCollection mapping_start

analyze_by_type-anchor_data :
    (t : EventType) (event : Event) (c : ℕ) (b : Bytes) (e e' : Emitter)
    → IsCollection t
    → event.anchor ≡ c ∷ b
    → analyze_by_type t event e ≡ ok tt e'
    → e'.anchor_data ≡ record { anchor = some (c ∷ b); is_alias = true }
unfolding analyze_by_type
analyze_by_type-anchor_data _ event c b e e' a_sequence p h =
    analyze_collection-anchor_data event c b e e' p h
analyze_by_type-anchor_data _ event c b e e' a_mapping p h =
    analyze_collection-anchor_data event c b e e' p h

-- When analyzeEvent succeeds on the start of a sequence or a mapping whose anchor is not empty, it has
-- stored that anchor, marked as an alias.
pub analyze_event-anchor_data :
    (event : Event) (c : ℕ) (b : Bytes) (e e' : Emitter)
    → IsCollection event.event_type
    → event.anchor ≡ c ∷ b
    → analyze_event event e ≡ ok tt e'
    → e'.anchor_data ≡ record { anchor = some (c ∷ b); is_alias = true }
unfolding analyze_event
analyze_event-anchor_data event c b e e' t p h =
    analyze_by_type-anchor_data event.event_type event c b (prepare event e) e' t p h
