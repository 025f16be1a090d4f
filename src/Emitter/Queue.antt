-- ===== src/Emitter/Queue.antt =====
-- How far Emit of internal/emitter/emitter.go runs behind the events that it is given.
use yaml.Common.{
  ℕ, zero, suc, ◌≤◌, ◌≡◌, Bool, false, refl, List, [], ◌∷◌, length, arith, Bool-cases, inl, inr,
}
use yaml.Event.{Event, EventType, document_start, sequence_start, mapping_start}
use yaml.Emitter.State.{Emitter, ok}
use yaml.Emitter.Output.{ready, ready_to_emit}
use yaml.Emitter.Node.{pending}
use yaml.Emitter.Machine.{emit_one, emit_ready, enqueue, emit}
use yaml.Emitter.Bind.{>>=-eq-ok}

-- The events that may wait, by the type of the first: the one after the start of a document, two
-- from the start of a sequence and three from the start of a mapping, the start included.
abbrev lookahead : EventType → ℕ
lookahead document_start = 1
lookahead sequence_start = 2
lookahead mapping_start = 3
lookahead _ = 0

abbrev pub Waits : List Event → Type 0
Waits [] = Unit
Waits (ev ∷ evs) = length (ev ∷ evs) ≤ lookahead ev.event_type

not_ready_by_type :
    (t : EventType) (ev : Event) (evs : List Event)
    → ev.event_type ≡ t
    → ready (ev ∷ evs) ≡ false
    → length (ev ∷ evs) ≤ lookahead t
unfolding ready
not_ready_by_type document_start ev evs e h = ground arith
not_ready_by_type _ ev evs e h = ground arith

not_ready-Waits : (evs : List Event) → ready evs ≡ false → Waits evs
not_ready-Waits [] h = tt
not_ready-Waits (ev ∷ evs) h = not_ready_by_type ev.event_type ev evs refl h

emit_ready_stops :
    (rounds : ℕ) (e : Emitter) {e' : Emitter}
    → emit_ready rounds e ≡ ok tt e'
    → ready_to_emit e' ≡ false
unfolding emit_ready
emit_ready_stops zero e h = elim (Bool-cases (ready_to_emit e)) [
  | inl more ↦ let p = rw more at h in cc
  | inr stop ↦ let p = rw stop at h in cc
]
emit_ready_stops (suc rounds) e h = elim (Bool-cases (ready_to_emit e)) [
  | inl more ↦
      let (_, e₁, _, rest) = >>=-eq-ok emit_one (λ _. emit_ready rounds) e (rw more at h) in
      emit_ready_stops rounds e₁ rest
  | inr stop ↦ let p = rw stop at h in cc
]

ready_pending : (e : Emitter) → ready_to_emit e ≡ false → Waits (pending e)
unfolding ready_to_emit
ready_pending e h = not_ready-Waits (pending e) h

-- Behind a successful Emit no event waits, or the start of a document, a sequence or a mapping does,
-- with fewer events behind it than the lookahead for that start: one, two or three in all.
pub emit-pending :
    (event : Event) (final : Bool) (e e' : Emitter)
    → emit event final e ≡ ok tt e'
    → Waits (pending e')
unfolding emit
emit-pending event final e e' h =
    let queued = enqueue event final e in
    ready_pending e' (emit_ready_stops (length queued.events_queue) queued h)
