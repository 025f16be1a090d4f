-- ===== src/Encoder/Drives.antt =====
-- What a call of the Encoder of encode.go does with its emitter.
use yaml.Common.{◌≡◌, List, [], inl, inr}
use yaml.Event.{Event, EventType}
use yaml.Run.{Outcome, ok, err, panic, exhausted, Ends, returns, raises}
use yaml.Parser.Trace.{types}
use yaml.Encoder.State.{Sink, Encoder, Error, emitting}
use yaml.Encoder.Replay.{Own, feed, refused, broke, spent, of_emit, of_encoder, Failure, Follows}

-- The events that the collector has at the end of a call.
abbrev pub recorded : Outcome (Encoder (List Event)) (Error (Unit {0})) (Unit {0}) → List Event
recorded (ok u e) = e.emitter
recorded (err x e) = e.emitter
recorded _ = []

-- How a call ends that gives the events `es` to the emitter, which began in the state `s₀`. It completes
-- when Emit takes them all, and then their types have the property; it ends with an error of its own
-- behind them; or Emit refuses one of them, panics or runs out of fuel on it, and so does the call.
pub data Drives {S E : Type 0} (sink : Sink S E) (s₀ : S) (L : List EventType → Type 0)
    (es : List Event) : Outcome (Encoder S) (Error E) (Unit {0}) → Type 0 where
  completes :
      {e : Encoder S}
      → L (types es)
      → feed sink es s₀ ≡ ok tt e.emitter
      → Drives sink s₀ L es (ok tt e)
  own_error :
      {y : Error E} {e : Encoder S} (x : Error (Unit {0}))
      → Own x y
      → feed sink es s₀ ≡ ok tt e.emitter
      → Drives sink s₀ L es (err y e)
  refuses :
      {x : E} {e : Encoder S}
      → feed sink es s₀ ≡ err x e.emitter
      → Drives sink s₀ L es (err (emitting x) e)
  breaks : feed sink es s₀ ≡ panic → Drives sink s₀ L es panic
  runs_out : feed sink es s₀ ≡ exhausted → Drives sink s₀ L es exhausted

module _ {S E : Type 0} (sink : Sink S E) (s₀ : S) {L : List EventType → Type 0} where
  fails :
      {es : List Event} (w : Failure S E)
      → feed sink es s₀ ≡ of_emit w
      → Drives sink s₀ L es (of_encoder w)
  fails (refused x e) fed = refuses fed
  fails broke fed = breaks fed
  fails spent fed = runs_out fed

  pub Follows-Drives :
      {r : Outcome (Encoder (List Event)) (Error (Unit {0})) (Unit {0})}
      {r' : Outcome (Encoder S) (Error E) (Unit {0})}
      → Ends (λ u e. L (types e.emitter)) r
      → Follows sink s₀ r r'
      → Drives sink s₀ L (recorded r) r'
  Follows-Drives (returns l) (inl (s, fed, same)) = rw same (completes l fed)
  Follows-Drives (returns l) (inr (w, fed, same)) = rw same (fails w fed)
  Follows-Drives raises (inl (s, y, own, fed, same)) = rw same (own_error _ own fed)
  Follows-Drives raises (inr (w, fed, same)) = rw same (fails w fed)
