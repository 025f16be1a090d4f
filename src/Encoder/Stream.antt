-- ===== src/Encoder/Stream.antt =====
-- Calls of Encode and Close of encode.go, and the stream that they emit.
use yaml.Common.{
  ℕ, suc, Bytes, ◌≡◌, refl, sym, subst, Bool, true, List, [], ◌∷◌, length, ◌⊎◌, inl, inr,
}
use yaml.Event.{Event, stream_end}
use yaml.Run.{ok, Ends, returns}
use yaml.Resolve.Tags.{Cache}
use yaml.Resolve.Round.{short_of, Caches}
use yaml.Resolve.Value.{Platform}
use yaml.Node.{Node}
use yaml.Parser.Phrase.{Phrase, accept_all-Phrases}
use yaml.Parser.Grammar.{whole_stream, documents}
use yaml.Parser.Trace.{types, Phrase-alone}
use yaml.Event.Make.{stream_end_event}
use yaml.Encoder.State.{Sink, Text, Encoder, Error, new}
use yaml.Encoder.Node.{encode, close}
use yaml.Encoder.Trees.{recorder, Has, emit-Has}
use yaml.Encoder.Documents.{Expects, Expects-event, Root, Fresh, Started, encode-Has}

-- Calls of Encode that all succeed, each with a tree of nodes.
pub data Encodes {S E F T : Type 0} (sink : Sink S E) (go : Platform F T) (text : Text)
    (heap : ℕ → Node) : Encoder S → ℕ → Encoder S → Type 0 where
  no_call : {e : Encoder S} → Encodes sink go text heap e 0 e
  call :
      {e e' e'' : Encoder S} {calls : ℕ} (d : ℕ) (n : Node)
      → Root d heap n
      → encode sink go text (suc d) heap n e ≡ ok tt e'
      → Encodes sink go text heap e' calls e''
      → Encodes sink go text heap e (suc calls) e''

returned :
    {P : Encoder (List Event) → Type 0} {e : Encoder (List Event)}
    → Ends {E = Error (Unit {0})} (λ (u : Unit {0}). P) (ok tt e)
    → P e
returned (returns h) = h

module _ {F T : Type 0} (go : Platform F T) (takes : List Event → Event → Bool) (text : Text)
    (fits : (s : Bytes) → length (text.encode s) ≡ text.encoded_len (length s))
    (heap : ℕ → Node) where
  Encodes-Started :
      {e e' : Encoder (List Event)} {calls : ℕ}
      → Encodes (recorder takes) go text heap e calls e'
      → Started e
      → Started e'
  Encodes-Started no_call h = h
  Encodes-Started {e} (call d n r eq rest) h = Encodes-Started rest (
      returned
        (subst (Ends (λ _. Started)) eq (encode-Has go takes text fits heap d n e r (inr h))))

  pub Encodes-either :
      {e e' : Encoder (List Event)} {calls : ℕ}
      → Encodes (recorder takes) go text heap e calls e'
      → Fresh e
      → (Fresh e' × (calls ≡ 0)) ⊎ Started e'
  Encodes-either no_call h = inl (h, refl)
  Encodes-either {e} (call d n r eq rest) h = inr (
      Encodes-Started rest (
        returned
          (subst (Ends (λ _. Started)) eq (encode-Has go takes text fits heap d n e r (inl h)))))

  pub new-Fresh : (shorts longs : Cache) → Caches short_of shorts → Fresh (new [] shorts longs)
  new-Fresh shorts longs c = record {
    types_behind = [];
    holds = refl;
    logged = refl;
    started = refl;
    caches = c;
  }

  -- When calls of Encode with trees of nodes, one at least, and then Close have succeeded, the types of
  -- the events that were emitted are a stream as the productions of the parser derive it.
  pub close-Phrase :
      (shorts longs : Cache) {calls : ℕ} {e e' : Encoder (List Event)}
      → Caches short_of shorts
      → Encodes (recorder takes) go text heap (new [] shorts longs) (suc calls) e
      → close (recorder takes) e ≡ ok tt e'
      → Phrase whole_stream (types e'.emitter)
  unfolding close
  close-Phrase shorts longs {e} {e'} c run eq =
      started (Encodes-either run (new-Fresh shorts longs c))
    where
      started :
          {calls : ℕ}
          → (Fresh e × (suc calls ≡ 0)) ⊎ Started e
          → Phrase whole_stream (types e'.emitter)
      started (inl (h, z)) = cc
      started (inr h) =
          let h' : Has (Expects []) [] true e' = returned (
            subst (Ends (λ _. Has (Expects []) [] true)) eq (
              emit-Has takes {L' = Expects []} true stream_end_event e h
                (Expects-event {gs = documents ∷ []} stream_end refl))) in
          subst (Phrase whole_stream) (sym h'.logged)
            (Phrase-alone (accept_all-Phrases (whole_stream ∷ []) h'.types_behind h'.holds))
