-- ===== src/Encoder/Mirror.antt =====
-- Calls of Encode of encode.go over any emitter, and calls over one that keeps every event.
use yaml.Common.{
  ℕ, suc, Bytes, ◌≡◌, refl, sym, ap, subst, ◌∙◌, List, [], ◌∷◌, length, ◌⊎◌, inl, inr, true,
}
use yaml.Event.{Event}
use yaml.Run.{Outcome, ok, Ends, Ends-map, returns, raises}
use yaml.Resolve.Tags.{Cache}
use yaml.Resolve.Round.{short_of, Caches}
use yaml.Resolve.Value.{Platform}
use yaml.Node.{Node}
use yaml.Parser.Grammar.{documents}
use yaml.Encoder.State.{Sink, Text, Encoder, Error, new}
use yaml.Encoder.Node.{encode}
use yaml.Encoder.Replay.{collector, over, feed, Failure, refused, broke, spent, of_encoder, Follows}
use yaml.Encoder.Alike.Tree.{encode-Alike}
use yaml.Encoder.Documents.{Expects, Root, Fresh, Started, encode-Has}
use yaml.Encoder.Stream.{Encodes, no_call, call, Encodes-either, new-Fresh}
use yaml.Encoder.Drives.{recorded, Drives, Follows-Drives}

-- The log of a state over the collector whose events the emitter has taken.
pub record Mirrors {S E : Type 0} (sink : Sink S E) (s₀ : S) (e : Encoder S)
    (log : Encoder (List Event)) : Type 0 where
  pub taken : feed sink log.emitter s₀ ≡ ok tt e.emitter
  pub same : e ≡ over e.emitter log

module _ {S E : Type 0} (sink : Sink S E) (s₀ : S) where
  not_failed :
      (w : Failure S E) (e : Encoder S)
      → ◌≡◌ {A = Outcome (Encoder S) (Error E) (Unit {0})} (of_encoder w) (ok tt e)
      → ⊥
  not_failed (refused x f) e h = cc
  not_failed broke e h = cc
  not_failed spent e h = cc

  -- A call that succeeds over the emitter succeeds over the collector.
  call-Mirrors :
      {Q : Encoder (List Event) → Type 0}
      (r : Outcome (Encoder (List Event)) (Error (Unit {0})) (Unit {0}))
      {r' : Outcome (Encoder S) (Error E) (Unit {0})} (e : Encoder S)
      → Ends (λ u. Q) r
      → Follows sink s₀ r r'
      → r' ≡ ok tt e
      → (log : Encoder (List Event)) × (r ≡ ok tt log) × Mirrors sink s₀ e log × Q log
  call-Mirrors _ e (returns {s = log} q) (inl (s, fed, same)) eq =
      let here : e ≡ over s log = cc in
      let at : e.emitter ≡ s = ap (λ (x : Encoder S). x.emitter) here in
      (log, refl, record { taken = rw at fed; same = here ∙ ap (λ s. over s log) (sym at) }, q)
  call-Mirrors _ e (returns q) (inr (w, fed, same)) eq = absurd (not_failed w e (sym same ∙ eq))
  call-Mirrors _ e raises (inl (s, y, own, fed, same)) eq = cc
  call-Mirrors _ e raises (inr (w, fed, same)) eq = absurd (not_failed w e (sym same ∙ eq))

  module _ {F T : Type 0} (go : Platform F T) (text : Text)
      (fits : (s : Bytes) → length (text.encode s) ≡ text.encoded_len (length s))
      (heap : ℕ → Node) where
    Encodes-Mirrors :
        {e e' : Encoder S} {calls : ℕ} (log : Encoder (List Event))
        → Encodes sink go text heap e calls e'
        → Mirrors sink s₀ e log
        → Fresh log ⊎ Started log
        → (log' : Encoder (List Event)) × Encodes collector go text heap log calls log'
          × Mirrors sink s₀ e' log'
    Encodes-Mirrors log no_call m h = (log, no_call, m)
    Encodes-Mirrors {e} log (call {e' = e₁} d n r eq rest) m h =
        let (log₁, same, m₁, started) =
          call-Mirrors (encode collector go text (suc d) heap n log) e₁
            (encode-Has go (λ log event. true) text fits heap d n log r h)
            ((encode-Alike sink s₀ go text (suc d) heap n).live log e.emitter m.taken)
            (subst (λ x. encode sink go text (suc d) heap n x ≡ ok tt e₁) m.same eq) in
        let (log', run, m') = Encodes-Mirrors log₁ rest m₁ (inr started) in
        (log', call d n r same run, m')

    -- After any number of successful calls over any emitter there is a run of as many calls over one that
    -- keeps every event, whose events the emitter has taken, and Encode of a tree of nodes drives the
    -- emitter as its call behind that run records it. It returns when Emit takes all of the events
    -- recorded, and then they are the start of a stream and whole documents; else it ends with an error
    -- of its own behind them, or just as Emit ends on them: it has no panic of its own, and its fuel is
    -- enough, where the tree is less deep than the fuel, the encoding of base64 has the length that it
    -- announces, and the cache of short tags was true at the start.
    pub encode-Drives :
        (shorts longs : Cache) {calls : ℕ} {e : Encoder S} (d : ℕ) (n : Node)
        → Caches short_of shorts
        → Encodes sink go text heap (new s₀ shorts longs) calls e
        → Root d heap n
        → (log : Encoder (List Event)) × Encodes collector go text heap
            (new [] shorts longs)
            calls
            log
          × Mirrors sink s₀ e log
          × Drives sink s₀
              (Expects (documents ∷ []))
              (recorded (encode collector go text (suc d) heap n log))
              (encode sink go text (suc d) heap n e)
    unfolding feed
    encode-Drives shorts longs {e} d n c run r =
        let fresh = new-Fresh go (λ log event. true) text fits heap shorts longs c in
        let (log, mirrored, m) =
          Encodes-Mirrors (new [] shorts longs) run (record { taken = refl; same = refl })
            (inl fresh) in
        (
          log,
          mirrored,
          m,
          subst
              (λ x.
                Drives sink s₀ (Expects (documents ∷ []))
                  (recorded (encode collector go text (suc d) heap n log))
                  (encode sink go text (suc d) heap n x))
              (sym m.same)
              (Follows-Drives sink s₀
                (Ends-map (λ _ x h. subst (Expects (documents ∷ [])) (sym h.logged) h.holds)
                  (encode-Has go (λ log event. true) text fits heap d n log r
                    (before (Encodes-either go (λ log event. true) text fits heap mirrored fresh))))
                ((encode-Alike sink s₀ go text (suc d) heap n).live log e.emitter m.taken)),
        )
      where
        before :
            {calls : ℕ} {log : Encoder (List Event)}
            → (Fresh log × (calls ≡ 0)) ⊎ Started log
            → Fresh log ⊎ Started log
        before (inl (h, z)) = inl h
        before (inr h) = inr h
