-- ===== src/Parser/Comments.antt =====
-- Which of the pending comments a token takes.
use yaml.Common.{
  ◌≤◌, ◌<◌, ◌⊎◌, Bytes, All-map, leb, not, ◌&&◌, is_empty, arith, ◌≡◌, ◌≢◌, refl, sym, ap, ◌∙◌,
  Bool, true, false, List, [], ◌∷◌, ◌++◌, All, Bool-cases, inl, inr, if◌then◌else◌,
}
use yaml.Token.{
  YamlToken, YamlComment, TokenType, ◌is_token◌, block_end_token, no_token, stream_start_token,
  stream_end_token, version_directive_token, tag_directive_token, document_start_token,
  document_end_token, block_sequence_start_token, block_mapping_start_token,
  flow_sequence_start_token, flow_sequence_end_token, flow_mapping_start_token,
  flow_mapping_end_token, block_entry_token, flow_entry_token, key_token, value_token, alias_token,
  anchor_token, tag_token, scalar_token,
}
use yaml.Parser.State.{Parser, Delivery, Error, scanning}
use yaml.Parser.Joined.{join_all, with_comments, join_all-with_comments}
use yaml.Run.{Outcome, ok, err, panic}
use yaml.Parser.Tokens.{join, takes, unfold_comments, fetch, peek_token}

-- The test of the first comment fails.
abbrev Halts : YamlToken → List YamlComment → Type 0
Halts t [] = Unit
Halts t (c ∷ cs) = takes t c ≡ false

unfold_comments-Halts :
    (t : YamlToken) (cs : List YamlComment) (p : Parser)
    → (taken : List YamlComment) × (rest : List YamlComment) × (cs ≡ taken ++ rest)
      × All (λ c. takes t c ≡ true) taken
      × Halts t rest
      × (unfold_comments t cs p ≡ record (join_all taken p) { comments = rest })
unfolding unfold_comments
unfold_comments-Halts t [] p = ([], [], refl, tt, tt, refl)
unfold_comments-Halts t (c ∷ cs) p = elim (Bool-cases (takes t c)) [
  | inl h ↦
      let (taken, rest, parts, all, stops, same) = unfold_comments-Halts t cs (join c p) in
      (c ∷ taken, rest, ap (λ k. c ∷ k) parts, (h, all), stops, rw h same)
  | inr h ↦ ([], c ∷ cs, refl, tt, h, rw h refl)
]

-- A comment that belongs to the token: it was found at a token that is not behind it, and a head is not
-- for the end of a block.
abbrev pub Taken : YamlToken → YamlComment → Type 0
Taken t c =
    (c.token_mark.index ≤ t.start_mark.index) × ((c.head ≡ []) ⊎ (t.token_type ≢ block_end_token))

-- The rest, whose first comment does not belong to the token.
abbrev pub Stops : YamlToken → List YamlComment → Type 0
Stops t [] = Unit
Stops t (c ∷ cs) =
    (t.start_mark.index < c.token_mark.index) ⊎ ((c.head ≢ []) × (t.token_type ≡ block_end_token))

is_block_end : (k : TokenType) → (k is_token block_end_token) ≡ true → k ≡ block_end_token
is_block_end no_token h = cc
is_block_end stream_start_token h = cc
is_block_end stream_end_token h = cc
is_block_end version_directive_token h = cc
is_block_end tag_directive_token h = cc
is_block_end document_start_token h = cc
is_block_end document_end_token h = cc
is_block_end block_sequence_start_token h = cc
is_block_end block_mapping_start_token h = cc
is_block_end block_end_token h = refl
is_block_end flow_sequence_start_token h = cc
is_block_end flow_sequence_end_token h = cc
is_block_end flow_mapping_start_token h = cc
is_block_end flow_mapping_end_token h = cc
is_block_end block_entry_token h = cc
is_block_end flow_entry_token h = cc
is_block_end key_token h = cc
is_block_end value_token h = cc
is_block_end alias_token h = cc
is_block_end anchor_token h = cc
is_block_end tag_token h = cc
is_block_end scalar_token h = cc

no_end : (i e : Bool) → (i && not e) ≡ true → e ≡ true → ⊥
no_end false true h k = cc
no_end true true h k = cc
no_end i false h k = cc

late_end : (i e : Bool) → (i && not e) ≡ false → i ≡ true → e ≡ true
late_end i true h k = refl
late_end true false h k = cc
late_end false false h k = cc

kept : (i : Bool) → i ≡ true → (i && true) ≡ false → ⊥
kept true h k = cc
kept false h k = cc

takes-Taken : (t : YamlToken) (c : YamlComment) → takes t c ≡ true → Taken t c
unfolding takes
takes-Taken t c h = (ground (arith, h), head c.head h)
  where
    head :
        (hs : Bytes)
        → (leb c.token_mark.index t.start_mark.index
            && not (not (is_empty hs) && t.token_type is_token block_end_token))
          ≡ true
        → (hs ≡ []) ⊎ (t.token_type ≢ block_end_token)
    head [] h = inl refl
    head (x ∷ hs) h = inr (λ e.
        no_end (leb c.token_mark.index t.start_mark.index) _ h
          (ap (λ k. k is_token block_end_token) e))

takes-Stops :
    (t : YamlToken) (c : YamlComment) (cs : List YamlComment) → takes t c ≡ false → Stops t (c ∷ cs)
unfolding takes
takes-Stops t c cs h = elim (Bool-cases (leb c.token_mark.index t.start_mark.index)) [
  | inl i ↦ inr (head c.head i h)
  | inr i ↦ inl (ground (arith, i))
]
  where
    head :
        (hs : Bytes)
        → leb c.token_mark.index t.start_mark.index ≡ true
        → (leb c.token_mark.index t.start_mark.index
            && not (not (is_empty hs) && t.token_type is_token block_end_token))
          ≡ false
        → (hs ≢ []) × (t.token_type ≡ block_end_token)
    head [] i h = absurd (kept _ i h)
    head (x ∷ hs) i h = (λ e. cc, is_block_end t.token_type (late_end _ _ h i))

Halts-Stops : (t : YamlToken) (cs : List YamlComment) → Halts t cs → Stops t cs
Halts-Stops t [] h = tt
Halts-Stops t (c ∷ cs) h = takes-Stops t c cs h

-- yaml_parser_unfold_comments cuts the queue in two. Each comment in front was found at a token that is
-- not behind this one, and has no head or this one is no BLOCK-END: their heads, line and foot comments
-- that are not empty are put behind the parser's, in their order, with a line break between each two.
-- The rest waits, and its first one was found at a token behind this one, or it has a head and this one
-- is a BLOCK-END. Nothing else changes.
pub unfold_comments-Stops :
    (t : YamlToken) (cs : List YamlComment) (p : Parser)
    → (taken : List YamlComment) × (rest : List YamlComment) × (cs ≡ taken ++ rest)
      × All (Taken t) taken
      × Stops t rest
      × (unfold_comments t cs p ≡ record (with_comments taken p) { comments = rest })
unfold_comments-Stops t cs p =
    let (taken, rest, parts, all, halts, same) = unfold_comments-Halts t cs p in
    (
      taken,
      rest,
      parts,
      All-map (λ c. takes t c ≡ true) (Taken t) taken (λ c. takes-Taken t c) all,
      Halts-Stops t rest halts,
      same ∙ ap (λ (q : Parser). record q { comments = rest }) (join_all-with_comments taken p),
    )

join_all-keeps :
    (cs : List YamlComment) (p : Parser)
    → ((join_all cs p).deliveries ≡ p.deliveries)
      × ((join_all cs p).token_available ≡ p.token_available)
join_all-keeps [] p = (refl, refl)
join_all-keeps (c ∷ cs) p = join_all-keeps cs (join c p)

fetch-available :
    (d : Delivery) (p : Parser)
    → ((fetch d p).deliveries ≡ p.deliveries) × ((fetch d p).token_available ≡ true)
fetch-available d p = go p.token_available refl
  where
    go :
        (b : Bool)
        → p.token_available ≡ b
        → let q : Parser =
            if b
            then p
            else record p { token_available = true; comments = p.comments ++ d.found } in
          (q.deliveries ≡ p.deliveries) × (q.token_available ≡ true)
    go true e = (refl, e)
    go false e = (refl, refl)

unfold_comments-stopped :
    (t : YamlToken) (cs : List YamlComment) (p : Parser)
    → p.comments ≡ cs
    → Halts t cs
    → unfold_comments t cs p ≡ p
unfolding unfold_comments
unfold_comments-stopped t [] p e s = ap (λ k. record p { comments = k }) (sym e)
unfold_comments-stopped t (c ∷ cs) p e s = rw s (ap (λ k. record p { comments = k }) (sym e))

fetch-idle : (d : Delivery) (q : Parser) → q.token_available ≡ true → fetch d q ≡ q
fetch-idle d q e = go q.token_available e
  where
    go :
        (b : Bool)
        → b ≡ true
        → (if b then q else record q { token_available = true; comments = q.comments ++ d.found })
          ≡ q
    go true e = refl
    go false e = cc

-- A token at which the queues have arrived is looked at without a change.
peek_token-arrived :
    (q : Parser) (d : Delivery) (ds : List Delivery)
    → q.deliveries ≡ d ∷ ds
    → q.token_available ≡ true
    → Halts d.token q.comments
    → peek_token q ≡ ok d.token q
unfolding peek_token
peek_token-arrived q d ds e a s =
    ap
      (λ (k : List Delivery). elim k [
        | [] ↦ if q.token_available then panic else err scanning q
        | d ∷ ds ↦ let r = fetch d q in ok d.token (unfold_comments d.token r.comments r)
      ])
      e
    ∙ ap (λ (r : Parser). ok d.token (unfold_comments d.token r.comments r)) (fetch-idle d q a)
    ∙ ap (λ (r : Parser). ok d.token r) (unfold_comments-stopped d.token q.comments q refl s)

no_value :
    (p q : Parser) (t : YamlToken) (b : Bool)
    → ◌≢◌ {A = Outcome Parser Error YamlToken} (if b then panic else err scanning p) (ok t q)
no_value p q t true e = cc
no_value p q t false e = cc

-- Looking at a token a second time gives the same token and changes nothing: no comment goes to the
-- wrong event because the parser looks twice.
pub peek_token-again :
    (p : Parser) {t : YamlToken} {q : Parser} → peek_token p ≡ ok t q → peek_token q ≡ ok t q
unfolding peek_token
peek_token-again p {t} {q} h = go p.deliveries refl h
  where
    go :
        (ds : List Delivery)
        → p.deliveries ≡ ds
        → ◌≡◌ {A = Outcome Parser Error YamlToken}
            (elim ds [
              | [] ↦ if p.token_available then panic else err scanning p
              | d ∷ ds ↦ let r = fetch d p in ok d.token (unfold_comments d.token r.comments r)
            ])
            (ok t q)
        → peek_token q ≡ ok t q
    go [] e h = absurd (no_value p q t p.token_available h)
    go (d ∷ ds) e h =
        let r = fetch d p in
        let (taken, rest, parts, all, stops, same) = unfold_comments-Halts d.token r.comments r in
        let kept = join_all-keeps taken r in
        let there = fetch-available d p in
        let again =
          peek_token-arrived (record (join_all taken r) { comments = rest }) d ds
            (kept.0 ∙ there.0 ∙ e) (kept.1 ∙ there.1) stops in
        cc
