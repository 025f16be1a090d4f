-- ===== src/Parser/Steps.antt =====
-- What the primitives of the parser do to its stacks.
use yaml.Common.{
  suc, ◌≤◌, ◌<◌, ◌≡◌, ◌≢◌, refl, sym, ap, ◌∙◌, subst, Bool, true, false, none, List, [], ◌∷◌, Bytes,
  length, length-append, if◌then◌else◌, arith, Bool-cases, inl, inr,
}
use yaml.Event.{Event, Position}
use yaml.Token.{YamlToken, YamlComment, ◌is_token◌, stream_end_token}
use yaml.Run.{ok, err, panic, Ends, returns, raises, Ends-bind, Ends-map}
use yaml.Parser.State.{Parser, ParserState, Delivery, Error, scanning}
use yaml.Parser.Tokens.{
  joined, join, takes, unfold_comments, fetch, peek_token, skip_token, next_token,
  set_event_comments,
}
use yaml.Parser.Stack.{At}

-- The parser with the comments and the tag directives erased.
abbrev pub core : Parser → Parser
core p = record p {
  comments = [];
  head_comment = [];
  line_comment = [];
  foot_comment = [];
  stem_comment = none;
  tag_directives = [];
}

joined_grows : (old new : Bytes) → length old ≤ length (joined old new)
unfolding joined
joined_grows old [] = omega arith
joined_grows [] (c ∷ new) = omega arith
joined_grows (o ∷ old) (c ∷ new) = omega (arith, length-append (o ∷ old) (0x0A ∷ c ∷ new))

-- Comments were unfolded: the head comment has grown, and all but comments is as before.
record Unfolded (p q : Parser) : Type 0 where
  same : core q ≡ core p
  grown : length p.head_comment ≤ length q.head_comment

unfold_comments-Unfolded :
    (t : YamlToken) (cs : List YamlComment) (p : Parser) → Unfolded p (unfold_comments t cs p)
unfolding unfold_comments
unfold_comments-Unfolded t [] p = record { same = refl; grown = omega arith }
unfold_comments-Unfolded t (c ∷ cs) p = elim (Bool-cases (takes t c)) [
  | inl taken ↦
      let more = unfold_comments-Unfolded t cs (join c p) in
      rw taken (record {
        same = more.same;
        grown = omega (arith, more.grown, joined_grows p.head_comment c.head);
      })
  | inr left ↦ rw left (record { same = refl; grown = omega arith })
]

-- The stacks are as `At` says, and a token is there.
pub record Over (s : ParserState) (K : List ParserState) (ms : List Position) (p : Parser)
    : Type 0 where
  pub at : At s K ms p
  pub there : p.deliveries ≢ []

-- From the parser `p` a token was looked at: the head comment may have grown.
pub record Peeked (s : ParserState) (K : List ParserState) (ms : List Position) (p q : Parser)
    : Type 0 where
  pub over : Over s K ms q
  pub grown : length p.head_comment ≤ length q.head_comment
  pub kept : q.deliveries ≡ p.deliveries

-- From the parser `p` a token was taken.
pub record Skipped (s : ParserState) (K : List ParserState) (ms : List Position) (p q : Parser)
    : Type 0 where
  pub at : At s K ms q
  pub head : q.head_comment ≡ p.head_comment
  pub shorter : length q.deliveries < length p.deliveries

head_comment-fetch : (d : Delivery) (p : Parser) → (fetch d p).head_comment ≡ p.head_comment
head_comment-fetch d p = ground arith

deliveries-fetch : (d : Delivery) (p : Parser) → (fetch d p).deliveries ≡ p.deliveries
deliveries-fetch d p = ground arith

module _ {s : ParserState} {K : List ParserState} {ms : List Position} where
  pub At-core : {p q : Parser} → core q ≡ core p → At s K ms p → At s K ms q
  At-core e a = record {
    state = ap (λ (x : Parser). x.state) e ∙ a.state;
    states = ap (λ (x : Parser). x.states) e ∙ a.states;
    marks = ap (λ (x : Parser). x.marks) e ∙ a.marks;
    tail = ap (λ (x : Parser). x.tail_comment) e ∙ a.tail;
    available = λ h.
        subst (λ (x : List Delivery). x ≢ []) (sym (ap (λ (x : Parser). x.deliveries) e))
          (a.available (sym (ap (λ (x : Parser). x.token_available) e) ∙ h));
  }

  pub Over-core : {p q : Parser} → core q ≡ core p → Over s K ms p → Over s K ms q
  Over-core e o = record {
    at = At-core e o.at;
    there =
        subst (λ (x : List Delivery). x ≢ []) (sym (ap (λ (x : Parser). x.deliveries) e)) o.there;
  }

  At-if : (b : Bool) {p q : Parser} → At s K ms p → At s K ms q → At s K ms (if b then p else q)
  At-if true a c = a
  At-if false a c = c

  At-fetch : {p : Parser} (d : Delivery) → At s K ms p → p.deliveries ≢ [] → At s K ms (fetch d p)
  At-fetch {p} d a there = At-if p.token_available a (record {
    state = a.state;
    states = a.states;
    marks = a.marks;
    tail = a.tail;
    available = λ _. there;
  })

  unfolded-Peeked :
      {p : Parser} (d : Delivery)
      → At s K ms p
      → p.deliveries ≢ []
      → Peeked s K ms p (unfold_comments d.token (fetch d p).comments (fetch d p))
  unfolded-Peeked {p} d a there =
      let q = fetch d p in
      let u = unfold_comments-Unfolded d.token q.comments q in
      let e = ap (λ (x : Parser). x.deliveries) u.same ∙ deliveries-fetch d p in
      record {
        over = record {
          at = At-core u.same (At-fetch d a there);
          there = subst (λ (x : List Delivery). x ≢ []) (sym e) there;
        };
        grown =
            subst
              (λ (x : Bytes). length x ≤ length (unfold_comments d.token q.comments q).head_comment)
              (head_comment-fetch d p) u.grown;
        kept = e;
      }

  not_available : {p : Parser} → At s K ms p → p.deliveries ≡ [] → p.token_available ≡ false
  not_available {p} a e = elim (Bool-cases p.token_available) [
    | inl h ↦ absurd (a.available h e)
    | inr h ↦ h
  ]

  pub peek_token-Peeked : {p : Parser} → At s K ms p → Ends (λ t. Peeked s K ms p) (peek_token p)
  unfolding peek_token
  peek_token-Peeked {p} a = go p.deliveries refl
    where
      go :
          (ds : List Delivery)
          → p.deliveries ≡ ds
          → Ends {A = YamlToken}
              (λ t. Peeked s K ms p)
              (elim ds [
                | [] ↦ if p.token_available then panic else err scanning p
                | d ∷ ds ↦ let q = fetch d p in ok d.token (unfold_comments d.token q.comments q)
              ])
      go [] e = rw (not_available a e) raises
      go (d ∷ ds) e = returns (unfolded-Peeked d a (λ x. cc))

  pub peek_token-Over : {p : Parser} → At s K ms p → Ends (λ t. Over s K ms) (peek_token p)
  peek_token-Over a = Ends-map (λ t q x. x.over) (peek_token-Peeked a)

  pub skip_token-Skipped :
      {p : Parser} → Over s K ms p → Ends (λ _. Skipped s K ms p) (skip_token p)
  unfolding skip_token
  skip_token-Skipped {p} o = go p.deliveries refl
    where
      go :
          (ds : List Delivery)
          → p.deliveries ≡ ds
          → Ends {E = Error}
              (λ _. Skipped s K ms p)
              (elim ds [
                | [] ↦ panic
                | d ∷ ds ↦ ok tt (record p {
                  token_available = false;
                  tokens_parsed = suc p.tokens_parsed;
                  stream_end_produced = d.token.token_type is_token stream_end_token;
                  deliveries = ds;
                })
              ])
      go [] e = absurd (o.there e)
      go (d ∷ ds) e = returns (record {
        at = record {
          state = o.at.state;
          states = o.at.states;
          marks = o.at.marks;
          tail = o.at.tail;
          available = λ h. cc;
        };
        head = refl;
        shorter = rw e (omega arith);
      })

  pub skip_token-At : {p : Parser} → Over s K ms p → Ends (λ _. At s K ms) (skip_token p)
  skip_token-At o = Ends-map (λ t q x. x.at) (skip_token-Skipped o)

  pub next_token-shorter :
      {p : Parser}
      → Over s K ms p
      → Ends (λ t q. Over s K ms q × (length q.deliveries < length p.deliveries)) (next_token p)
  unfolding next_token
  next_token-shorter {p} o =
      Ends-bind skip_token (λ _. peek_token) p (skip_token-Skipped o)
        (λ _ q x. Ends-map (λ t r y. (y.over, rw y.kept x.shorter)) (peek_token-Peeked x.at))

  pub next_token-Over : {p : Parser} → Over s K ms p → Ends (λ t. Over s K ms) (next_token p)
  next_token-Over o = Ends-map (λ t q x. x.0) (next_token-shorter o)

  pub set_event_comments-At :
      {p : Parser} (event : Event)
      → At s K ms p
      → Ends
          (λ e q. (e.event_type ≡ event.event_type) × At s K ms q × (q.deliveries ≡ p.deliveries))
          (set_event_comments event p)
  unfolding set_event_comments
  set_event_comments-At event a = returns (
    refl,
    record {
      state = a.state;
      states = a.states;
      marks = a.marks;
      tail = refl;
      available = a.available;
    },
    refl,
  )

  pub set_event_comments-Over :
      {p : Parser} (event : Event)
      → Over s K ms p
      → Ends (λ e q. (e.event_type ≡ event.event_type) × Over s K ms q) (set_event_comments event p)
  set_event_comments-Over event o =
      Ends-map
        (λ e q (t, a, d).
          (t, record { at = a; there = subst (λ (x : List Delivery). x ≢ []) (sym d) o.there }))
        (set_event_comments-At event o.at)
