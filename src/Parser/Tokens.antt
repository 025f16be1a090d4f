-- ===== src/Parser/Tokens.antt =====
-- The queue of tokens and the pending comments, in internal/parserc/parserc.go.
use yaml.Common.{
  ℕ, suc, Bool, true, false, not, ◌&&◌, ◌||◌, Option, none, some, List, [], ◌∷◌, ◌++◌, Bytes,
  length, is_empty, take, drop, leb, ◌==◌, if◌then◌else◌,
}
use yaml.Event.{Event}
use yaml.Token.{
  YamlToken, YamlComment, ◌is_token◌, stream_end_token, block_end_token, block_sequence_start_token,
  block_mapping_start_token,
}
use yaml.Run.{ok, err, panic, ◌>>=◌, ◌>>◌, get, modify, checked}
use yaml.Parser.State.{Parser, Delivery, scanning, M}

-- A comment is joined to the earlier ones by a line break.
unfoldable pub joined : Bytes → Bytes → Bytes
joined old [] = old
joined [] (c ∷ new) = c ∷ new
joined (o ∷ old) (c ∷ new) = (o ∷ old) ++ 0x0A ∷ c ∷ new

abbrev pub join : YamlComment → Parser → Parser
join c p = record p {
  head_comment = joined p.head_comment c.head;
  line_comment = joined p.line_comment c.line;
  foot_comment = joined p.foot_comment c.foot;
}

-- Whether yaml_parser_unfold_comments takes the comment: no heads on ends.
unfoldable pub takes : YamlToken → YamlComment → Bool
takes t c =
    leb c.token_mark.index t.start_mark.index
    && not (not (is_empty c.head) && t.token_type is_token block_end_token)

-- yaml_parser_unfold_comments, on the comments that wait.
unfoldable pub unfold_comments : YamlToken → List YamlComment → Parser → Parser
unfolding takes joined
unfold_comments t [] p = record p { comments = [] }
unfold_comments t (c ∷ cs) p =
    let rest = unfold_comments t cs (join c p) in
    if takes t c then rest else record p { comments = c ∷ cs }

-- yaml_parser_fetch_more_tokens, where the scanner still has a token.
abbrev pub fetch : Delivery → Parser → Parser
fetch d p =
    if p.token_available
    then p
    else record p { token_available = true; comments = p.comments ++ d.found }

unfoldable pub peek_token : M YamlToken
unfolding unfold_comments
peek_token p = elim p.deliveries [
  | [] ↦ if p.token_available then panic else err scanning p
  | d ∷ ds ↦ let q = fetch d p in ok d.token (unfold_comments d.token q.comments q)
]

unfoldable pub skip_token : M (Unit {0})
skip_token p = elim p.deliveries [
  | [] ↦ panic
  | d ∷ ds ↦ ok tt (record p {
    token_available = false;
    tokens_parsed = suc p.tokens_parsed;
    stream_end_produced = d.token.token_type is_token stream_end_token;
    deliveries = ds;
  })
]

-- `skip_token(parser)` and `token, err = peek_token(parser)`
unfoldable pub next_token : M YamlToken
unfolding skip_token peek_token
next_token = do skip_token; peek_token

-- yaml_parser_set_event_comments
unfoldable pub set_event_comments : Event → M Event
set_event_comments event p =
    ok
      (record event {
        head_comment = p.head_comment;
        line_comment = p.line_comment;
        foot_comment = p.foot_comment;
      })
      (record p {
        head_comment = [];
        line_comment = [];
        foot_comment = [];
        tail_comment = [];
        stem_comment = none;
      })

-- The parts of the head comment of a length: the stem, and what follows it but for its line break.
unfoldable pub cut_head : ℕ → Bytes → Option (Bytes × Bytes)
cut_head n b =
    if not (leb n (length b))
    then none
    else some (take n b, if length b == n then [] else drop (suc n) b)

-- yaml_parser_split_stem_comment
unfoldable pub split_stem_comment : ℕ → M (Unit {0})
unfolding peek_token cut_head
split_stem_comment stem_len p =
    (if stem_len == 0 then (λ p. ok tt p) else (do
      token ← peek_token
      q ← get
      let starts =
          token.token_type is_token block_sequence_start_token
          || token.token_type is_token block_mapping_start_token
      if not starts then (λ p. ok tt p) else (do
        (stem, head) ← checked (cut_head stem_len q.head_comment)
        modify (λ p. record p { stem_comment = some stem; head_comment = head }))))
      p
