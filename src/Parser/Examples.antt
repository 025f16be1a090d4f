-- ===== src/Parser/Examples.antt =====
-- Parsers on the tokens of small documents: witnesses of the theorems, and tests.
use yaml.Common.{
  ◌++◌, All, ℕ, zero, suc, ◌≡◌, refl, Bool, true, false, Option, none, some, List, [], ◌∷◌, codes,
  Bytes, pos,
}
use yaml.Event.{
  EventType, Event, origin, any_encoding, stream_start, stream_end, document_start, document_end,
  scalar, mapping_start, mapping_end, sequence_start, sequence_end,
}
use yaml.Token.{
  YamlComment, YamlToken, TokenType, stream_start_token, stream_end_token, scalar_token, key_token,
  value_token, block_mapping_start_token, block_entry_token, block_end_token,
}
use yaml.Run.{Outcome, ok, Ends}
use yaml.Parser.State.{Parser, Error, Delivery, new}
use yaml.Parser.Tokens.{unfold_comments, peek_token}
use yaml.Parser.Joined.{with_comments}
use yaml.Parser.Comments.{Stops, Taken, unfold_comments-Stops, peek_token-again}
use yaml.Parser.Grammar.{whole_stream, pairs, document_closing, documents}
use yaml.Parser.Phrase.{Phrase, accept_all}
use yaml.Parser.Machine.{parse}
use yaml.Parser.Follow.Machine.{Sound}
use yaml.Parser.Trace.{
  Parses-begins, is_over, Parses, no_call, call, parse-Ends, Parses-accepted, stream-Phrase,
}

abbrev token_of : TokenType → Bytes → Delivery
token_of type value = record {
  token = record {
    token_type = type;
    start_mark = origin;
    end_mark = origin;
    encoding = any_encoding;
    value = value;
    suffix = [];
    prefix = [];
    style = 1;
    major = pos 0;
    minor = pos 0;
  };
  found = [];
}

-- The tokens of `k: - v` over two lines, an indentless sequence.
abbrev pub small : List Delivery
small =
    token_of stream_start_token []
    ∷ token_of block_mapping_start_token []
    ∷ token_of key_token []
    ∷ token_of scalar_token (codes "k")
    ∷ token_of value_token []
    ∷ token_of block_entry_token []
    ∷ token_of scalar_token (codes "v")
    ∷ token_of block_end_token []
    ∷ token_of stream_end_token []
    ∷ []

-- A sequence of calls with its events.
abbrev pub Traced : Parser → Type 0
Traced p = (events : List Event) × (q : Parser) × Parses p events q

abbrev traced_call :
    {p : Parser} (b : Bool)
    → is_over p ≡ b
    → (r : Outcome Parser Error Event) → parse p ≡ r
    → ((q : Parser) → Option (Traced q))
    → Option (Traced p)
traced_call true e r h f = none
traced_call false e (ok event q) h f = elim (f q) [
  | none ↦ none
  | some (events, r, t) ↦ some (event ∷ events, r, call e h t)
]
traced_call false e _ h f = none

unfoldable pub traced : ℕ → (p : Parser) → Option (Traced p)
unfolding parse
traced zero p = some ([], p, no_call)
traced (suc n) p = traced_call (is_over p) refl (parse p) refl (traced n)

abbrev is_some : {A : Type 0} → Option A → Bool
is_some none = false
is_some (some a) = true

pub from : {A : Type 0} (r : Option A) → is_some r ≡ true → A
from none e = cc
from (some a) e = a

unfoldable pub small_run : Traced (new small)
unfolding parse traced from
small_run = from (traced 10 (new small)) refl

unfoldable small_start : Traced (new small)
unfolding parse traced from
small_start = from (traced 3 (new small)) refl

parse-Ends_example : Ends (λ _. Sound) (parse small_start.1)
parse-Ends_example = parse-Ends small small_start.2

Parses-accepted_example :
    accept_all (whole_stream ∷ []) (stream_start ∷ document_start ∷ mapping_start ∷ [])
    ≡ some (pairs ∷ document_closing ∷ documents ∷ [])
unfolding parse traced from small_start
Parses-accepted_example = Parses-accepted small small_start.2

stream-Phrase_example : Phrase whole_stream (
    stream_start ∷ document_start ∷ mapping_start ∷ scalar ∷ sequence_start ∷ scalar ∷ sequence_end
    ∷ mapping_end ∷ document_end ∷ stream_end ∷ [])
unfolding parse traced from small_run
stream-Phrase_example = stream-Phrase small small_run.2 refl

Parses-begins_example :
    (rest : List EventType) × Phrase whole_stream
      (stream_start ∷ document_start ∷ mapping_start ∷ rest)
unfolding parse traced from small_start
Parses-begins_example = Parses-begins small small_start.2

-- A comment in front of the token at the start, and one at a later token.
abbrev comment_at : ℕ → Bytes → YamlComment
comment_at index head = record {
  token_mark = record { index = index; line = 0; column = 0 };
  head = head;
  line = [];
  foot = [];
}

abbrev two_comments : List YamlComment
two_comments = comment_at 0 (codes "# a") ∷ comment_at 5 (codes "# b") ∷ []

abbrev first_token : YamlToken
first_token = (token_of scalar_token (codes "k")).token

unfold_comments-Stops_example :
    (taken : List YamlComment) × (rest : List YamlComment) × (two_comments ≡ taken ++ rest)
    × All (λ c. Taken first_token c) taken
    × Stops first_token rest
    × (unfold_comments first_token two_comments (new small)
        ≡ record (with_comments taken (new small)) { comments = rest })
unfold_comments-Stops_example = unfold_comments-Stops first_token two_comments (new small)

abbrev peeked : Parser
peeked = record (new small) { token_available = true }

peek_token-again_example : peek_token peeked ≡ ok (token_of stream_start_token []).token peeked
unfolding peek_token
peek_token-again_example = peek_token-again (new small) refl
